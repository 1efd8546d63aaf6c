-- ===== src/Grammar/Safe.antt =====
-- src/sv_parser/sieve.y, comparator.c and message2.c: what the grammar checks is what the comparators
-- and the table of headers rely on.
use libsieve.Prelude.{ℤ, Bool, true, List, [], ◌∷◌, ◌++◌, map, Text, ◌≡◌, arith}
use libsieve.Run.{ok, Returns}
use libsieve.Comparator.Lookup.{suits}
use libsieve.Comparator.Tags.{AreNumbered}
use libsieve.Message.Cache.{Message, getheader}
use libsieve.Message.Lookup.{IsTable, IsAscii, LooksUp, getheader-LooksUp}
use libsieve.Context.State.{Context}
use libsieve.Outside.{Outside}
use libsieve.Script.Syntax.{Match}
use libsieve.Script.Matching.{compare_with}
use libsieve.Script.Release.{text, free_match, free_tree}
use libsieve.Script.Comparing.{IsUnescaped, Compares, compare_with-Compares}
use libsieve.Interface.Register.{Support}
use libsieve.Grammar.Checked.{Builds-mono}
use libsieve.Grammar.Verify.{is_ftext, all_ftext, Regcomp}
use libsieve.Grammar.Tests.{match_of}
use libsieve.Grammar.Commands.{commands_of}
use libsieve.Grammar.Forms.{CommandForms}
use libsieve.Grammar.Trees.{All}
use libsieve.Grammar.Induction.{Gives, Gives-and, Gives-mono}
use libsieve.Grammar.Typed.{IsTyped, match_of-IsTyped}
use libsieve.Grammar.Released.{held, AreFreed, free_match-held, free_tree-AreFreed}
use libsieve.Grammar.Matches.{AllMatches, commands_of-AllMatches}

-- Each pattern can be compared with any value, each name be looked up in the table of the message,
-- and all the texts and expressions be released, as far as the build has it.
pub record IsSafe {R W : Type 0} (enable_regex : Bool) (o : Outside R W) (message : Message)
    (m : Match R) : Type 0 where
  pub compared :
      All (λ p. (val : Text) → Compares (IsUnescaped m.comp p) (compare_with o m p val)) m.pl
  pub looked_up : All (λ name. Returns (LooksUp message name) (getheader message name)) m.sl
  pub released :
      free_match enable_regex o.tokens m ≡ ok (map text m.sl ++ map (held enable_regex) m.pl)

All-mono :
    {A : Type 0} (P Q : A → Type 0) (xs : List A) → ((x : A) → P x → Q x) → All P xs → All Q xs
All-mono P Q [] f h = tt
All-mono P Q (x ∷ xs) f (h, hs) = (f x h, All-mono P Q xs f hs)

ftext-IsAscii : (s : Text) → all_ftext s ≡ true → IsAscii s
unfolding all_ftext is_ftext
ftext-IsAscii [] h = tt
ftext-IsAscii (c ∷ s) h = (ground arith, ftext-IsAscii s (ground arith))

module _ {R W : Type 0} (o : Outside R W) (n : AreNumbered o.tokens) (mime_token : ℤ)
    (enable_regex : Bool) (regcomp : Regcomp R) (required : Support) (message : Message)
    (table : IsTable message) where
  IsTyped-IsSafe : (m : Match R) → IsTyped o.tokens m → IsSafe enable_regex o message m
  IsTyped-IsSafe m i = record {
    compared =
        All-mono (λ p. suits m.comp p ≡ true)
          (λ p. (val : Text) → Compares (IsUnescaped m.comp p) (compare_with o m p val)) m.pl
          (compare_with-Compares o m) i.patterns;
    looked_up =
        All-mono (λ s. all_ftext s ≡ true)
          (λ name. Returns (LooksUp message name) (getheader message name)) m.sl
          (λ s e. getheader-LooksUp message s table (ftext-IsAscii s e)) i.names;
    released = free_match-held enable_regex o.tokens m i;
  }

  -- Where the tokens have the numbers that the parser generator gives out, and a table of headers
  -- has all its places: for each test of headers, addresses or the envelope in the commands that the
  -- grammar builds, the comparison of any value with any of its patterns ends with an answer, or, for
  -- a pattern of :matches that has a backslash, possibly behind the end of that pattern; no pattern
  -- is read as one of the other kind, as a text or a compiled expression. Each of its names is looked
  -- up inside the table, and its release frees all its texts and all its expressions, these with
  -- their parts if `ENABLE_REGEX` is defined in the build and without them otherwise.
  -- The release of the whole tree returns, reads no text as an expression, and frees each expression
  -- that it frees in this way.
  pub commands_of-IsSafe :
      (cl : CommandForms) (c : Context W)
      → Gives
          (λ cmds.
            AllMatches (IsSafe enable_regex o message) cmds
            × Returns (AreFreed enable_regex) (free_tree enable_regex o.tokens cmds))
          (commands_of o mime_token regcomp required cl c)
  commands_of-IsSafe cl c =
      let made = commands_of o mime_token regcomp required cl c in
      let typed = match_of-IsTyped o.tokens n regcomp required in
      Gives-and (AllMatches (IsSafe enable_regex o message))
        (λ cmds. Returns (AreFreed enable_regex) (free_tree enable_regex o.tokens cmds)) made
        (commands_of-AllMatches o mime_token regcomp required (IsSafe enable_regex o message)
          (λ h sl pl.
            Builds-mono (IsTyped o.tokens) (IsSafe enable_regex o message)
              (match_of o.tokens regcomp required h sl pl) IsTyped-IsSafe (typed h sl pl))
          cl c)
        (Gives-mono (AllMatches (IsTyped o.tokens))
          (λ cmds. Returns (AreFreed enable_regex) (free_tree enable_regex o.tokens cmds)) made
          (free_tree-AreFreed enable_regex o.tokens)
          (commands_of-AllMatches o mime_token regcomp required (IsTyped o.tokens) typed cl c))
