-- ===== src/Tests/Grammars.antt =====
-- src/sv_parser/sieve.y on small scripts.
use libsieve.Prelude.{false, ℕ, pos, true, [], ◌∷◌, some, none, codes, ◌≡◌, inl, refl, arith}
use libsieve.Libc.{same_text}
use libsieve.Run.{ok, Returns, null_pointer}
use libsieve.Comparator.Tags.{AreNumbered}
use libsieve.Comparator.Lookup.{literal, contains_casemap, comparator_lookup, casemap_lookup}
use libsieve.Outside.{Outside}
use libsieve.Script.Syntax.{Match, Command, Commandlist, commands, no_commands, if_test}
use libsieve.Script.Syntax
use libsieve.Script.Release.{free_tree}
use libsieve.Util.Buffers.{strconcat}
use libsieve.Interface.Register.{Support}
use libsieve.Grammar.Checked.{built, refused, faulted, sieveerror}
use libsieve.Grammar.Tags.{comptag, comparator, contains, new_htags, hftags}
use libsieve.Grammar.Verify.{Regcomp}
use libsieve.Grammar.Require.{Feature, feature, named, supports, static_check_reqs}
use libsieve.Grammar.Forms.{
  TestForm, ActionForm, action, if_form, CommandForms, no_forms, forms, else_block,
}
use libsieve.Grammar.Tests.{test_of}
use libsieve.Grammar.Commands.{action_of, commands_of, start}
use libsieve.Grammar.Induction.{Gives}
use libsieve.Grammar.Released.{AreFreed}
use libsieve.Grammar.Matches.{AllMatches}
use libsieve.Grammar.Safe.{IsSafe, commands_of-IsSafe}
use libsieve.Grammar.Asked.{Asked}
use libsieve.Grammar.Granted.{Uses, Grants, start-Uses}
use libsieve.Grammar.Missing.{missing, meant, outcome, name_of, action_of-outcome}
use libsieve.Tests.Evaluator.{outside, asking}
use libsieve.Tests.Interfaces.{no_support}
use libsieve.Tests.Messages.{message, message-IsTable}

-- The tokens as the parser generator numbers them.
abbrev pub numbered : Outside Unit ℕ
numbered = record outside {
  tokens = record {
    is = 291;
    contains = 292;
    matches = 293;
    regex = 294;
    count = 297;
    value = 298;
  };
}

-- No expression compiles.
abbrev pub regcomp : Regcomp Unit
regcomp icase s = inl (codes "no")

abbrev pub filing : Support
filing = record no_support { fileinto = true }

-- if header :contains "Subject" "sale" { fileinto "Shop"; } else { keep; }
abbrev pub sales : CommandForms
sales =
    forms
      (if_form (TestForm.header (comptag contains ∷ []) (codes "Subject" ∷ []) (codes "sale" ∷ []))
        (forms (action (ActionForm.fileinto (codes "Shop"))) no_forms)
        (else_block (forms (action ActionForm.keep) no_forms)))
      no_forms

abbrev pub sales_tree : Commandlist Unit
sales_tree =
    commands
      (if_test
        (Syntax.Test.header (record {
          comptag = 292;
          comp = contains_casemap;
          sl = codes "Subject" ∷ [];
          pl = literal (codes "sale") ∷ [];
        }))
        (commands (Command.fileinto (some (codes "Shop")) []) no_commands)
        (commands (Command.keep []) no_commands))
      no_commands

sales_are_built :
    start numbered (pos 317) regcomp filing ((codes "fileinto" ∷ []) ∷ []) sales no_support asking
    ≡ ok (built (sales_tree, filing), asking)
unfolding start test_of comparator_lookup same_text static_check_reqs new_htags casemap_lookup
sales_are_built = refl

sales_need_fileinto :
    start numbered (pos 317) regcomp filing [] sales no_support asking
    ≡ ok (sieveerror (codes "fileinto not required"), asking)
unfolding start test_of comparator_lookup same_text new_htags casemap_lookup
sales_need_fileinto = refl

sales_need_support :
    start numbered
      (pos 317)
      regcomp
      no_support
      ((codes "fileinto" ∷ []) ∷ [])
      sales
      no_support
      asking
    ≡ ok (sieveerror (codes "unsupported feature: fileinto"), asking)
unfolding start same_text static_check_reqs strconcat
sales_need_support = refl

-- hasflag :contains ["Seen"]
hasflag_reads_a_null_pointer :
    test_of numbered.tokens regcomp
      (record no_support { imap4flags = true })
      (TestForm.hasflag (comptag contains ∷ []) (codes "Seen" ∷ []))
    ≡ faulted null_pointer
unfolding test_of hftags new_htags
hasflag_reads_a_null_pointer = refl

-- header :comparator "i;wrong" "To" "me"
an_unknown_comparator_has_no_message :
    test_of numbered.tokens regcomp no_support
      (TestForm.header (comparator (codes "i;wrong") ∷ []) (codes "To" ∷ []) (codes "me" ∷ []))
    ≡ refused none
unfolding test_of comparator_lookup same_text new_htags
an_unknown_comparator_has_no_message = refl

pub numbered-AreNumbered : AreNumbered numbered.tokens
numbered-AreNumbered = omega arith

commands_of-IsSafe_example :
    Gives
      (λ cmds.
        AllMatches (IsSafe false numbered message) cmds
        × Returns (AreFreed false) (free_tree false numbered.tokens cmds))
      (commands_of numbered (pos 317) regcomp filing sales asking)
commands_of-IsSafe_example =
    commands_of-IsSafe numbered numbered-AreNumbered (pos 317) false regcomp filing message
      message-IsTable sales asking

start-Uses_example :
    Gives
      (λ (script, required).
        Uses numbered required script
        × Grants filing required
        × Asked no_support ((codes "fileinto" ∷ []) ∷ []) required)
      (start numbered
        (pos 317)
        regcomp
        filing
        ((codes "fileinto" ∷ []) ∷ [])
        sales
        no_support
        asking)
unfolding supports
start-Uses_example =
    start-Uses numbered numbered-AreNumbered (pos 317) regcomp filing ((codes "fileinto" ∷ []) ∷ [])
      sales no_support asking ((omega arith, tt), tt) (λ f e. nothing f e)
  where
    nothing : Grants filing no_support
    nothing Feature.regex e = refl
    nothing _ e = cc

action_of-outcome_example :
    (action_of numbered
        (pos 317)
        regcomp
        filing
        (ActionForm.fileinto_flags (codes "Seen" ∷ []) (codes "Shop"))
        asking
      ≡ ok (
        outcome
            (missing filing (Feature.fileinto ∷ Feature.imap4flags ∷ []))
            (meant (ActionForm.fileinto_flags (codes "Seen" ∷ []) (codes "Shop"))),
        asking,
      ))
    × ((f : Feature) → named (name_of f) ≡ feature f)
action_of-outcome_example =
    action_of-outcome numbered (pos 317) regcomp filing
      (ActionForm.fileinto_flags (codes "Seen" ∷ []) (codes "Shop"))
      (Feature.fileinto ∷ Feature.imap4flags ∷ []) asking refl
