-- ===== src/Grammar/Released.antt =====
-- src/sv_parser/sieve.y and src/sv_interface/tree.c: the release of a tree that the grammar builds.
use libsieve.Prelude.{
  Bool, true, false, ℕ, List, [], ◌∷◌, ◌++◌, map, Option, none, some, Text, ◌==◌, ◌≡◌, refl,
}
use libsieve.Run.{Run, ok, ◌>>=◌, Returns, Returns-bind}
use libsieve.Comparator.Lookup.{Tokens, Pattern, literal, compiled}
use libsieve.Script.Syntax.{
  Match, Vacation, Test, address, envelope, anyof, allof, exists, header, hasflag, not_test,
  Testlist, no_tests, tests, Command, if_test, reject, fileinto, redirect, keep, vacation, setflag,
  addflag, removeflag, notify, Commandlist, no_commands, commands,
}
use libsieve.Script.Release.{
  Release, text, expression, shell, free_sl, free_string, free_pattern, free_pl, free_match,
  free_tl, free_test, free_command, free_tree,
}
use libsieve.Grammar.Trees.{All, All-append, InTests, InCommand}
use libsieve.Grammar.Kinds.{is_compiled}
use libsieve.Grammar.Typed.{AreOfKind, IsTyped}
use libsieve.Grammar.Matches.{InMatches, AllMatches}

-- What the release of a pattern frees: the parts of an expression only if the macro is defined.
abbrev pub held : {R : Type 0} → Bool → Pattern R → Release R
held enable_regex (literal s) = text s
held true (compiled r) = expression r
held false (compiled r) = shell r

-- Every expression is freed with its parts if the macro is defined, and without them otherwise.
abbrev pub IsFreed : {R : Type 0} → Bool → Release R → Type 0
IsFreed enable_regex (text s) = Unit
IsFreed enable_regex (expression r) = enable_regex ≡ true
IsFreed enable_regex (shell r) = enable_regex ≡ false

abbrev pub AreFreed : {R : Type 0} → Bool → List (Release R) → Type 0
AreFreed enable_regex rs = All (IsFreed enable_regex) rs

module _ (R : Type 0) (enable_regex : Bool) where
  free_sl-AreFreed : (sl : List Text) → AreFreed {R = R} enable_regex (free_sl sl)
  unfolding free_sl
  free_sl-AreFreed [] = tt
  free_sl-AreFreed (s ∷ sl) = (tt, free_sl-AreFreed sl)

  free_string-AreFreed : (s : Option Text) → AreFreed {R = R} enable_regex (free_string s)
  unfolding free_string
  free_string-AreFreed none = tt
  free_string-AreFreed (some s) = (tt, tt)

  vacation-AreFreed :
      (t : Tokens) (v : Vacation)
      → Returns (AreFreed {R = R} enable_regex) (free_command enable_regex t (vacation v))
  unfolding free_command
  vacation-AreFreed t v =
      let rest =
        All-append (IsFreed enable_regex) (free_sl v.addresses) (free_string (some v.message))
          (free_sl-AreFreed v.addresses) (free_string-AreFreed (some v.message)) in
      let more =
        All-append (IsFreed enable_regex) (free_string v.subject) _ (free_string-AreFreed v.subject)
          rest in
      All-append (IsFreed enable_regex) (free_string v.from) _ (free_string-AreFreed v.from) (
        All-append (IsFreed enable_regex) (free_string v.handle) _ (free_string-AreFreed v.handle)
          more)

  notify-AreFreed :
      (t : Tokens) (id method : Option Text) (options : List Text) (priority message : Option Text)
      → Returns
          (AreFreed {R = R} enable_regex)
          (free_command enable_regex t (notify id method options priority message))
  unfolding free_command
  notify-AreFreed t id method options priority message =
      All-append (IsFreed enable_regex) (free_string method) _ (free_string-AreFreed method) (
        All-append (IsFreed enable_regex) (free_string id) _ (free_string-AreFreed id) (
          All-append (IsFreed enable_regex) (free_sl options) (free_string message)
            (free_sl-AreFreed options) (free_string-AreFreed message)))

free_pattern-held :
    {R : Type 0} (enable_regex : Bool) (t : Tokens) (comptag : ℕ) (p : Pattern R)
    → is_compiled p ≡ (comptag == t.regex)
    → free_pattern enable_regex t comptag p ≡ ok (held enable_regex p)
unfolding free_pattern
free_pattern-held true t comptag (literal s) e = rw (← e) refl
free_pattern-held true t comptag (compiled r) e = rw (← e) refl
free_pattern-held false t comptag (literal s) e = refl
free_pattern-held false t comptag (compiled r) e = refl

held-IsFreed :
    {R : Type 0} (enable_regex : Bool) (p : Pattern R) → IsFreed enable_regex (held enable_regex p)
held-IsFreed enable_regex (literal s) = tt
held-IsFreed true (compiled r) = refl
held-IsFreed false (compiled r) = refl

module _ {R : Type 0} (enable_regex : Bool) (t : Tokens) where
  free_pl-held :
      (comptag : ℕ) (pl : List (Pattern R))
      → AreOfKind (comptag == t.regex) pl
      → free_pl enable_regex t pl comptag ≡ ok (map (held enable_regex) pl)
  unfolding free_pl
  free_pl-held comptag [] k = refl
  free_pl-held comptag (p ∷ pl) (first, rest) =
      rw (free_pattern-held enable_regex t comptag p first, free_pl-held comptag pl rest) refl

  -- All that a test of headers or addresses holds.
  pub free_match-held :
      (m : Match R)
      → IsTyped t m
      → free_match enable_regex t m ≡ ok (map text m.sl ++ map (held enable_regex) m.pl)
  unfolding free_match free_sl
  free_match-held m i = rw (free_pl-held m.comptag m.pl i.kinds) refl

  held-AreFreed : (pl : List (Pattern R)) → AreFreed enable_regex (map (held enable_regex) pl)
  held-AreFreed [] = tt
  held-AreFreed (p ∷ pl) = (held-IsFreed enable_regex p, held-AreFreed pl)

  free_match-AreFreed :
      (m : Match R) → IsTyped t m → Returns (AreFreed enable_regex) (free_match enable_regex t m)
  unfolding free_sl
  free_match-AreFreed m i = rw (free_match-held m i) (
      All-append (IsFreed enable_regex) (map text m.sl) (map (held enable_regex) m.pl)
        (free_sl-AreFreed R enable_regex m.sl) (held-AreFreed m.pl))

  -- What is released first, and then.
  both :
      (first then_ : Run (List (Release R)))
      → Returns (AreFreed enable_regex) first
      → Returns (AreFreed enable_regex) then_
      → Returns (AreFreed enable_regex) (first >>= λ rs. then_ >>= λ ss. ok (rs ++ ss))
  both first then_ h k =
      Returns-bind (AreFreed enable_regex) (AreFreed enable_regex) first _ h (λ rs w.
        Returns-bind (AreFreed enable_regex) (AreFreed enable_regex) then_ _ k
          (λ ss v. All-append (IsFreed enable_regex) rs ss w v))

  mutual
    unfolding free_tl

    free_tl-AreFreed :
        (tl : Testlist R)
        → InTests (IsTyped t) (λ part. Unit) Unit tl
        → Returns (AreFreed enable_regex) (free_tl enable_regex t tl)
    free_tl-AreFreed no_tests i = tt
    free_tl-AreFreed (tests test tl) (i, is) =
        both (free_test enable_regex t test) (free_tl enable_regex t tl) (free_test-AreFreed test i)
          (free_tl-AreFreed tl is)

    free_test-AreFreed :
        (test : Test R)
        → InMatches (IsTyped t) test
        → Returns (AreFreed enable_regex) (free_test enable_regex t test)
    free_test-AreFreed (anyof tl) i = free_tl-AreFreed tl i
    free_test-AreFreed (allof tl) i = free_tl-AreFreed tl i
    free_test-AreFreed (exists sl) i = free_sl-AreFreed R enable_regex sl
    free_test-AreFreed (hasflag sl) i = free_sl-AreFreed R enable_regex sl
    free_test-AreFreed (header m) i = free_match-AreFreed m i
    free_test-AreFreed (address part m) (_, i) = free_match-AreFreed m i
    free_test-AreFreed (envelope part m) (_, i) = free_match-AreFreed m i
    free_test-AreFreed (not_test test) i = free_test-AreFreed test i
    free_test-AreFreed _ i = tt

  mutual
    unfolding free_tree

    free_command-AreFreed :
        (command : Command R)
        → InCommand (InMatches (IsTyped t)) (λ c. Unit) command
        → Returns (AreFreed enable_regex) (free_command enable_regex t command)
    free_command-AreFreed (if_test test y n) (i, iy, in_) =
        Returns-bind (AreFreed enable_regex) (AreFreed enable_regex) (free_test enable_regex t test)
          _ (free_test-AreFreed test i)
          (λ rs w.
            Returns-bind (AreFreed enable_regex) (AreFreed enable_regex)
              (free_tree enable_regex t y) _ (free_tree-AreFreed y iy)
              (λ ss v.
                Returns-bind (AreFreed enable_regex) (AreFreed enable_regex)
                  (free_tree enable_regex t n) _ (free_tree-AreFreed n in_)
                  (λ us x.
                    All-append (IsFreed enable_regex) rs (ss ++ us) w
                      (All-append (IsFreed enable_regex) ss us v x))))
    free_command-AreFreed (fileinto mailbox slflags) i =
        All-append (IsFreed enable_regex) (free_string mailbox) (free_sl slflags)
          (free_string-AreFreed R enable_regex mailbox) (free_sl-AreFreed R enable_regex slflags)
    free_command-AreFreed (keep slflags) i = free_sl-AreFreed R enable_regex slflags
    free_command-AreFreed (redirect str) i = free_string-AreFreed R enable_regex str
    free_command-AreFreed (reject str) i = free_string-AreFreed R enable_regex str
    free_command-AreFreed (vacation v) i = vacation-AreFreed R enable_regex t v
    free_command-AreFreed (setflag sl) i = free_sl-AreFreed R enable_regex sl
    free_command-AreFreed (addflag sl) i = free_sl-AreFreed R enable_regex sl
    free_command-AreFreed (removeflag sl) i = free_sl-AreFreed R enable_regex sl
    free_command-AreFreed (notify id method options priority message) i =
        notify-AreFreed R enable_regex t id method options priority message
    free_command-AreFreed _ i = tt

    pub free_tree-AreFreed :
        (cmds : Commandlist R)
        → AllMatches (IsTyped t) cmds
        → Returns (AreFreed enable_regex) (free_tree enable_regex t cmds)
    free_tree-AreFreed no_commands i = tt
    free_tree-AreFreed (commands command cl) (i, is) =
        both (free_command enable_regex t command) (free_tree enable_regex t cl)
          (free_command-AreFreed command i) (free_tree-AreFreed cl is)
