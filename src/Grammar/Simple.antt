-- ===== src/Grammar/Simple.antt =====
-- src/sv_parser/sieve.y and src/sv_interface/script.c: the commands that the grammar builds have a
-- meaning, where they are of the kinds that the meaning covers.
use libsieve.Prelude.{true, List, [], ◌∷◌, ◌≡◌}
use libsieve.Comparator.Lookup.{Pattern, suits}
use libsieve.Outside.{Outside}
use libsieve.Script.Syntax.{
  Match, Test, address, envelope, anyof, allof, header, not_test, Testlist, no_tests, tests,
  Command, if_test, vacation, setflag, addflag, removeflag, Commandlist, no_commands, commands,
}
use libsieve.Script.Meaning.{AreDecided, IsPlain, ArePlain}
use libsieve.Script.Plan.{IsSimple, IsSimpleCommand}
use libsieve.Script.Comparing.{IsUnescaped, suits-IsDecided}
use libsieve.Grammar.Trees.{All, InTest, InTests, InCommand, InCommands}
use libsieve.Grammar.Typed.{IsTyped}
use libsieve.Grammar.Matches.{InMatches, AllMatches}

-- No vacation, and no command for flags.
abbrev IsOrdinary : {R : Type 0} → Command R → Type 0
IsOrdinary (vacation v) = ⊥
IsOrdinary (setflag sl) = ⊥
IsOrdinary (addflag sl) = ⊥
IsOrdinary (removeflag sl) = ⊥
IsOrdinary _ = Unit

abbrev AreUnescaped : {R : Type 0} → Match R → Type 0
AreUnescaped m = All (IsUnescaped m.comp) m.pl

-- No vacations, no commands for flags, no addresses in tests, and no backslash in a pattern of
-- `:matches`.
abbrev pub IsBasic : {R : Type 0} → Commandlist R → Type 0
IsBasic cmds = InCommands (InTest AreUnescaped (λ part. ⊥) Unit) IsOrdinary cmds

module _ {R W : Type 0} (o : Outside R W) where
  suits-AreDecided :
      (m : Match R) (pl : List (Pattern R))
      → All (λ p. suits m.comp p ≡ true) pl
      → All (IsUnescaped m.comp) pl
      → AreDecided o m.comp pl
  suits-AreDecided m [] s w = tt
  suits-AreDecided m (p ∷ pl) (s, ss) (w, ws) =
      (suits-IsDecided o m p s w, suits-AreDecided m pl ss ws)

  mutual
    typed-IsPlain :
        (test : Test R)
        → InMatches (IsTyped o.tokens) test
        → InTest AreUnescaped (λ part. ⊥) Unit test
        → IsPlain o test
    typed-IsPlain (address part m) i (none, w) = none
    typed-IsPlain (envelope part m) i (none, w) = none
    typed-IsPlain (anyof tl) i w = typed-ArePlain tl i w
    typed-IsPlain (allof tl) i w = typed-ArePlain tl i w
    typed-IsPlain (header m) i w = suits-AreDecided m m.pl i.patterns w
    typed-IsPlain (not_test test) i w = typed-IsPlain test i w
    typed-IsPlain _ i w = tt

    typed-ArePlain :
        (tl : Testlist R)
        → InTests (IsTyped o.tokens) (λ part. Unit) Unit tl
        → InTests AreUnescaped (λ part. ⊥) Unit tl
        → ArePlain o tl
    typed-ArePlain no_tests i w = tt
    typed-ArePlain (tests test tl) (i, is) (w, ws) =
        (typed-IsPlain test i w, typed-ArePlain tl is ws)

  mutual
    typed-IsSimpleCommand :
        (command : Command R)
        → InCommand (InMatches (IsTyped o.tokens)) (λ c. Unit) command
        → InCommand (InTest AreUnescaped (λ part. ⊥) Unit) IsOrdinary command
        → IsSimpleCommand o command
    typed-IsSimpleCommand (if_test test y n) (i, iy, in_) (w, wy, wn) =
        (typed-IsPlain test i w, typed-IsSimple y iy wy, typed-IsSimple n in_ wn)
    typed-IsSimpleCommand (vacation v) i w = w
    typed-IsSimpleCommand (setflag sl) i w = w
    typed-IsSimpleCommand (addflag sl) i w = w
    typed-IsSimpleCommand (removeflag sl) i w = w
    typed-IsSimpleCommand _ i w = tt

    pub typed-IsSimple :
        (cmds : Commandlist R) → AllMatches (IsTyped o.tokens) cmds → IsBasic cmds → IsSimple o cmds
    typed-IsSimple no_commands i w = tt
    typed-IsSimple (commands command cl) (i, is) (w, ws) =
        (typed-IsSimpleCommand command i w, typed-IsSimple cl is ws)
