-- ===== src/Script/Release.antt =====
-- src/sv_interface/tree.c: the release of the tree of a script. The structs of the tree are not
-- shown; what they hold is listed as it is freed.
use libsieve.Prelude.{
  ℕ, Bool, ◌&&◌, List, [], ◌∷◌, ◌++◌, map, Option, none, some, Text, ◌==◌, if◌then◌else◌,
}
use libsieve.Run.{Run, ok, fault, wrong_pattern, ◌>>=◌}
use libsieve.Comparator.Lookup.{Tokens, Pattern, literal, compiled}
use libsieve.Script.Syntax.{
  Match, Test, address, envelope, anyof, allof, exists, header, hasflag, not_test, Testlist,
  no_tests, tests, Command, if_test, reject, fileinto, redirect, keep, vacation, setflag, addflag,
  removeflag, notify, Commandlist, no_commands, commands,
}

-- A text; an expression, with what `libsieve_regfree` finds in it; or the struct of an expression
-- alone, whose parts are lost.
pub data Release (R : Type 0) : Type 0 where
  text : Text → Release R
  expression : R → Release R
  shell : R → Release R

unfoldable pub free_sl : {R : Type 0} → List Text → List (Release R)
free_sl sl = map text sl

-- A string that may be null.
unfoldable pub free_string : {R : Type 0} → Option Text → List (Release R)
free_string none = []
free_string (some s) = text s ∷ []

-- `enable_regex` tells whether the macro `ENABLE_REGEX` is defined in the build.
module _ {R : Type 0} (enable_regex : Bool) (t : Tokens) where
  -- `libsieve_regfree`, which the macro lets in, reads foreign memory on a text.
  unfoldable pub free_pattern : ℕ → Pattern R → Run (Release R)
  free_pattern comptag (literal s) =
      if enable_regex && comptag == t.regex then fault wrong_pattern else ok (text s)
  free_pattern comptag (compiled r) =
      ok (if enable_regex && comptag == t.regex then expression r else shell r)

  unfoldable pub free_pl : List (Pattern R) → ℕ → Run (List (Release R))
  unfolding free_pattern
  free_pl [] comptag = ok []
  free_pl (p ∷ pl) comptag =
      free_pattern comptag p >>= λ first. free_pl pl comptag >>= λ rest. ok (first ∷ rest)

  -- The members that a test of headers shares with one of addresses.
  unfoldable pub free_match : Match R → Run (List (Release R))
  unfolding free_sl free_pl
  free_match m = free_pl m.pl m.comptag >>= λ patterns. ok (free_sl m.sl ++ patterns)

  unfoldable mutual
    unfolding free_sl free_match

    pub free_tl : Testlist R → Run (List (Release R))
    free_tl no_tests = ok []
    free_tl (tests test tl) = free_test test >>= λ first. free_tl tl >>= λ rest. ok (first ++ rest)

    pub free_test : Test R → Run (List (Release R))
    free_test (anyof tl) = free_tl tl
    free_test (allof tl) = free_tl tl
    free_test (exists sl) = ok (free_sl sl)
    free_test (hasflag sl) = ok (free_sl sl)
    free_test (header m) = free_match m
    free_test (address part m) = free_match m
    free_test (envelope part m) = free_match m
    free_test (not_test test) = free_test test
    free_test _ = ok []

  -- The body of the loop is the switch over the type of a command; that of a `valid_notif_method` has
  -- no case. The priority of a notification is not on the heap.
  unfoldable mutual
    unfolding free_test free_sl free_string

    pub free_command : Command R → Run (List (Release R))
    free_command (if_test test y n) = free_test test >>= λ held.
        free_tree y >>= λ then_. free_tree n >>= λ else_. ok (held ++ (then_ ++ else_))
    free_command (fileinto mailbox slflags) = ok (free_string mailbox ++ free_sl slflags)
    free_command (keep slflags) = ok (free_sl slflags)
    free_command (redirect str) = ok (free_string str)
    free_command (reject str) = ok (free_string str)
    free_command (vacation v) = ok (
        free_string v.from
        ++ (free_string v.handle
            ++ (free_string v.subject ++ (free_sl v.addresses ++ free_string (some v.message)))))
    free_command (setflag sl) = ok (free_sl sl)
    free_command (addflag sl) = ok (free_sl sl)
    free_command (removeflag sl) = ok (free_sl sl)
    free_command (notify id method options priority message) =
        ok (free_string method ++ (free_string id ++ (free_sl options ++ free_string message)))
    free_command _ = ok []

    pub free_tree : Commandlist R → Run (List (Release R))
    free_tree no_commands = ok []
    free_tree (commands command cl) =
        free_command command >>= λ first. free_tree cl >>= λ rest. ok (first ++ rest)
