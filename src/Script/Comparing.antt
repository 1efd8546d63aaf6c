-- ===== src/Script/Comparing.antt =====
-- src/sv_parser/comparator.c, as src/sv_interface/script.c calls it: how a comparison ends.
use libsieve.Prelude.{Bool, true, false, Text, ◌≡◌, refl}
use libsieve.Run.{Run, ok, fault, out_of_bounds}
use libsieve.Comparator.Octet.{Verdict, answer, overrun, octet_matches}
use libsieve.Comparator.Casemap.{ascii_casemap_matches}
use libsieve.Comparator.Contains.{ascii_casemap_contains-FoundIn}
use libsieve.Comparator.Matching.{HasNoEscape}
use libsieve.Comparator.Stopping.{Stops, Stops-answer, octet_matches_-Stops}
use libsieve.Comparator.Lookup.{
  Comparator, is_octet, contains_octet, matches_octet, regex_octet, contains_casemap,
  matches_casemap, unknown_casemap, unknown_numeric, casemap, numeric, Pattern, literal, compiled,
  suits, run_comparator,
}
use libsieve.Outside.{Outside}
use libsieve.Script.Syntax.{Match}
use libsieve.Script.Matching.{run_of_verdict, compare_with}
use libsieve.Script.Meaning.{IsDecided}

-- No pattern of `:matches` has a backslash.
abbrev pub IsUnescaped : {R : Type 0} → Comparator → Pattern R → Type 0
IsUnescaped matches_octet (literal pat) = HasNoEscape pat
IsUnescaped matches_casemap (literal pat) = HasNoEscape pat
IsUnescaped _ _ = Unit

module _ {R : Type 0} (regexec : R → Text → Bool) where
  pub run_comparator-Stops :
      (comp : Comparator) (p : Pattern R) (val : Text)
      → suits comp p ≡ true
      → Stops (IsUnescaped comp p) (run_comparator regexec comp p val)
  unfolding run_comparator suits octet_matches ascii_casemap_matches
  run_comparator-Stops is_octet (literal pat) val e = tt
  run_comparator-Stops contains_octet (literal pat) val e = tt
  run_comparator-Stops matches_octet (literal pat) val e = octet_matches_-Stops false pat val
  run_comparator-Stops regex_octet (literal pat) val e = cc
  run_comparator-Stops contains_casemap (literal pat) val e =
      let (found, ends, _) = ascii_casemap_contains-FoundIn pat val in rw ends tt
  run_comparator-Stops matches_casemap (literal pat) val e = octet_matches_-Stops true pat val
  run_comparator-Stops unknown_casemap (literal pat) val e = tt
  run_comparator-Stops unknown_numeric (literal pat) val e = tt
  run_comparator-Stops (casemap num) (literal pat) val e = tt
  run_comparator-Stops (numeric num) (literal pat) val e = tt
  run_comparator-Stops regex_octet (compiled r) val e = tt
  run_comparator-Stops unknown_casemap (compiled r) val e = tt
  run_comparator-Stops unknown_numeric (compiled r) val e = tt
  run_comparator-Stops is_octet (compiled r) val e = cc
  run_comparator-Stops contains_octet (compiled r) val e = cc
  run_comparator-Stops matches_octet (compiled r) val e = cc
  run_comparator-Stops contains_casemap (compiled r) val e = cc
  run_comparator-Stops matches_casemap (compiled r) val e = cc
  run_comparator-Stops (casemap num) (compiled r) val e = cc
  run_comparator-Stops (numeric num) (compiled r) val e = cc

-- A comparison ends with an answer, or behind the end of its pattern and not if `E` holds.
abbrev pub Compares : Type 0 → Run Bool → Type 0
Compares E (ok b) = Unit
Compares E (fault e) = (e ≡ out_of_bounds) × (¬ E)

run_of_verdict-Compares : (E : Type 0) (v : Verdict) → Stops E v → Compares E (run_of_verdict v)
unfolding run_of_verdict
run_of_verdict-Compares E (answer b) h = tt
run_of_verdict-Compares E overrun h = (refl, h)
run_of_verdict-Compares E Verdict.out_of_fuel h = absurd h

module _ {R W : Type 0} (o : Outside R W) (m : Match R) (p : Pattern R)
    (e : suits m.comp p ≡ true) where
  pub compare_with-Compares :
      (val : Text) → Compares (IsUnescaped m.comp p) (compare_with o m p val)
  unfolding compare_with
  compare_with-Compares val = rw e (
      run_of_verdict-Compares (IsUnescaped m.comp p) (run_comparator o.regexec m.comp p val)
        (run_comparator-Stops o.regexec m.comp p val e))

  pub suits-IsDecided : IsUnescaped m.comp p → IsDecided o m.comp p
  suits-IsDecided w val =
      Stops-answer (IsUnescaped m.comp p) (run_comparator o.regexec m.comp p val)
        (run_comparator-Stops o.regexec m.comp p val e) w
