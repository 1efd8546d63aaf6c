-- ===== src/Script/Meaning.antt =====
-- What the tests of a script mean, for a message whose headers and size are known: the tests that
-- src/sv_interface/script.c evaluates, less those of addresses.
use libsieve.Prelude.{
  Bool, true, false, not, ◌&&◌, ◌||◌, List, [], ◌∷◌, Option, none, some, Text, ℤ, ltb_ℤ, length,
  any, if◌then◌else◌, ◌≡◌,
}
use libsieve.Libc.{same_name, decimal}
use libsieve.Comparator.Octet.{Verdict, answer}
use libsieve.Comparator.Lookup.{relational_count, Pattern, Comparator, run_comparator}
use libsieve.Outside.{Outside}
use libsieve.Script.Syntax.{
  Match, Test, null, address, envelope, anyof, allof, exists, sfalse, strue, header, hasflag,
  not_test, over, under, size, Testlist, no_tests, tests,
}

-- The message: its headers by their names, as the script writes them, and its size.
pub record Mail : Type 0 where
  pub bodies : Text → Option (List Text)
  pub size : ℤ

abbrev pub is_yes : Verdict → Bool
is_yes (answer b) = b
is_yes _ = false

-- A header that is there has at least one body.
abbrev pub is_there : Option (List Text) → Bool
is_there none = false
is_there (some []) = false
is_there (some (body ∷ bodies)) = true

abbrev pub all_there : Mail → List Text → Bool
all_there mail [] = true
all_there mail (s ∷ sl) = if is_there (mail.bodies s) then all_there mail sl else false

module _ {R W : Type 0} (o : Outside R W) where
  abbrev pub matches : Comparator → Text → Pattern R → Bool
  matches comp v p = is_yes (run_comparator o.regexec comp p v)

  -- A pattern fits the number of the bodies, or one of them.
  abbrev pub fits : Match R → List Text → Pattern R → Bool
  fits m vals p =
      if relational_count o.tokens m.comptag
      then matches m.comp (decimal (length vals)) p
      else any (λ v. matches m.comp v p) vals

  abbrev pub fits_header : Match R → Option (List Text) → Bool
  fits_header m none = false
  fits_header m (some []) = false
  fits_header m (some (v ∷ vals)) = any (fits m (v ∷ vals)) m.pl

  unfoldable mutual
    pub holds : Mail → List Text → Test R → Bool
    holds mail flags null = false
    holds mail flags (address part m) = false
    holds mail flags (envelope part m) = false
    holds mail flags (anyof tl) = some_hold mail flags tl
    holds mail flags (allof tl) = all_hold mail flags tl
    holds mail flags (exists sl) = all_there mail sl
    holds mail flags sfalse = false
    holds mail flags strue = true
    holds mail flags (header m) = any (λ s. fits_header m (mail.bodies s)) m.sl
    holds mail flags (hasflag sl) = any (λ s. any (λ t. same_name t s) flags) sl
    holds mail flags (not_test t) = not (holds mail flags t)
    holds mail flags (size over n) = ltb_ℤ n mail.size
    holds mail flags (size under n) = ltb_ℤ mail.size n

    pub some_hold : Mail → List Text → Testlist R → Bool
    some_hold mail flags no_tests = false
    some_hold mail flags (tests t tl) = holds mail flags t || some_hold mail flags tl

    pub all_hold : Mail → List Text → Testlist R → Bool
    all_hold mail flags no_tests = true
    all_hold mail flags (tests t tl) = holds mail flags t && all_hold mail flags tl

  -- The comparator answers for a pattern, whatever the text.
  abbrev pub IsDecided : Comparator → Pattern R → Type 0
  IsDecided comp p = (v : Text) → (b : Bool) × (run_comparator o.regexec comp p v ≡ answer b)

  abbrev pub AreDecided : Comparator → List (Pattern R) → Type 0
  AreDecided comp [] = Unit
  AreDecided comp (p ∷ pl) = IsDecided comp p × AreDecided comp pl

  -- A test without addresses whose patterns are decided.
  abbrev mutual
    pub IsPlain : Test R → Type 0
    IsPlain (address part m) = ⊥
    IsPlain (envelope part m) = ⊥
    IsPlain (anyof tl) = ArePlain tl
    IsPlain (allof tl) = ArePlain tl
    IsPlain (header m) = AreDecided m.comp m.pl
    IsPlain (not_test t) = IsPlain t
    IsPlain _ = Unit

    pub ArePlain : Testlist R → Type 0
    ArePlain no_tests = Unit
    ArePlain (tests t tl) = IsPlain t × ArePlain tl
