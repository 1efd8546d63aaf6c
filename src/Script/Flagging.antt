-- ===== src/Script/Flagging.antt =====
-- src/sv_interface/script.c: what the flag commands do to the set of flags, which are compared in
-- any case.
use libsieve.Prelude.{
  Bool, true, false, List, [], ◌∷◌, map, Text, ◌≡◌, ◌↔◌, ◌⊎◌, inl, inr, refl, sym, ◌∙◌, arith,
  Bool-cases,
}
use libsieve.Libc.{tolower, same_name}
use libsieve.Run.{Run, ok, fault, use_after_free, ◌>>=◌}
use libsieve.Tree.Stringlist.{Stringlist, null, freed, new_sl, free_sl_only, of_list}
use libsieve.Comparator.Casemap.{eq, ascii_casemap}
use libsieve.Comparator.Order.{ascii_casemap-Relates}
use libsieve.Script.Flags.{find_flag, hasflag, setflag, addflag, unlink, remove_flag, removeflag}

-- One and the same flag.
abbrev pub SameFlag : Text → Text → Type 0
SameFlag t s = map tolower t ≡ map tolower s

same_name-flipped : (t s : Text) → (same_name t s ≡ true) ↔ SameFlag s t
unfolding same_name ascii_casemap
same_name-flipped t s = ascii_casemap-Relates eq t s

same_name_iff : (t s : Text) → (same_name t s ≡ true) ↔ SameFlag t s
same_name_iff t s = let (to, from) = same_name-flipped t s in (λ h. sym (to h), λ e. from (sym e))

abbrev pub IsFlag : Text → List Text → Type 0
IsFlag s [] = ⊥
IsFlag s (t ∷ flags) = SameFlag t s ⊎ IsFlag s flags

-- No flag is there twice.
abbrev pub Distinct : List Text → Type 0
Distinct [] = Unit
Distinct (t ∷ flags) = (¬ IsFlag t flags) × Distinct flags

IsFlag-same : (s t : Text) (flags : List Text) → SameFlag t s → IsFlag t flags → IsFlag s flags
IsFlag-same s t [] e h = h
IsFlag-same s t (u ∷ flags) e (inl h) = inl (h ∙ e)
IsFlag-same s t (u ∷ flags) e (inr h) = inr (IsFlag-same s t flags e h)

-- Whether a flag is there.
abbrev pub Found : Run Bool → Type 0 → Type 0
Found r P = ((r ≡ ok true) × P) ⊎ ((r ≡ ok false) × (¬ P))

other_flag : (t s : Text) → same_name t s ≡ false → ¬ SameFlag t s
other_flag t s other e = cc (other, (same_name_iff t s).1 e)

find_flag-Found :
    (s : Text) (flags : List Text) → Found (find_flag s (of_list flags)) (IsFlag s flags)
unfolding find_flag
find_flag-Found s [] = inr (refl, λ h. h)
find_flag-Found s (t ∷ flags) = elim (Bool-cases (same_name t s)) [
  | inl same ↦ inl (rw same refl, inl ((same_name_iff t s).0 same))
  | inr other ↦ elim (find_flag-Found s flags) [
    | inl found ↦ inl (rw (other, found.0) refl, inr found.1)
    | inr absent ↦ inr (
      rw (other, absent.0) refl,
      λ h. elim h [ inl e ↦ other_flag t s other e | inr k ↦ absent.1 k ],
    )
  ]
]

-- A test of flags answers whether one of those it names is among those that are set.
pub hasflag-Found :
    (names flags : List Text)
    → Found (hasflag (of_list names) (of_list flags)) ((s : Text) × IsFlag s names × IsFlag s flags)
unfolding hasflag
hasflag-Found [] flags = inr (refl, λ h. h.1)
hasflag-Found (n ∷ names) flags = elim (find_flag-Found n flags) [
  | inl found ↦ inl (rw found.0 refl, (n, inl refl, found.1))
  | inr absent ↦ elim (hasflag-Found names flags) [
    | inl later ↦
        let (s, named, set) = later.1 in inl (rw (absent.0, later.0) refl, (s, inr named, set))
    | inr missing ↦ inr (
      rw (absent.0, missing.0) refl,
      λ (s, named, set). elim named [
        | inl e ↦ absent.1 (IsFlag-same n s flags (sym e) set)
        | inr k ↦ missing.1 (s, k, set)
      ],
    )
  ]
]

-- From flags of which none is there twice: every flag named is there afterwards, every flag that
-- was there still is, no other is, and none is there twice.
pub addflag-adds :
    (names flags : List Text)
    → Distinct flags
    → (added : List Text) × (addflag (of_list names) (of_list flags) ≡ ok (of_list added))
      × ((s : Text) → IsFlag s added ↔ (IsFlag s flags ⊎ IsFlag s names))
      × Distinct added
unfolding addflag new_sl
addflag-adds [] flags d = (flags, refl, λ s. (inl, λ h. elim h [ inl k ↦ k | inr k ↦ absurd k ]), d)
addflag-adds (n ∷ names) flags d = elim (find_flag-Found n flags) [
  | inl found ↦
      let (added, run, members, distinct) = addflag-adds names flags d in
      (added, rw found.0 run, λ s. ground (arith, members s, IsFlag-same s n flags), distinct)
  | inr absent ↦
      let (added, run, members, distinct) = addflag-adds names (n ∷ flags) (absent.1, d) in
      (added, rw absent.0 run, λ s. ground (arith, members s), distinct)
]

free_sl_only-of_list :
    (t : Text) (flags : List Text) → free_sl_only (of_list (t ∷ flags)) ≡ ok freed
unfolding free_sl_only
free_sl_only-of_list t [] = refl
free_sl_only-of_list t (u ∷ flags) = rw (free_sl_only-of_list u flags) refl

unlike : (t s : Text) → ¬ SameFlag t s → same_name t s ≡ false
unlike t s other = elim (Bool-cases (same_name t s)) [
  | inl same ↦ absurd (other ((same_name_iff t s).0 same))
  | inr h ↦ h
]

-- After a flag is set where others are, the search for any other flag reads memory that was freed.
-- Where none is, the list is that flag alone, whatever flags are named behind it.
pub setflag-dangles :
    (n s t : Text) (names flags : List Text)
    → ¬ SameFlag n s
    → (setflag (of_list (n ∷ names)) (of_list (t ∷ flags)) >>= find_flag s ≡ fault use_after_free)
      × (setflag (of_list (n ∷ names)) null ≡ ok (of_list (n ∷ [])))
unfolding setflag find_flag new_sl
setflag-dangles n s t names flags other =
    (rw (free_sl_only-of_list t flags, unlike n s other) refl, unfold free_sl_only in refl)

-- The list without the flag.
unlink-unlinks :
    (s : Text) (flags : List Text)
    → Distinct flags
    → (left : List Text) × (unlink s (of_list flags) ≡ ok (of_list left))
      × ((u : Text) → IsFlag u left ↔ (IsFlag u flags × (¬ SameFlag s u)))
unfolding unlink
unlink-unlinks s [] d = ([], refl, λ u. ground arith)
unlink-unlinks s (t ∷ flags) d = elim (Bool-cases (same_name t s)) [
  | inl same ↦
      (flags, rw same refl, λ u. ground (arith, (same_name_iff t s).0 same, IsFlag-same t u flags))
  | inr other ↦
      let (left, run, members) = unlink-unlinks s flags d.1 in
      (t ∷ left, rw (other, run) refl, λ u. ground (arith, members u, other_flag t s other))
]

-- What it comes to to remove one flag: all are gone where it is the first one, and otherwise
-- it is gone and no other.
abbrev pub Removes : Text → Text → List Text → Run Stringlist → Type 0
Removes s t flags r =
    (SameFlag t s × (r ≡ ok null))
    ⊎ ((¬ SameFlag t s)
        × ((left : List Text) × (r ≡ ok (of_list left))
            × ((u : Text) → IsFlag u left ↔ (IsFlag u (t ∷ flags) × (¬ SameFlag s u)))))

-- From flags of which none is there twice, a flag that is not the first one is removed, and no
-- other; the first flag is removed together with all others.
pub removeflag-Removes :
    (s t : Text) (flags : List Text)
    → Distinct (t ∷ flags)
    → Removes s t flags (removeflag (of_list (s ∷ [])) (of_list (t ∷ flags)))
unfolding removeflag remove_flag
removeflag-Removes s t flags d = elim (Bool-cases (same_name t s)) [
  | inl same ↦ inl ((same_name_iff t s).0 same, rw (same, free_sl_only-of_list t flags) refl)
  | inr differs ↦
      let (left, run, members) = unlink-unlinks s flags d.1 in
      let other = other_flag t s differs in
      inr (other, (t ∷ left, rw (differs, run) refl, λ u. ground (arith, members u, other)))
]

-- A test of flags answers whether one of those it names is among those that are set. After a flag is
-- set where others are, the search for any other flag reads memory that was freed. Where none is, the
-- list is that flag alone, whatever flags are named behind it.
pub hasflag-Found-setflag :
    (n s t : Text) (names flags : List Text)
    → ¬ SameFlag n s
    → Found (hasflag (of_list names) (of_list flags)) ((u : Text) × IsFlag u names × IsFlag u flags)
      × (setflag (of_list (n ∷ names)) (of_list (t ∷ flags)) >>= find_flag s ≡ fault use_after_free)
      × (setflag (of_list (n ∷ names)) null ≡ ok (of_list (n ∷ [])))
hasflag-Found-setflag n s t names flags other =
    let (dangles, alone) = setflag-dangles n s t names flags other in
    (hasflag-Found names flags, dangles, alone)
