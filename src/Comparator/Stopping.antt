-- ===== src/Comparator/Stopping.antt =====
-- src/sv_parser/comparator.c, `octet_matches_`: how its search ends on any pattern.
use libsieve.Prelude.{
  ℕ, zero, suc, ◌≤◌, ◌<◌, Bool, true, false, Option, none, some, [], ◌∷◌, Text, length, ◌≡◌, refl,
  inl, inr, arith, Bool-cases,
}
use libsieve.Comparator.Octet.{
  kind, same_char, Verdict, answer, overrun, out_of_fuel, skip_wildcards, question_case,
  literal_case, after_escape, try_suffixes, star_case, matches_loop, octet_matches_, Kind-cases,
}
use libsieve.Comparator.Matching.{Decides, HasNoEscape, octet_matches_-Decides}
use libsieve.Comparator.Glob.{Glob}

-- The fuel did not run out.
abbrev Ends : Verdict → Type 0
Ends (answer b) = Unit
Ends overrun = Unit
Ends out_of_fuel = ⊥

-- The run ended in an answer, or behind the end of its pattern and not if `E` holds.
abbrev pub Stops : Type 0 → Verdict → Type 0
Stops E (answer b) = Unit
Stops E overrun = ¬ E
Stops E out_of_fuel = ⊥

pub Stops-answer : (E : Type 0) (v : Verdict) → Stops E v → E → (b : Bool) × (v ≡ answer b)
Stops-answer E (answer b) h e = (b, refl)
Stops-answer E overrun h e = absurd (h e)
Stops-answer E out_of_fuel h e = absurd h

abbrev IsWithin : ℕ → Option (Text × Text) → Type 0
IsWithin n none = Unit
IsWithin n (some (p, t)) = length p ≤ n

skip_wildcards-IsWithin : (n : ℕ) (p t : Text) → length p ≤ n → IsWithin n (skip_wildcards p t)
unfolding skip_wildcards
skip_wildcards-IsWithin n [] t l = l
skip_wildcards-IsWithin n (c ∷ p) [] l = elim (Kind-cases (kind c)) [
  | inl q ↦ rw (q, IsWithin, skip_wildcards) tt
  | inr (inl k) ↦ rw (k, IsWithin, skip_wildcards) (skip_wildcards-IsWithin n p [] (omega arith))
  | inr (inr (inl b)) ↦ rw (b, IsWithin, skip_wildcards) l
  | inr (inr (inr m)) ↦ rw (m, IsWithin, skip_wildcards) l
]
skip_wildcards-IsWithin n (c ∷ p) (x ∷ t) l = elim (Kind-cases (kind c)) [
  | inl q ↦ rw (q, IsWithin, skip_wildcards) (skip_wildcards-IsWithin n p t (omega arith))
  | inr (inl k) ↦
      rw (k, IsWithin, skip_wildcards) (skip_wildcards-IsWithin n p (x ∷ t) (omega arith))
  | inr (inr (inl b)) ↦ rw (b, IsWithin, skip_wildcards) l
  | inr (inr (inr m)) ↦ rw (m, IsWithin, skip_wildcards) l
]

question_case-Ends :
    (next : Text → Verdict)
    → ((t : Text) → Ends (next t))
    → (t : Text) → Ends (question_case next t)
unfolding question_case
question_case-Ends next h [] = tt
question_case-Ends next h (x ∷ t) = h t

literal_case-Ends :
    (casemap : Bool) (c : ℕ) (next : Text → Verdict)
    → ((t : Text) → Ends (next t))
    → (t : Text) → Ends (literal_case casemap c next t)
unfolding literal_case
literal_case-Ends casemap c next h [] = tt
literal_case-Ends casemap c next h (x ∷ t) = elim (Bool-cases (same_char casemap c x)) [
  | inl e ↦ rw e (h t)
  | inr e ↦ rw e tt
]

tried-Ends :
    (first later : Verdict)
    → Ends first
    → Ends later
    → Ends (elim first [
      | answer b ↦ elim b [ true ↦ answer true | false ↦ later ]
      | overrun ↦ overrun
      | out_of_fuel ↦ out_of_fuel
    ])
tried-Ends (answer true) later h l = tt
tried-Ends (answer false) later h l = l
tried-Ends overrun later h l = tt
tried-Ends out_of_fuel later h l = h

try_suffixes-Ends :
    (test : Text → Verdict) → ((t : Text) → Ends (test t)) → (t : Text) → Ends (try_suffixes test t)
unfolding try_suffixes
try_suffixes-Ends test h [] = tt
try_suffixes-Ends test h (x ∷ t) =
    tried-Ends (test (x ∷ t)) (try_suffixes test t) (h (x ∷ t)) (try_suffixes-Ends test h t)

module _ (n : ℕ) (run : Text → Text → Verdict)
    (h : (p t : Text) → length p ≤ n → Ends (run p t)) where
  star_case-Ends : (r : Option (Text × Text)) → IsWithin n r → Ends (star_case run r)
  unfolding star_case
  star_case-Ends none l = tt
  star_case-Ends (some ([], t)) l = tt
  star_case-Ends (some (c ∷ p, t)) l = try_suffixes-Ends (run (c ∷ p)) (λ u. h (c ∷ p) u l) t

  after_escape-Ends : (p t : Text) → length p ≤ n → Ends (after_escape run p t)
  unfolding after_escape
  after_escape-Ends [] t l = tt
  after_escape-Ends (c ∷ p) t l = h p t (omega arith)

matches_loop-Ends :
    (f : ℕ) (casemap : Bool) (p t : Text) → length p < f → Ends (matches_loop f casemap p t)
unfolding matches_loop
matches_loop-Ends zero casemap p t h = absurd (omega arith)
matches_loop-Ends (suc f) casemap [] t h = tt
matches_loop-Ends (suc f) casemap (c ∷ p) t h =
    let run =
      λ (q u : Text) (l : length q ≤ length p). matches_loop-Ends f casemap q u (omega arith) in
    let next = λ (u : Text). run p u (omega arith) in
    elim (Kind-cases (kind c)) [
      | inl q ↦ rw (q, Ends, matches_loop) (question_case-Ends (matches_loop f casemap p) next t)
      | inr (inl k) ↦
          rw (k, Ends, matches_loop)
            (star_case-Ends (length p) (matches_loop f casemap) run (skip_wildcards p t)
              (skip_wildcards-IsWithin (length p) p t (omega arith)))
      | inr (inr (inl b)) ↦
          rw (b, Ends, matches_loop)
            (literal_case-Ends casemap c (after_escape (matches_loop f casemap) p)
              (λ u. after_escape-Ends (length p) (matches_loop f casemap) run p u (omega arith)) t)
      | inr (inr (inr m)) ↦
          rw (m, Ends, matches_loop) (literal_case-Ends casemap c (matches_loop f casemap p) next t)
    ]

Stops-of_Decides : (G E : Type 0) (v : Verdict) → Ends v → (E → Decides G v) → Stops E v
Stops-of_Decides G E (answer b) h d = tt
Stops-of_Decides G E overrun h d = λ w. d w
Stops-of_Decides G E out_of_fuel h d = h

pub octet_matches_-Stops :
    (casemap : Bool) (pat text : Text) → Stops (HasNoEscape pat) (octet_matches_ casemap pat text)
unfolding octet_matches_
octet_matches_-Stops casemap pat text =
    Stops-of_Decides (Glob casemap pat text) (HasNoEscape pat) (octet_matches_ casemap pat text)
      (matches_loop-Ends (suc (length pat)) casemap pat text (omega arith))
      (octet_matches_-Decides casemap pat text)
