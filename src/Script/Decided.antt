-- ===== src/Script/Decided.antt =====
-- src/sv_interface/script.c: what the loops over the bodies and the patterns of a header come to,
-- where the comparator answers for each of the patterns.
use libsieve.Prelude.{
  ℕ, ◌+◌, Bool, true, false, ◌||◌, List, [], ◌∷◌, Option, none, some, Text, length, any, ◌≡◌, refl,
  ap, arith, Bool-cases, inl, inr, ◌∙◌,
}
use libsieve.Libc.{decimal}
use libsieve.Run.{ok, ◌>>=◌, bind_assoc}
use libsieve.Comparator.Octet.{Verdict, answer}
use libsieve.Comparator.Lookup.{
  relational_count, Comparator, regex_octet, unknown_casemap, unknown_numeric, Pattern, literal,
  compiled, suits, run_comparator,
}
use libsieve.Callbacks.Queries.{header_answer}
use libsieve.Outside.{Outside}
use libsieve.Script.Syntax.{Match}
use libsieve.Script.Matching.{
  run_of_verdict, compare_with, counts, compare_count, take_value, header_values, header_patterns,
  header_one,
}
use libsieve.Script.Meaning.{is_yes, matches, fits, fits_header, IsDecided, AreDecided}

add_zero : (n : ℕ) → n + 0 ≡ n
add_zero n = omega arith

run_of_verdict-answer :
    (v : Verdict) → (b : Bool) × (v ≡ answer b) → run_of_verdict v ≡ ok (is_yes v)
unfolding run_of_verdict
run_of_verdict-answer v (b, e) = rw e refl

-- A comparator that answers has read a pattern of its kind.
answer-suits :
    {R : Type 0} (regexec : R → Text → Bool) (comp : Comparator) (p : Pattern R) (v : Text)
    (b : Bool)
    → run_comparator regexec comp p v ≡ answer b
    → suits comp p ≡ true
unfolding run_comparator suits
answer-suits regexec regex_octet (literal pat) v b e = cc
answer-suits regexec regex_octet (compiled r) v b e = refl
answer-suits regexec _ (literal pat) v b e = refl
answer-suits regexec unknown_casemap (compiled r) v b e = refl
answer-suits regexec unknown_numeric (compiled r) v b e = refl
answer-suits regexec _ (compiled r) v b e = cc

module _ {R W : Type 0} (o : Outside R W) (m : Match R) where
  compare_with-IsDecided :
      (p : Pattern R) (v : Text)
      → IsDecided o m.comp p
      → compare_with o m p v ≡ ok (matches o m.comp v p)
  unfolding compare_with
  compare_with-IsDecided p v d =
      let (b, e) = d v in
      rw (answer-suits o.regexec m.comp p v b e)
        (run_of_verdict-answer (run_comparator o.regexec m.comp p v) (b, e))

  header_values-counted :
      (p : Pattern R) (vals : List Text) (n : ℕ)
      → counts o m ≡ true
      → header_values o m p vals false n ≡ ok (false, length vals + n)
  unfolding header_values take_value
  header_values-counted p [] n h = ap (λ k. ok (false, k)) (omega arith)
  header_values-counted p (v ∷ vals) n h =
      rw (h, header_values-counted p vals (n + 1) h) (ap (λ k. ok (false, k)) (omega arith))

  header_values-found :
      (p : Pattern R) (vals : List Text) (n : ℕ) → header_values o m p vals true n ≡ ok (true, n)
  unfolding header_values
  header_values-found p [] n = refl
  header_values-found p (v ∷ vals) n = refl

  header_values-compared :
      (p : Pattern R) (vals : List Text)
      → counts o m ≡ false
      → IsDecided o m.comp p
      → header_values o m p vals false 0 ≡ ok (any (λ v. matches o m.comp v p) vals, 0)
  unfolding header_values take_value
  header_values-compared p [] h d = refl
  header_values-compared p (v ∷ vals) h d = elim (Bool-cases (matches o m.comp v p)) [
    | inl hit ↦ rw (h, compare_with-IsDecided p v d, hit) (header_values-found p vals 0)
    | inr miss ↦ rw (h, compare_with-IsDecided p v d, miss) (header_values-compared p vals h d)
  ]

  -- A pattern, with all the bodies.
  pattern-fits :
      (p : Pattern R) (vals : List Text)
      → IsDecided o m.comp p
      → (header_values o m p vals false 0 >>= λ (found, count). compare_count o m p found count)
        ≡ ok (fits o m vals p)
  unfolding compare_count counts
  pattern-fits p vals d = elim (Bool-cases (relational_count o.tokens m.comptag)) [
    | inl hit ↦
        rw (header_values-counted p vals 0 hit, add_zero (length vals), hit)
          (ap (λ r. r >>= λ b. ok (false || b))
            (compare_with-IsDecided p (decimal (length vals)) d))
    | inr miss ↦ rw (header_values-compared p vals miss d, miss) refl
  ]

  header_patterns-found :
      (pl : List (Pattern R)) (vals : List Text) → header_patterns o m pl vals true ≡ ok true
  unfolding header_patterns
  header_patterns-found [] vals = refl
  header_patterns-found (p ∷ pl) vals = refl

  header_patterns-fits :
      (pl : List (Pattern R)) (vals : List Text)
      → AreDecided o m.comp pl
      → header_patterns o m pl vals false ≡ ok (any (fits o m vals) pl)
  unfolding header_patterns
  header_patterns-fits [] vals d = refl
  header_patterns-fits (p ∷ pl) vals d =
      bind_assoc (header_values o m p vals false 0) _ (λ b. header_patterns o m pl vals b)
      ∙ (ap (λ r. r >>= λ b. header_patterns o m pl vals b) (pattern-fits p vals d.0)
          ∙ elim (Bool-cases (fits o m vals p)) [
            | inl hit ↦ rw hit (header_patterns-found pl vals)
            | inr miss ↦ rw miss (header_patterns-fits pl vals d.1)
          ])

  -- The answer to the question for a header, with the patterns.
  pub header_one-fits :
      (bodies : Option (List Text))
      → AreDecided o m.comp m.pl
      → header_one o m (header_answer bodies) ≡ ok (fits_header o m bodies)
  unfolding header_one header_answer
  header_one-fits none d = refl
  header_one-fits (some []) d = refl
  header_one-fits (some (v ∷ vals)) d = header_patterns-fits m.pl (v ∷ vals) d
