-- ===== src/Comparator/Matching.antt =====
-- src/sv_parser/comparator.c, `octet_matches_`: what its search decides.
use libsieve.Prelude.{
  ℕ, zero, suc, ◌≤◌, ◌<◌, Bool, true, false, Option, none, some, [], ◌∷◌, Text, length, ◌≡◌, ◌≢◌,
  ◌↔◌, inl, inr, arith, Bool-cases,
}
use libsieve.Comparator.Octet.{
  question, star, backslash, plain, kind, same_char, Verdict, answer, overrun, out_of_fuel,
  skip_wildcards, question_case, literal_case, try_suffixes, star_case, is_end, matches_loop,
  octet_matches_, Kind-cases,
}
use libsieve.Comparator.Glob.{
  Glob, end, any_one, star_none, star_more, itself, Glob-nil, question_inv, plain_inv, star_inv,
  star_nil_inv, star_all, restar, two_stars, star_question, star_question_inv,
}

-- The run ended with an answer, and the answer is right about `G`.
abbrev pub Decides : Type 0 → Verdict → Type 0
Decides G (answer true) = G
Decides G (answer false) = ¬ G
Decides G overrun = ⊥
Decides G out_of_fuel = ⊥

-- No backslash in the pattern.
abbrev pub HasNoEscape : Text → Type 0
HasNoEscape [] = Unit
HasNoEscape (c ∷ p) = (kind c ≢ backslash) × HasNoEscape p

pub Decides-of_iff : {G H : Type 0} (v : Verdict) → G ↔ H → Decides G v → Decides H v
Decides-of_iff (answer true) e g = e.0 g
Decides-of_iff (answer false) e n = λ h. n (e.1 h)
Decides-of_iff overrun e h = h
Decides-of_iff out_of_fuel e h = h

module _ (casemap : Bool) (c : ℕ) (p : Text) (next : Text → Verdict) where
  question_case-Decides :
      kind c ≡ question
      → ((t : Text) → Decides (Glob casemap p t) (next t))
      → (t : Text) → Decides (Glob casemap (c ∷ p) t) (question_case next t)
  unfolding question_case
  question_case-Decides q h [] = Glob-nil (λ k. cc)
  question_case-Decides q h (x ∷ t) = Decides-of_iff (next t) (any_one q, question_inv q) (h t)

  differs : {b : Bool} → b ≡ false → b ≡ true → ⊥
  differs n y = cc

  literal_case-Decides :
      kind c ≡ plain
      → ((t : Text) → Decides (Glob casemap p t) (next t))
      → (t : Text) → Decides (Glob casemap (c ∷ p) t) (literal_case casemap c next t)
  unfolding literal_case
  literal_case-Decides m h [] = Glob-nil (λ k. cc)
  literal_case-Decides m h (x ∷ t) = elim (Bool-cases (same_char casemap c x)) [
    | inl e ↦ rw e (Decides-of_iff (next t) (itself m e, λ g. (plain_inv m g).1) (h t))
    | inr e ↦ rw e (λ g. differs e (plain_inv m g).0)
  ]

-- Where the wildcards that follow a star are merged, a plain character comes next, if any.
abbrev StartsPlain : Text → Type 0
StartsPlain [] = Unit
StartsPlain (c ∷ p) = kind c ≡ plain

module _ (casemap : Bool) (s : ℕ) (ks : kind s ≡ star) (n : ℕ) where
  -- What `skip_wildcards` leaves of the pattern `p` behind a star and of the text `t`.
  abbrev Skipped : Text → Text → Option (Text × Text) → Type 0
  Skipped p t none = ¬ Glob casemap (s ∷ p) t
  Skipped p t (some (p', t')) =
      (Glob casemap (s ∷ p') t' ↔ Glob casemap (s ∷ p) t)
      × (length p' ≤ n)
      × HasNoEscape p'
      × StartsPlain p'

  Skipped-of_iff :
      {p q t u : Text} (r : Option (Text × Text))
      → Glob casemap (s ∷ p) t ↔ Glob casemap (s ∷ q) u
      → Skipped p t r
      → Skipped q u r
  Skipped-of_iff none e h = λ g. h (e.1 g)
  Skipped-of_iff (some (p', t')) e (i, l, w, b) = ((λ g. e.0 (i.0 g), λ g. i.1 (e.1 g)), l, w, b)

  on_star :
      (c : ℕ) (p t : Text)
      → kind c ≡ star
      → Skipped p t (skip_wildcards p t)
      → Skipped (c ∷ p) t (skip_wildcards p t)
  on_star c p t k =
      Skipped-of_iff (skip_wildcards p t) (λ g. star_none ks (restar k ks g), two_stars ks k)

  on_first :
      (c : ℕ) (p : Text) (x : ℕ) (t : Text) (first later : Verdict)
      → Decides (Glob casemap (c ∷ p) (x ∷ t)) first
      → Decides (Glob casemap (s ∷ c ∷ p) t) later
      → Decides (Glob casemap (s ∷ c ∷ p) (x ∷ t)) (elim first [
        | answer b ↦ elim b [ true ↦ answer true | false ↦ later ]
        | overrun ↦ overrun
        | out_of_fuel ↦ out_of_fuel
      ])
  on_first c p x t (answer true) later d l = star_none ks d
  on_first c p x t (answer false) later d l =
      Decides-of_iff later
        (star_more ks, λ g. elim (star_inv ks g) [ inl now ↦ absurd (d now) | inr g' ↦ g' ]) l
  on_first c p x t overrun later d l = d
  on_first c p x t out_of_fuel later d l = d

  skip_wildcards-Skipped :
      (p t : Text) → length p ≤ n → HasNoEscape p → Skipped p t (skip_wildcards p t)
  unfolding skip_wildcards
  skip_wildcards-Skipped [] t l w = ((λ g. g, λ g. g), l, tt, tt)
  skip_wildcards-Skipped (c ∷ p) [] l (wc, w) = elim (Kind-cases (kind c)) [
    | inl q ↦ rw (q, Skipped, skip_wildcards) (λ g. Glob-nil (λ k. cc) (star_nil_inv g))
    | inr (inl k) ↦
        rw (k, Skipped, skip_wildcards)
          (on_star c p [] k (skip_wildcards-Skipped p [] (omega arith) w))
    | inr (inr (inl b)) ↦ absurd (wc b)
    | inr (inr (inr m)) ↦ rw (m, Skipped, skip_wildcards) ((λ g. g, λ g. g), l, (wc, w), m)
  ]
  skip_wildcards-Skipped (c ∷ p) (x ∷ t) l (wc, w) = elim (Kind-cases (kind c)) [
    | inl q ↦
        rw (q, Skipped, skip_wildcards)
          (Skipped-of_iff (skip_wildcards p t) (star_question ks q, star_question_inv t ks q)
            (skip_wildcards-Skipped p t (omega arith) w))
    | inr (inl k) ↦
        rw (k, Skipped, skip_wildcards)
          (on_star c p (x ∷ t) k (skip_wildcards-Skipped p (x ∷ t) (omega arith) w))
    | inr (inr (inl b)) ↦ absurd (wc b)
    | inr (inr (inr m)) ↦ rw (m, Skipped, skip_wildcards) ((λ g. g, λ g. g), l, (wc, w), m)
  ]

  -- Trying every suffix decides the pattern behind the star.
  try_suffixes-Decides :
      (c : ℕ) (p : Text) (test : Text → Verdict)
      → kind c ≡ plain
      → ((t : Text) → Decides (Glob casemap (c ∷ p) t) (test t))
      → (t : Text) → Decides (Glob casemap (s ∷ c ∷ p) t) (try_suffixes test t)
  unfolding try_suffixes
  try_suffixes-Decides c p test m h [] = λ g. Glob-nil (λ k. cc) (star_nil_inv g)
  try_suffixes-Decides c p test m h (x ∷ t) =
      on_first c p x t (test (x ∷ t)) (try_suffixes test t) (h (x ∷ t))
        (try_suffixes-Decides c p test m h t)

  star_case-Decides :
      (p : Text) (run : Text → Text → Verdict)
      → ((q t : Text) → length q ≤ n → HasNoEscape q → Decides (Glob casemap q t) (run q t))
      → (t : Text) (r : Option (Text × Text)) → Skipped p t r
      → Decides (Glob casemap (s ∷ p) t) (star_case run r)
  unfolding star_case
  star_case-Decides p run h t none no_text = no_text
  star_case-Decides p run h t (some ([], u)) (e, _, _, _) = e.0 (star_all u ks)
  star_case-Decides p run h t (some (c ∷ q, u)) (e, l, w, m) =
      Decides-of_iff (try_suffixes (run (c ∷ q)) u) e
        (try_suffixes-Decides c q (run (c ∷ q)) m (λ v. h (c ∷ q) v l w) u)

is_end-Decides : (casemap : Bool) (t : Text) → Decides (Glob casemap [] t) (answer (is_end t))
unfolding is_end
is_end-Decides casemap [] = end
is_end-Decides casemap (x ∷ t) = λ g. elim g [ ]

-- Fuel above the pattern's length is enough, and the answer is right.
matches_loop-Decides :
    (f : ℕ) (casemap : Bool) (p t : Text)
    → length p < f
    → HasNoEscape p
    → Decides (Glob casemap p t) (matches_loop f casemap p t)
unfolding matches_loop
matches_loop-Decides zero casemap p t h w = absurd (omega arith)
matches_loop-Decides (suc f) casemap [] t h w = is_end-Decides casemap t
matches_loop-Decides (suc f) casemap (c ∷ p) t h (wc, w) = elim (Kind-cases (kind c)) [
  | inl q ↦
      rw (q, Decides, matches_loop)
        (question_case-Decides casemap c p (matches_loop f casemap p) q
          (λ u. matches_loop-Decides f casemap p u (omega arith) w) t)
  | inr (inl k) ↦
      rw (k, Decides, matches_loop)
        (star_case-Decides casemap c k (length p) p (matches_loop f casemap)
          (λ q u l v. matches_loop-Decides f casemap q u (omega arith) v) t (skip_wildcards p t)
          (skip_wildcards-Skipped casemap c k (length p) p t (omega arith) w))
  | inr (inr (inl b)) ↦ absurd (wc b)
  | inr (inr (inr m)) ↦
      rw (m, Decides, matches_loop)
        (literal_case-Decides casemap c p (matches_loop f casemap p) m
          (λ u. matches_loop-Decides f casemap p u (omega arith) w) t)
]

pub octet_matches_-Decides :
    (casemap : Bool) (pat text : Text)
    → HasNoEscape pat
    → Decides (Glob casemap pat text) (octet_matches_ casemap pat text)
unfolding octet_matches_
octet_matches_-Decides casemap pat text w =
    matches_loop-Decides (suc (length pat)) casemap pat text (omega arith) w
