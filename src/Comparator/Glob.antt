-- ===== src/Comparator/Glob.antt =====
-- What the wildcards of a `:matches` pattern mean, with no search order in it.
use libsieve.Prelude.{ℕ, Bool, true, [], ◌∷◌, Text, ◌≡◌, ◌≢◌, ◌⊎◌, inl, inr}
use libsieve.Comparator.Octet.{question, star, plain, kind, same_char}

-- A star stands for any text, a question mark for one character, and any other character for
-- itself, up to case if `casemap` is set.
pub data Glob (casemap : Bool) : Text → Text → Type 0 where
  end : Glob casemap [] []
  any_one :
      {c x : ℕ} {p t : Text} → kind c ≡ question → Glob casemap p t → Glob casemap (c ∷ p) (x ∷ t)
  star_none : {c : ℕ} {p t : Text} → kind c ≡ star → Glob casemap p t → Glob casemap (c ∷ p) t
  star_more :
      {c x : ℕ} {p t : Text} → kind c ≡ star → Glob casemap (c ∷ p) t → Glob casemap (c ∷ p) (x ∷ t)
  itself :
      {c x : ℕ} {p t : Text}
      → kind c ≡ plain
      → same_char casemap c x ≡ true
      → Glob casemap p t
      → Glob casemap (c ∷ p) (x ∷ t)

module _ {casemap : Bool} {c : ℕ} {p : Text} where
  -- A character other than a star takes one character of the text.
  pub Glob-nil : kind c ≢ star → ¬ Glob casemap (c ∷ p) []
  Glob-nil n (star_none k d) = n k

  pub question_inv :
      {x : ℕ} {t : Text} → kind c ≡ question → Glob casemap (c ∷ p) (x ∷ t) → Glob casemap p t
  question_inv k (any_one _ d) = d
  question_inv k (star_none e d) = cc
  question_inv k (star_more e d) = cc
  question_inv k (itself e _ d) = cc

  pub plain_inv :
      {x : ℕ} {t : Text}
      → kind c ≡ plain
      → Glob casemap (c ∷ p) (x ∷ t)
      → (same_char casemap c x ≡ true) × Glob casemap p t
  plain_inv k (any_one e d) = cc
  plain_inv k (star_none e d) = cc
  plain_inv k (star_more e d) = cc
  plain_inv k (itself _ s d) = (s, d)

  pub star_inv :
      {x : ℕ} {t : Text}
      → kind c ≡ star
      → Glob casemap (c ∷ p) (x ∷ t)
      → Glob casemap p (x ∷ t) ⊎ Glob casemap (c ∷ p) t
  star_inv k (any_one e d) = cc
  star_inv k (star_none _ d) = inl d
  star_inv k (star_more _ d) = inr d
  star_inv k (itself e _ d) = cc

  pub star_nil_inv : Glob casemap (c ∷ p) [] → Glob casemap p []
  star_nil_inv (star_none _ d) = d

-- A star at the end of the pattern matches whatever is left.
pub star_all : {casemap : Bool} {c : ℕ} (t : Text) → kind c ≡ star → Glob casemap (c ∷ []) t
star_all [] k = star_none k end
star_all (x ∷ t) k = star_more k (star_all t k)

-- Any star will do.
pub restar :
    {casemap : Bool} {c d : ℕ} {p t : Text}
    → kind c ≡ star
    → kind d ≡ star
    → Glob casemap (d ∷ p) t
    → Glob casemap (c ∷ p) t
restar kc kd (any_one e g) = cc
restar kc kd (star_none _ g) = star_none kc g
restar kc kd (star_more _ g) = star_more kc (restar kc kd g)
restar kc kd (itself e _ g) = cc

-- Two stars are one.
pub two_stars :
    {casemap : Bool} {c d : ℕ} {p t : Text}
    → kind c ≡ star
    → kind d ≡ star
    → Glob casemap (c ∷ d ∷ p) t
    → Glob casemap (c ∷ p) t
two_stars kc kd (any_one e g) = cc
two_stars kc kd (star_none _ g) = restar kc kd g
two_stars kc kd (star_more _ g) = star_more kc (two_stars kc kd g)
two_stars kc kd (itself e _ g) = cc

-- A question mark behind a star takes the first character, and the star the rest.
pub star_question :
    {casemap : Bool} {c d x : ℕ} {p t : Text}
    → kind c ≡ star
    → kind d ≡ question
    → Glob casemap (c ∷ p) t
    → Glob casemap (c ∷ d ∷ p) (x ∷ t)
star_question kc kd (any_one e g) = cc
star_question kc kd (star_none _ g) = star_none kc (any_one kd g)
star_question kc kd (star_more _ g) = star_more kc (star_question kc kd g)
star_question kc kd (itself e _ g) = cc

-- The converse, by recursion on the text.
pub star_question_inv :
    {casemap : Bool} {c d x : ℕ} {p : Text} (t : Text)
    → kind c ≡ star
    → kind d ≡ question
    → Glob casemap (c ∷ d ∷ p) (x ∷ t)
    → Glob casemap (c ∷ p) t
star_question_inv [] kc kd g = elim (star_inv kc g) [
  | inl now ↦ star_none kc (question_inv kd now)
  | inr later ↦ absurd (Glob-nil (λ k. cc) (star_nil_inv later))
]
star_question_inv (y ∷ u) kc kd g = elim (star_inv kc g) [
  | inl now ↦ star_none kc (question_inv kd now)
  | inr later ↦ star_more kc (star_question_inv u kc kd later)
]
