-- ===== src/Callbacks/Questions.antt =====
-- src/sv_interface/callbacks2.c: the questions to the client, by what the client gives for them.
use libsieve.Prelude.{ℕ, Option, none, some, List, [], ◌∷◌, Text, length, ℤ, negsuc, ◌≡◌}
use libsieve.Run.{sieve2_ok, sieve2_done, error_exec}
use libsieve.Context.State.{Context}

-- The answers to the three questions, from what the client gave.
abbrev pub AnswersHeader : Option (List Text) → ℕ × List Text → Type 0
AnswersHeader none (status, body) = (status ≡ sieve2_done) × (body ≡ [] ∷ [])
AnswersHeader (some []) (status, body) = (status ≡ sieve2_done) × (body ≡ [] ∷ [])
AnswersHeader (some (first ∷ more)) (status, body) = (status ≡ sieve2_ok) × (body ≡ first ∷ more)

abbrev pub AnswersSize : Option ℤ → ℕ × ℤ → Type 0
AnswersSize none (status, size) = (status ≡ sieve2_ok) × (size ≡ negsuc 0)
AnswersSize (some n) (status, size) = (status ≡ sieve2_ok) × (size ≡ n)

abbrev pub AnswersScript : Option Text → ℕ × (Option Text × ℕ) → Type 0
AnswersScript none (status, (script, len)) = (status ≡ error_exec) × (script ≡ none) × (len ≡ 0)
AnswersScript (some text) (status, (script, len)) =
    (status ≡ sieve2_ok) × (script ≡ some text) × (len ≡ length text)
