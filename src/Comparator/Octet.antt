-- ===== src/Comparator/Octet.antt =====
-- src/sv_parser/comparator.c: the comparators of `i;octet`, and the wildcard matcher that
-- `i;ascii-casemap` shares. The `context` argument serves only to trace.
use libsieve.Prelude.{
  ℕ, zero, suc, Bool, true, false, Option, none, some, [], ◌∷◌, Text, length, ◌==◌, if◌then◌else◌,
  ◌≡◌, ◌⊎◌, inl, inr, refl,
}
use libsieve.Libc.{toupper, same_text, strstr}

unfoldable pub octet_is : Text → Text → Bool
unfolding same_text
octet_is pat text = same_text pat text

unfoldable pub octet_contains : Text → Text → Bool
unfolding strstr
octet_contains pat text = strstr text pat

-- The cases of `switch (c)` in `octet_matches_`.
pub data Kind : Type 0 where
  question star backslash plain : Kind

unfoldable pub kind : ℕ → Kind
kind c =
    if c == b'?' then question else if c == b'*' then star else if c == 92 then backslash else plain

-- What a run of the matcher comes to. `overrun` is a read behind the NUL of the pattern;
-- `out_of_fuel` belongs to the model only.
pub data Verdict : Type 0 where
  answer : Bool → Verdict
  overrun : Verdict
  out_of_fuel : Verdict

unfoldable pub same_char : Bool → ℕ → ℕ → Bool
unfolding toupper
same_char casemap c x = if casemap then toupper c == toupper x else c == x

-- The loop that merges a run of wildcards into one: `none` where a question mark finds no text.
unfoldable pub skip_wildcards : Text → Text → Option (Text × Text)
skip_wildcards [] t = some ([], t)
skip_wildcards (c ∷ p) t = elim (kind c) [
  | star ↦ skip_wildcards p t
  | question ↦ elim t [ [] ↦ none | x ∷ t' ↦ skip_wildcards p t' ]
  | _ ↦ some (c ∷ p, t)
]

unfoldable pub question_case : (Text → Verdict) → Text → Verdict
question_case next [] = answer false
question_case next (x ∷ t) = next t

-- A pattern character is not NUL, so it differs from the NUL at the end of the text.
unfoldable pub literal_case : Bool → ℕ → (Text → Verdict) → Text → Verdict
literal_case casemap c next [] = answer false
literal_case casemap c next (x ∷ t) = if same_char casemap c x then next t else answer false

-- `case '\\': p++`: the pointer steps over one more character, or over the NUL.
unfoldable pub after_escape : (Text → Text → Verdict) → Text → Text → Verdict
after_escape run [] t = overrun
after_escape run (_ ∷ p) t = run p t

-- `while (*t != '\0')`. Where it ends the code falls into the next case and compares the star
-- with the NUL that `t` points to, which differ.
unfoldable pub try_suffixes : (Text → Verdict) → Text → Verdict
try_suffixes test [] = answer false
try_suffixes test (x ∷ t) = elim (test (x ∷ t)) [
  | answer b ↦ elim b [ true ↦ answer true | false ↦ try_suffixes test t ]
  | overrun ↦ overrun
  | out_of_fuel ↦ out_of_fuel
]

unfoldable pub star_case : (Text → Text → Verdict) → Option (Text × Text) → Verdict
unfolding try_suffixes
star_case run none = answer false
star_case run (some ([], t)) = answer true
star_case run (some (c ∷ p, t)) = try_suffixes (run (c ∷ p)) t

unfoldable pub is_end : Text → Bool
is_end [] = true
is_end (x ∷ t) = false

-- The loop, each round of which takes a character from the pattern. Fuel above the pattern's
-- length is enough.
unfoldable pub matches_loop : ℕ → Bool → Text → Text → Verdict
unfolding question_case literal_case after_escape star_case skip_wildcards is_end
matches_loop zero casemap p t = out_of_fuel
matches_loop (suc f) casemap [] t = answer (is_end t)
matches_loop (suc f) casemap (c ∷ p) t = elim (kind c) [
  | question ↦ question_case (matches_loop f casemap p) t
  | star ↦ star_case (matches_loop f casemap) (skip_wildcards p t)
  | backslash ↦ literal_case casemap c (after_escape (matches_loop f casemap) p) t
  | plain ↦ literal_case casemap c (matches_loop f casemap p) t
]

unfoldable pub octet_matches_ : Bool → Text → Text → Verdict
unfolding matches_loop kind same_char
octet_matches_ casemap pat text = matches_loop (suc (length pat)) casemap pat text

unfoldable pub octet_matches : Text → Text → Verdict
unfolding octet_matches_
octet_matches pat text = octet_matches_ false pat text

pub Kind-cases : (k : Kind) → (k ≡ question) ⊎ (k ≡ star) ⊎ (k ≡ backslash) ⊎ (k ≡ plain)
Kind-cases question = inl refl
Kind-cases star = inr (inl refl)
Kind-cases backslash = inr (inr (inl refl))
Kind-cases plain = inr (inr (inr refl))
