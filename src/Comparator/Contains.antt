-- ===== src/Comparator/Contains.antt =====
-- src/sv_parser/comparator.c, `ascii_casemap_contains`: its two indices find every occurrence.
use libsieve.Prelude.{
  ℕ, zero, suc, ◌+◌, ◌-◌, ◌*◌, ◌≤◌, ◌<◌, Bool, true, false, ◌&&◌, ◌||◌, some, [], ◌∷◌, ◌++◌, map,
  Text, length, drop, get_or, ltb, ◌==◌, ==_iff, ◌≡◌, ◌↔◌, inl, inr, refl, sym, ◌∙◌, ap, ltb→lt,
  ap₂, arith, Bool-cases, and_true, or_true, head-eq_of_cons-eq, tail-eq_of_cons-eq,
}
use libsieve.Libc.{toupper}
use libsieve.Comparator.Casemap.{contains_loop, ascii_casemap_contains}

-- Whether the text begins with the pattern, and whether it does so from some place on.
begins : Text → Text → Bool
begins [] text = true
begins (c ∷ pat) [] = false
begins (c ∷ pat) (x ∷ text) = toupper x == toupper c && begins pat text

occurs : Text → Text → Bool
occurs pat [] = begins pat []
occurs pat (x ∷ text) = begins pat (x ∷ text) || occurs pat text

begins-short : (pat text : Text) → length text < length pat → begins pat text ≡ false
unfolding begins
begins-short [] text h = absurd (omega arith)
begins-short (c ∷ pat) [] h = refl
begins-short (c ∷ pat) (x ∷ text) h = ground (arith, begins-short pat text)

occurs-short : (pat text : Text) → length text < length pat → occurs pat text ≡ false
unfolding occurs
occurs-short pat [] h = begins-short pat [] h
occurs-short pat (x ∷ text) h = ground (arith, begins-short pat (x ∷ text), occurs-short pat text)

drop-lt : (i : ℕ) (xs : Text) → i < length xs → drop i xs ≡ get_or xs i 0 ∷ drop (suc i) xs
drop-lt zero [] h = absurd (omega arith)
drop-lt zero (x ∷ xs) h = refl
drop-lt (suc i) [] h = absurd (omega arith)
drop-lt (suc i) (x ∷ xs) h = drop-lt i xs (omega arith)

drop-ge : (i : ℕ) (xs : Text) → length xs ≤ i → drop i xs ≡ []
drop-ge zero [] h = refl
drop-ge zero (x ∷ xs) h = absurd (omega arith)
drop-ge (suc i) [] h = refl
drop-ge (suc i) (x ∷ xs) h = drop-ge i xs (omega arith)

length-drop : (i : ℕ) (xs : Text) → length (drop i xs) ≡ length xs - i
length-drop zero xs = omega arith
length-drop (suc i) [] = omega arith
length-drop (suc i) (x ∷ xs) = omega (arith, length-drop i xs)

-- The text behind the first character.
abbrev rest : Text → Text
rest [] = []
rest (x ∷ xs) = xs

drop-suc : (i : ℕ) (xs : Text) → drop (suc i) xs ≡ rest (drop i xs)
drop-suc zero [] = refl
drop-suc zero (x ∷ xs) = refl
drop-suc (suc i) [] = refl
drop-suc (suc i) (x ∷ xs) = drop-suc i xs

occurs-rest : (pat xs : Text) → begins pat xs || occurs pat (rest xs) ≡ occurs pat xs
unfolding occurs
occurs-rest pat [] = ground arith
occurs-rest pat (x ∷ xs) = refl

suc-add : (s j : ℕ) → s + (j + 1) ≡ suc (s + j)
suc-add s j = omega arith

add-one : (j : ℕ) → j + 1 ≡ suc j
add-one j = omega arith

add-zero : (j : ℕ) → j + 0 ≡ j
add-zero j = omega arith

fuel_miss :
    (d m j f : ℕ) → 0 < d → j < m → d * (m + 1) + (m - j) < suc f → (d - 1) * (m + 1) + (m - 0) < f
fuel_miss zero m j f pd hj h = absurd (omega arith)
fuel_miss (suc d) m j f pd hj h = let e : suc d - 1 ≡ d = omega arith in rw e (omega arith)

next_hit : (s j : ℕ) → s + j + 1 ≡ s + (j + 1)
next_hit s j = omega arith

next_miss : (s j : ℕ) → s + j - j + 1 ≡ suc s + 0
next_miss s j = omega arith

module _ (pat text : Text) where
  -- The answer of the loop once `j` characters match from the start `s` on.
  abbrev pending : ℕ → ℕ → Bool
  pending s j = begins (drop j pat) (drop (s + j) text) || occurs pat (drop (suc s) text)

  -- A fresh start at `s` asks for an occurrence from there on.
  pending-zero : (s : ℕ) → pending s 0 ≡ occurs pat (drop s text)
  pending-zero s = rw (add-zero s, drop-suc s text) (occurs-rest pat (drop s text))

  pending-hit :
      (s j : ℕ)
      → j < length pat
      → s + j < length text
      → (toupper (get_or text (s + j) 0) == toupper (get_or pat j 0)) ≡ true
      → pending s (j + 1) ≡ pending s j
  unfolding begins
  pending-hit s j hj hi e =
      rw (suc-add s j, add-one j, drop-lt j pat hj, drop-lt (s + j) text hi, e)

  pending-miss :
      (s j : ℕ)
      → j < length pat
      → s + j < length text
      → (toupper (get_or text (s + j) 0) == toupper (get_or pat j 0)) ≡ false
      → occurs pat (drop (suc s) text) ≡ pending s j
  unfolding begins
  pending-miss s j hj hi e = rw (drop-lt j pat hj, drop-lt (s + j) text hi, e)

  pending-end : (s j : ℕ) → length text ≤ s + j → j < length pat → pending s j ≡ false
  unfolding begins
  pending-end s j hi hj =
      rw (drop-ge (s + j) text hi, drop-lt j pat hj)
        (occurs-short pat (drop (suc s) text) (omega (arith, length-drop (suc s) text)))

  pending-done : (s j : ℕ) → length pat ≤ j → pending s j ≡ true
  unfolding begins
  pending-done s j h = rw (drop-ge j pat h)

  -- From the start `s`, with `d` starts left behind it, the loop finds what is there.
  contains_loop-pending :
      (f s j d : ℕ)
      → s + d ≡ length text
      → s + j ≤ length text
      → j ≤ length pat
      → d * (length pat + 1) + (length pat - j) < f
      → contains_loop f pat text (s + j) j ≡ some (pending s j)
  unfolding contains_loop
  contains_loop-pending zero s j d hd hi hj h = absurd (omega arith)
  contains_loop-pending (suc f) s j d hd hi hj h = elim (Bool-cases (ltb j (length pat))) [
    | inr out ↦
        rw out (
          ap some
            ((==_iff j (length pat)).1 (ground arith) ∙ sym (pending-done s j (ground arith))))
    | inl in_pat ↦ elim (Bool-cases (ltb (s + j) (length text))) [
      | inr out ↦ rw (in_pat, out) (ap some (ground (arith, pending-end s j)))
      | inl in_text ↦
          let hp : j < length pat = ltb→lt j (length pat) in_pat in
          let ht : s + j < length text = ltb→lt (s + j) (length text) in_text in
          elim (Bool-cases (toupper (get_or text (s + j) 0) == toupper (get_or pat j 0))) [
            | inl e ↦
                rw (in_pat, in_text, e)
                  ((rw (next_hit s j) (
                      contains_loop-pending f s (j + 1) d hd (omega arith) (omega arith)
                        (omega arith)))
                    ∙ ap some (pending-hit s j hp ht e))
            | inr e ↦
                rw (in_pat, in_text, e)
                  ((rw (next_miss s j) (
                      contains_loop-pending f (suc s) 0 (d - 1) (omega arith) (omega arith)
                        (omega arith) (fuel_miss d (length pat) j f (omega arith) hp h)))
                    ∙ ap some (pending-zero (suc s) ∙ pending-miss s j hp ht e))
          ]
    ]
  ]

-- Some part of the text has the pattern's characters, case aside.
abbrev pub FoundIn : Text → Text → Type 0
FoundIn pat text =
    (before part after : Text) × (text ≡ before ++ (part ++ after))
    × (map toupper part ≡ map toupper pat)

abbrev Begins : Text → Text → Type 0
Begins pat text =
    (part after : Text) × (text ≡ part ++ after) × (map toupper part ≡ map toupper pat)

begins→Begins : (pat text : Text) → begins pat text ≡ true → Begins pat text
unfolding begins
begins→Begins [] text h = ([], text, refl, refl)
begins→Begins (c ∷ pat) [] h = cc
begins→Begins (c ∷ pat) (x ∷ text) h =
    let (e, later) = and_true (toupper x == toupper c) (begins pat text) h in
    let (part, after, split, same) = begins→Begins pat text later in
    (x ∷ part, after, ap (λ u. x ∷ u) split, ap₂ ◌∷◌ ((==_iff _ _).0 e) same)

begins-append :
    (pat part after : Text) → map toupper part ≡ map toupper pat → begins pat (part ++ after) ≡ true
unfolding begins
begins-append [] part after h = refl
begins-append (c ∷ pat) [] after h = cc
begins-append (c ∷ pat) (x ∷ part) after h =
    rw ((==_iff (toupper x) (toupper c)).1 (head-eq_of_cons-eq h))
      (begins-append pat part after (tail-eq_of_cons-eq h))

occurs→FoundIn : (pat text : Text) → occurs pat text ≡ true → FoundIn pat text
unfolding occurs
occurs→FoundIn pat [] h =
    let (part, after, split, same) = begins→Begins pat [] h in ([], part, after, split, same)
occurs→FoundIn pat (x ∷ text) h = elim (or_true _ _ h) [
  | inl now ↦
      let (part, after, split, same) = begins→Begins pat (x ∷ text) now in
      ([], part, after, split, same)
  | inr later ↦
      let (before, part, after, split, same) = occurs→FoundIn pat text later in
      (x ∷ before, part, after, ap (λ u. x ∷ u) split, same)
]

begins→occurs : (pat text : Text) → begins pat text ≡ true → occurs pat text ≡ true
unfolding occurs
begins→occurs pat [] h = h
begins→occurs pat (x ∷ text) h = rw h

occurs-append :
    (pat before part after : Text)
    → map toupper part ≡ map toupper pat
    → occurs pat (before ++ (part ++ after)) ≡ true
unfolding occurs
occurs-append pat [] part after h =
    begins→occurs pat (part ++ after) (begins-append pat part after h)
occurs-append pat (x ∷ before) part after h =
    rw (occurs-append pat before part after h) (ground arith)

-- The loop ends within its fuel with an answer, which is true exactly if some part of the text
-- equals the pattern once both are in upper case.
pub ascii_casemap_contains-FoundIn :
    (pat text : Text)
    → (found : Bool) × (ascii_casemap_contains pat text ≡ some found)
      × ((found ≡ true) ↔ FoundIn pat text)
unfolding ascii_casemap_contains
ascii_casemap_contains-FoundIn pat text = (
  occurs pat text,
  contains_loop-pending pat text _ 0 0 (length text) (omega arith) (omega arith) (omega arith)
        (omega arith)
      ∙ ap some (pending-zero pat text 0),
  (
    occurs→FoundIn pat text,
    λ (before, part, after, split, same). rw split (occurs-append pat before part after same),
  ),
)
