-- ===== src/Comparator/Order.antt =====
-- src/sv_parser/comparator.c, `ascii_casemap`: the six relations are those of the lexicographic
-- order of the texts in lower case.
use libsieve.Prelude.{
  ℕ, ◌<◌, Bool, true, false, not, [], ◌∷◌, map, Text, ◌≡◌, ◌≢◌, ◌↔◌, ◌⊎◌, inl, inr, refl, sym,
  arith, ap₂, head-eq_of_cons-eq, tail-eq_of_cons-eq,
}
use Prim.Native.Nat.{compare, Ordering}
use libsieve.Libc.{tolower, strcasecmp, is_lt, is_eq, is_gt}
use libsieve.Comparator.Casemap.{Num, gt, ge, lt, le, eq, ne, unknown, ascii_casemap}

-- The order of a dictionary.
pub data LexLt : Text → Text → Type 0 where
  shorter : {y : ℕ} {ys : Text} → LexLt [] (y ∷ ys)
  first : {x y : ℕ} {xs ys : Text} → x < y → LexLt (x ∷ xs) (y ∷ ys)
  later : {x y : ℕ} {xs ys : Text} → x ≡ y → LexLt xs ys → LexLt (x ∷ xs) (y ∷ ys)

LexLt-irrefl : {p t : Text} → LexLt p t → p ≢ t
LexLt-irrefl shorter e = cc
LexLt-irrefl (first h) e = absurd (omega (arith, head-eq_of_cons-eq e))
LexLt-irrefl (later _ h) e = LexLt-irrefl h (tail-eq_of_cons-eq e)

LexLt-asymm : {p t : Text} → LexLt p t → LexLt t p → ⊥
LexLt-asymm shorter g = elim g [ ]
LexLt-asymm (first h) (first g) = absurd (omega arith)
LexLt-asymm (first h) (later e g) = absurd (omega arith)
LexLt-asymm (later e h) (first g) = absurd (omega arith)
LexLt-asymm (later e h) (later _ g) = LexLt-asymm h g

-- What the sign of `strcasecmp` says of the texts in lower case.
abbrev Sign : Ordering → Text → Text → Type 0
Sign Ordering.lt p t = LexLt p t
Sign Ordering.eq p t = p ≡ t
Sign Ordering.gt p t = LexLt t p

compare-cases :
    (x y : ℕ)
    → ((compare x y ≡ Ordering.lt) × (x < y))
      ⊎ ((compare x y ≡ Ordering.eq) × (x ≡ y))
      ⊎ ((compare x y ≡ Ordering.gt) × (y < x))
compare-cases x y = ground arith

later_Sign : (o : Ordering) (p t : Text) (x y : ℕ) → x ≡ y → Sign o p t → Sign o (x ∷ p) (y ∷ t)
later_Sign Ordering.lt p t x y e h = later e h
later_Sign Ordering.eq p t x y e h = ap₂ ◌∷◌ e h
later_Sign Ordering.gt p t x y e h = later (sym e) h

compare-step :
    (x y : ℕ) (o : Ordering) (p t : Text)
    → Sign o p t
    → Sign
        (elim (compare x y) [
          | Ordering.lt ↦ Ordering.lt
          | Ordering.eq ↦ o
          | Ordering.gt ↦ Ordering.gt
        ])
        (x ∷ p)
        (y ∷ t)
compare-step x y o p t s = elim (compare-cases x y) [
  | inl (e, h) ↦ rw (e, Sign) (first h)
  | inr (inl (e, h)) ↦ rw (e, Sign) (later_Sign o p t x y h s)
  | inr (inr (e, h)) ↦ rw (e, Sign) (first h)
]

strcasecmp-Sign : (a b : Text) → Sign (strcasecmp a b) (map tolower a) (map tolower b)
unfolding strcasecmp
strcasecmp-Sign [] [] = refl
strcasecmp-Sign [] (y ∷ b) = shorter
strcasecmp-Sign (x ∷ a) [] = shorter
strcasecmp-Sign (x ∷ a) (y ∷ b) =
    compare-step (tolower x) (tolower y) (strcasecmp a b) (map tolower a) (map tolower b)
      (strcasecmp-Sign a b)

-- What each relation says of the pattern `p` and the text `t`, which is its left side.
abbrev pub Relates : Num → Text → Text → Type 0
Relates gt p t = LexLt p t
Relates ge p t = LexLt p t ⊎ (t ≡ p)
Relates lt p t = LexLt t p
Relates le p t = LexLt t p ⊎ (t ≡ p)
Relates eq p t = t ≡ p
Relates ne p t = t ≢ p
Relates unknown p t = ⊥

-- From the sign alone each switch answers as its relation does.
holds : Num → Ordering → Bool
holds gt o = is_lt o
holds ge o = not (is_gt o)
holds lt o = is_gt o
holds le o = not (is_lt o)
holds eq o = is_eq o
holds ne o = not (is_eq o)
holds unknown o = false

holds-Relates :
    (num : Num) (o : Ordering) (p t : Text) → Sign o p t → (holds num o ≡ true) ↔ Relates num p t
unfolding holds
holds-Relates gt Ordering.lt p t s = (λ _. s, λ _. refl)
holds-Relates gt Ordering.eq p t s = (λ e. cc, λ h. absurd (LexLt-irrefl h s))
holds-Relates gt Ordering.gt p t s = (λ e. cc, λ h. absurd (LexLt-asymm h s))
holds-Relates ge Ordering.lt p t s = (λ _. inl s, λ _. refl)
holds-Relates ge Ordering.eq p t s = (λ _. inr (sym s), λ _. refl)
holds-Relates ge Ordering.gt p t s =
    (λ e. cc, λ h. absurd (elim h [ inl l ↦ LexLt-asymm l s | inr e ↦ LexLt-irrefl s e ]))
holds-Relates lt Ordering.lt p t s = (λ e. cc, λ h. absurd (LexLt-asymm h s))
holds-Relates lt Ordering.eq p t s = (λ e. cc, λ h. absurd (LexLt-irrefl h (sym s)))
holds-Relates lt Ordering.gt p t s = (λ _. s, λ _. refl)
holds-Relates le Ordering.lt p t s =
    (λ e. cc, λ h. absurd (elim h [ inl l ↦ LexLt-asymm l s | inr e ↦ LexLt-irrefl s (sym e) ]))
holds-Relates le Ordering.eq p t s = (λ _. inr (sym s), λ _. refl)
holds-Relates le Ordering.gt p t s = (λ _. inl s, λ _. refl)
holds-Relates eq Ordering.lt p t s = (λ e. cc, λ h. absurd (LexLt-irrefl s (sym h)))
holds-Relates eq Ordering.eq p t s = (λ _. sym s, λ _. refl)
holds-Relates eq Ordering.gt p t s = (λ e. cc, λ h. absurd (LexLt-irrefl s h))
holds-Relates ne Ordering.lt p t s = (λ _ e. LexLt-irrefl s (sym e), λ _. refl)
holds-Relates ne Ordering.eq p t s = (λ e. cc, λ n. absurd (n (sym s)))
holds-Relates ne Ordering.gt p t s = (λ _ e. LexLt-irrefl s e, λ _. refl)
holds-Relates unknown o p t s = (λ e. cc, λ h. absurd h)

ascii_casemap-holds :
    (num : Num) (pat text : Text) → ascii_casemap num pat text ≡ holds num (strcasecmp pat text)
unfolding holds ascii_casemap
ascii_casemap-holds gt pat text = refl
ascii_casemap-holds ge pat text = refl
ascii_casemap-holds lt pat text = refl
ascii_casemap-holds le pat text = refl
ascii_casemap-holds eq pat text = refl
ascii_casemap-holds ne pat text = refl
ascii_casemap-holds unknown pat text = refl

-- Each of the six relations is decided on the texts in lower case, by the order of a dictionary;
-- an unknown relation never holds.
pub ascii_casemap-Relates :
    (num : Num) (pat text : Text)
    → (ascii_casemap num pat text ≡ true) ↔ Relates num (map tolower pat) (map tolower text)
ascii_casemap-Relates num pat text =
    rw (ascii_casemap-holds num pat text)
      (holds-Relates num (strcasecmp pat text) _ _ (strcasecmp-Sign pat text))
