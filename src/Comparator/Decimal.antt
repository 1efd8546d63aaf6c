-- ===== src/Comparator/Decimal.antt =====
-- src/sv_parser/comparator.c, `ascii_numeric`: on texts that begin with a digit it compares the
-- numbers, those that a count is printed as among them.
use libsieve.Prelude.{
  ℕ, zero, suc, ◌+◌, ◌-◌, ◌*◌, ◌/◌, ◌%◌, ◌<◌, ◌≤◌, true, false, [], ◌∷◌, Text, ltb, ltb→lt, pos, ap,
  ◌≡◌, ◌≢◌, ◌↔◌, ◌∙◌, refl, inl, inr, arith, Bool-cases,
}
use libsieve.Libc.{atoi, cut_to_int, atoi_loop, decimal, decimal_loop}
use libsieve.Comparator.Casemap.{Num, gt, ge, lt, le, eq, ne, unknown}
use libsieve.Comparator.Numeric.{first_digit, numeric_switch, ascii_numeric}

atoi_loop-digit :
    (n d : ℕ) (t : Text) → d < 10 → atoi_loop n ((b'0' + d) ∷ t) ≡ atoi_loop (n * 10 + d) t
unfolding atoi_loop
atoi_loop-digit n d t h = let e : b'0' + d - b'0' ≡ d = omega arith in rw e (ground arith)

zero_digit : (n : ℕ) → 0 * 10 + n ≡ n
zero_digit n = omega arith

atoi_loop-decimal_loop :
    (f n : ℕ) (digits : Text) → n < f → atoi_loop 0 (decimal_loop f n digits) ≡ atoi_loop n digits
unfolding decimal_loop
atoi_loop-decimal_loop zero n digits h = absurd (omega arith)
atoi_loop-decimal_loop (suc f) n digits h = elim (Bool-cases (ltb n 10)) [
  | inl small ↦ rw small (rw (zero_digit n) at (atoi_loop-digit 0 n digits (ltb→lt n 10 small)))
  | inr large ↦
      let e : n / 10 * 10 + n % 10 ≡ n = omega arith in
      rw large (
        atoi_loop-decimal_loop f (n / 10) ((b'0' + n % 10) ∷ digits) (ground arith)
        ∙ atoi_loop-digit (n / 10) (n % 10) digits (omega arith)
        ∙ rw e)
]

atoi_loop-nil : (n : ℕ) → atoi_loop n [] ≡ n
unfolding atoi_loop
atoi_loop-nil n = refl

cut_to_int-small : (n : ℕ) → n < 2147483648 → cut_to_int n ≡ pos n
unfolding cut_to_int
cut_to_int-small n h = ground arith

-- A number that an `int` holds is read back from the decimal text that it is printed as.
pub atoi-decimal : (n : ℕ) → n < 2147483648 → atoi (decimal n) ≡ pos n
unfolding atoi decimal
atoi-decimal n h =
    let e : atoi_loop 0 (decimal_loop (suc n) n []) ≡ atoi_loop n [] =
      atoi_loop-decimal_loop (suc n) n [] (omega arith) in
    ap cut_to_int (e ∙ atoi_loop-nil n) ∙ cut_to_int-small n h

first_digit-digit : (d : ℕ) (t : Text) → d < 10 → first_digit ((b'0' + d) ∷ t) ≡ true
unfolding first_digit
first_digit-digit d t h = ground arith

first_digit-decimal_loop :
    (f n d : ℕ) (t : Text) → d < 10 → first_digit (decimal_loop f n ((b'0' + d) ∷ t)) ≡ true
unfolding decimal_loop
first_digit-decimal_loop zero n d t h = first_digit-digit d t h
first_digit-decimal_loop (suc f) n d t h = elim (Bool-cases (ltb n 10)) [
  | inl small ↦ rw small (first_digit-digit n _ (ltb→lt n 10 small))
  | inr large ↦ rw large (first_digit-decimal_loop f (n / 10) (n % 10) _ (omega arith))
]

first_digit-decimal : (n : ℕ) → first_digit (decimal n) ≡ true
unfolding decimal decimal_loop
first_digit-decimal n = elim (Bool-cases (ltb n 10)) [
  | inl small ↦ rw small (first_digit-digit n [] (ltb→lt n 10 small))
  | inr large ↦ rw large (first_digit-decimal_loop n (n / 10) (n % 10) [] (omega arith))
]

-- What each relation says of the number `p` of the pattern and the number `t` of the text, which
-- is its left side.
abbrev pub Compares : Num → ℕ → ℕ → Type 0
Compares gt p t = p < t
Compares ge p t = p ≤ t
Compares lt p t = t < p
Compares le p t = t ≤ p
Compares eq p t = t ≡ p
Compares ne p t = t ≢ p
Compares unknown p t = ⊥

numeric_switch-Compares :
    (num : Num) (p t : ℕ) → (numeric_switch num (pos p) (pos t) ≡ true) ↔ Compares num p t
unfolding numeric_switch
numeric_switch-Compares gt p t = ground arith
numeric_switch-Compares ge p t = ground arith
numeric_switch-Compares lt p t = ground arith
numeric_switch-Compares le p t = ground arith
numeric_switch-Compares eq p t = ground arith
numeric_switch-Compares ne p t = ground arith
numeric_switch-Compares unknown p t = ground arith

ascii_numeric-decimal :
    (num : Num) (p t : ℕ)
    → p < 2147483648
    → t < 2147483648
    → (ascii_numeric num (decimal p) (decimal t) ≡ true) ↔ Compares num p t
unfolding ascii_numeric
ascii_numeric-decimal num p t hp ht =
    rw (first_digit-decimal p, first_digit-decimal t, atoi-decimal p hp, atoi-decimal t ht)
      (numeric_switch-Compares num p t)

-- Two texts that do not begin with digits pass every relation, `lt` and `gt` among them.
pub ascii_numeric-no_digits :
    (num : Num) (pat text : Text)
    → first_digit pat ≡ false
    → first_digit text ≡ false
    → ascii_numeric num pat text ≡ true
unfolding ascii_numeric
ascii_numeric-no_digits num pat text hp ht = rw (hp, ht)

-- Of two printed numbers that an `int` holds each of the six relations holds exactly if it holds of the
-- numbers. Two texts that do not begin with digits pass every relation, `lt` and `gt` among them.
pub ascii_numeric-Compares :
    (num : Num) (p t : ℕ) (pat text : Text)
    → p < 2147483648
    → t < 2147483648
    → first_digit pat ≡ false
    → first_digit text ≡ false
    → ((ascii_numeric num (decimal p) (decimal t) ≡ true) ↔ Compares num p t)
      × (ascii_numeric num pat text ≡ true)
ascii_numeric-Compares num p t pat text small_p small_t hp ht =
    (ascii_numeric-decimal num p t small_p small_t, ascii_numeric-no_digits num pat text hp ht)
