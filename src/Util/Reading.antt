-- ===== src/Util/Reading.antt =====
-- src/sv_util/util.c, `libsieve_strtonum`: which numbers of a script are read as they are meant.
use libsieve.Prelude.{
  ℕ, zero, suc, ◌+◌, ◌-◌, ◌*◌, ◌/◌, ◌%◌, ◌^◌, ◌<◌, ◌≤◌, false, [], ◌∷◌, ◌++◌, Text, codes, ltb,
  ltb→lt, lt→ltb, pos, ◌≡◌, ◌⊎◌, ◌∙◌, refl, inl, inr, arith, Bool-cases,
}
use libsieve.Libc.{decimal, decimal_loop, strtol, strtol_loop, isdigit}
use libsieve.Run.{ok, fault, int_overflow}
use libsieve.Util.Numbers.{int_of, times, factor, strtonum}

pub data Suffix : Type 0 where
  plain kilo mega giga : Suffix

abbrev pub letter : Suffix → Text
letter plain = []
letter kilo = codes "K"
letter mega = codes "M"
letter giga = codes "G"

abbrev pub unit : Suffix → ℕ
unit plain = 1
unit kilo = 1024
unit mega = 1048576
unit giga = 1073741824

strtol_loop-digit :
    (n d : ℕ) (t : Text) → d < 10 → strtol_loop n ((b'0' + d) ∷ t) ≡ strtol_loop (n * 10 + d) t
unfolding strtol_loop isdigit
strtol_loop-digit n d t h = let e : b'0' + d - b'0' ≡ d = omega arith in rw e (ground arith)

zero_digit : (n : ℕ) → 0 * 10 + n ≡ n
zero_digit n = omega arith

strtol_loop-decimal_loop :
    (f n : ℕ) (digits : Text)
    → n < f
    → strtol_loop 0 (decimal_loop f n digits) ≡ strtol_loop n digits
unfolding decimal_loop
strtol_loop-decimal_loop zero n digits h = absurd (omega arith)
strtol_loop-decimal_loop (suc f) n digits h = elim (Bool-cases (ltb n 10)) [
  | inl small ↦ rw small (rw (zero_digit n) at (strtol_loop-digit 0 n digits (ltb→lt n 10 small)))
  | inr large ↦
      let e : n / 10 * 10 + n % 10 ≡ n = omega arith in
      rw large (
        strtol_loop-decimal_loop f (n / 10) ((b'0' + n % 10) ∷ digits) (ground arith)
        ∙ strtol_loop-digit (n / 10) (n % 10) digits (omega arith)
        ∙ rw e)
]

-- What stands behind a number stays behind its digits.
decimal_loop-append :
    (f n : ℕ) (digits s : Text) → decimal_loop f n digits ++ s ≡ decimal_loop f n (digits ++ s)
unfolding decimal_loop
decimal_loop-append zero n digits s = refl
decimal_loop-append (suc f) n digits s = elim (Bool-cases (ltb n 10)) [
  | inl small ↦ rw small refl
  | inr large ↦ rw large (decimal_loop-append f (n / 10) ((b'0' + n % 10) ∷ digits) s)
]

strtol_loop-letter : (n : ℕ) (u : Suffix) → strtol_loop n (letter u) ≡ (n, letter u)
unfolding strtol_loop isdigit
strtol_loop-letter n plain = refl
strtol_loop-letter n kilo = refl
strtol_loop-letter n mega = refl
strtol_loop-letter n giga = refl

strtol-decimal : (n : ℕ) (u : Suffix) → n < 2 ^ 31 → strtol (decimal n ++ letter u) ≡ (n, letter u)
unfolding strtol decimal
strtol-decimal n u h =
    let e = decimal_loop-append (suc n) n [] (letter u) in
    rw
      (
        e,
        strtol_loop-decimal_loop (suc n) n (letter u) (omega arith),
        strtol_loop-letter n u,
        lt→ltb n (2 ^ 63) (omega arith),
      )
      refl

int_of-small : (n : ℕ) → n < 2 ^ 31 → int_of n ≡ pos n
unfolding int_of
int_of-small n h = let e : n % 2 ^ 32 ≡ n = omega arith in rw (e, lt→ltb n (2 ^ 31) h) refl

factor-letter : (u : Suffix) → factor (letter u) ≡ unit u
unfolding factor
factor-letter plain = refl
factor-letter kilo = refl
factor-letter mega = refl
factor-letter giga = refl

-- A number that an `int` holds, printed in digits with the letter of a unit or none behind them, is
-- read as that many units where an `int` holds these, and overflows otherwise.
pub strtonum-decimal :
    (n : ℕ) (u : Suffix)
    → n < 2 ^ 31
    → ((n * unit u < 2 ^ 31) × (strtonum (decimal n ++ letter u) ≡ ok (n * unit u)))
      ⊎ ((2 ^ 31 ≤ n * unit u) × (strtonum (decimal n ++ letter u) ≡ fault int_overflow))
unfolding strtonum times
strtonum-decimal n u h = elim (Bool-cases (ltb (n * unit u) (2 ^ 31))) [
  | inl fits ↦ inl (
    ltb→lt (n * unit u) (2 ^ 31) fits,
    rw (strtol-decimal n u h, int_of-small n h, factor-letter u, fits) refl,
  )
  | inr over ↦ inr (
    at_least (n * unit u) over,
    rw (strtol-decimal n u h, int_of-small n h, factor-letter u, over) refl,
  )
]
  where
    at_least : (k : ℕ) → ltb k (2 ^ 31) ≡ false → 2 ^ 31 ≤ k
    at_least k e = ground arith
