-- ===== src/Util/Numbers.antt =====
-- src/sv_util/util.c, `libsieve_strtonum`: the numbers of a script. `int` has 32 bits and `long` 64;
-- a conversion to `int` keeps the low bits, and a product that is out of range is undefined.
use libsieve.Prelude.{
  ℕ, suc, ◌-◌, ◌*◌, ◌%◌, ◌^◌, [], ◌∷◌, Text, ltb, leb, ◌==◌, ℤ, pos, negsuc, if◌then◌else◌,
}
use libsieve.Libc.{strtol}
use libsieve.Run.{Run, ok, fault, int_overflow, ◌>>=◌}

unfoldable pub int_of : ℕ → ℤ
int_of n = let low = n % 2 ^ 32 in if ltb low (2 ^ 31) then pos low else negsuc (2 ^ 32 - low - 1)

-- `*=` on an `int`, by a factor that is positive.
unfoldable pub times : ℤ → ℕ → Run ℤ
times (pos a) k = if ltb (a * k) (2 ^ 31) then ok (pos (a * k)) else fault int_overflow
times (negsuc a) k =
    if leb (suc a * k) (2 ^ 31) then ok (negsuc (suc a * k - 1)) else fault int_overflow

-- The switch over the character behind the digits.
unfoldable pub factor : Text → ℕ
factor [] = 1
factor (c ∷ tail) =
    if c == b'K' then 2 ^ 10 else if c == b'M' then 2 ^ 20 else if c == b'G' then 2 ^ 30 else 1

abbrev pub not_negative : ℤ → ℕ
not_negative (pos n) = n
not_negative (negsuc n) = 0

unfoldable pub strtonum : Text → Run ℕ
unfolding int_of times factor
strtonum str =
    let (val, tail) = strtol str in
    times (int_of val) (factor tail) >>= λ product. ok (not_negative product)
