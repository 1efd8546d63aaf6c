-- ===== src/Comparator/Numeric.antt =====
-- src/sv_parser/comparator.c: the comparators of `i;ascii-numeric`.
use libsieve.Prelude.{Bool, true, false, not, [], ◌∷◌, Text, ℤ, ltb_ℤ, leb_ℤ, eq_ℤ, if◌then◌else◌}
use libsieve.Libc.{isdigit, atoi}
use libsieve.Comparator.Casemap.{Num, gt, ge, lt, le, eq, ne, unknown}

-- `isdigit(*text)`.
unfoldable pub first_digit : Text → Bool
unfolding isdigit
first_digit [] = false
first_digit (c ∷ t) = isdigit c

-- `switch (num)`. The inequalities are backwards: `pat` is the right side, `text` the left one.
unfoldable pub numeric_switch : Num → ℤ → ℤ → Bool
numeric_switch gt pat text = ltb_ℤ pat text
numeric_switch ge pat text = leb_ℤ pat text
numeric_switch lt pat text = ltb_ℤ text pat
numeric_switch le pat text = leb_ℤ text pat
numeric_switch eq pat text = eq_ℤ pat text
numeric_switch ne pat text = not (eq_ℤ pat text)
numeric_switch unknown pat text = false

unfoldable pub ascii_numeric : Num → Text → Text → Bool
ascii_numeric num pat text =
    if first_digit pat
    then if first_digit text then numeric_switch num (atoi pat) (atoi text) else false
    else if first_digit text
    then false
    else true

unfoldable pub ascii_numeric_unknown : Text → Text → Bool
ascii_numeric_unknown pat text = false
