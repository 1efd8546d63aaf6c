-- ===== src/Comparator/Casemap.antt =====
-- src/sv_parser/comparator.c: the comparators of `i;ascii-casemap`, and the relations that the
-- numeric comparator shares. The `context` argument serves only to trace.
use libsieve.Prelude.{
  ℕ, zero, suc, ◌+◌, ◌-◌, ◌*◌, Bool, true, false, not, ◌&&◌, Option, none, some, Text, length, ltb,
  ◌==◌, if◌then◌else◌, get_or,
}
use libsieve.Libc.{toupper, strcasecmp, is_lt, is_eq, is_gt}
use libsieve.Comparator.Octet.{Verdict, octet_matches_}

-- `enum num`; `unknown` is any other number, the `default` of each switch over it.
pub data Num : Type 0 where
  gt ge lt le eq ne unknown : Num

-- The loop's `i` and `j`, at fuel; `none` means that the fuel ran out. `text[i]` and `pat[j]` lie
-- inside their strings. Strings are shorter than the largest `int`.
unfoldable pub contains_loop : ℕ → Text → Text → ℕ → ℕ → Option Bool
unfolding toupper
contains_loop zero pat text i j = none
contains_loop (suc f) pat text i j =
    let hit = contains_loop f pat text (i + 1) (j + 1) in
    let miss = contains_loop f pat text (i - j + 1) 0 in
    if ltb j (length pat) && ltb i (length text)
    then if toupper (get_or text i 0) == toupper (get_or pat j 0) then hit else miss
    else some (j == length pat)

-- Each start in the text costs a round for each character of the pattern, and one more.
unfoldable pub ascii_casemap_contains : Text → Text → Option Bool
unfolding contains_loop
ascii_casemap_contains pat text =
    contains_loop ((length text + 1) * (length pat + 1) + 1) pat text 0 0

unfoldable pub ascii_casemap_matches : Text → Text → Verdict
unfolding octet_matches_
ascii_casemap_matches pat text = octet_matches_ true pat text

-- The inequalities are backwards: `pat` is the right side and `text` the left one.
unfoldable pub ascii_casemap : Num → Text → Text → Bool
ascii_casemap gt pat text = is_lt (strcasecmp pat text)
ascii_casemap ge pat text = not (is_gt (strcasecmp pat text))
ascii_casemap lt pat text = is_gt (strcasecmp pat text)
ascii_casemap le pat text = not (is_lt (strcasecmp pat text))
ascii_casemap eq pat text = is_eq (strcasecmp pat text)
ascii_casemap ne pat text = not (is_eq (strcasecmp pat text))
ascii_casemap unknown pat text = false

unfoldable pub ascii_casemap_unknown : Text → Text → Bool
ascii_casemap_unknown pat text = false
