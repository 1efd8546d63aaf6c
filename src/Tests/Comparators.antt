-- ===== src/Tests/Comparators.antt =====
-- src/sv_parser/comparator.c on small inputs.
use libsieve.Prelude.{◌++◌, Bool, true, false, some, [], ◌∷◌, map, codes, ◌≡◌, ◌↔◌, refl, arith}
use libsieve.Libc.{tolower, strcasecmp, atoi, atoi_loop, decimal}
use libsieve.Comparator.Octet.{
  kind, same_char, literal_case, answer, overrun, octet_matches, octet_matches_,
}
use libsieve.Comparator.Casemap.{ge, eq, gt, lt, ascii_casemap, ascii_casemap_contains}
use libsieve.Comparator.Numeric.{ascii_numeric, first_digit, numeric_switch}
use libsieve.Comparator.Lookup.{Tokens, relational_count, value_tag, count_tag}
use libsieve.Comparator.Glob.{Glob}
use libsieve.Comparator.Contains.{FoundIn, ascii_casemap_contains-FoundIn}
use libsieve.Comparator.Order.{Relates, ascii_casemap-Relates}
use libsieve.Comparator.Decimal.{Compares, ascii_numeric-Compares}
use libsieve.Comparator.Escape.{octet_matches_-escape}
use libsieve.Comparator.Tags.{AreNumbered, Selects, tags-Selects}

star_in_the_middle : octet_matches (codes "*.t?t") (codes "a.tt.txt") ≡ answer true
unfolding octet_matches literal_case kind same_char
star_in_the_middle = refl

star_needs_rest : octet_matches (codes "a*b") (codes "acd") ≡ answer false
unfolding octet_matches literal_case kind same_char
star_needs_rest = refl

contains_any_case :
    ascii_casemap_contains (codes "make MONEY") (codes "how to Make Money fast") ≡ some true
unfolding ascii_casemap_contains
contains_any_case = refl

restarts_inside : ascii_casemap_contains (codes "aab") (codes "aaab") ≡ some true
unfolding ascii_casemap_contains
restarts_inside = refl

ten_is_more_than_nine : ascii_numeric gt (codes "9") (codes "10 apples") ≡ true
unfolding ascii_numeric first_digit numeric_switch atoi atoi_loop
ten_is_more_than_nine = refl

no_case_in_order : ascii_casemap lt (codes "Beta") (codes "alpha") ≡ true
unfolding ascii_casemap strcasecmp
no_case_in_order = refl

ascii_casemap_contains-FoundIn_example :
    (found : Bool) × (ascii_casemap_contains (codes "sp") (codes "A SPAM") ≡ some found)
    × ((found ≡ true) ↔ FoundIn (codes "sp") (codes "A SPAM"))
ascii_casemap_contains-FoundIn_example =
    ascii_casemap_contains-FoundIn (codes "sp") (codes "A SPAM")

ascii_casemap-Relates_example :
    (ascii_casemap gt (codes "a") (codes "B") ≡ true)
    ↔ Relates gt (map tolower (codes "a")) (map tolower (codes "B"))
ascii_casemap-Relates_example = ascii_casemap-Relates gt (codes "a") (codes "B")

ascii_numeric-Compares_example :
    ((ascii_numeric lt (decimal 9) (decimal 10) ≡ true) ↔ Compares lt 9 10)
    × (ascii_numeric lt (codes "high") (codes "low") ≡ true)
ascii_numeric-Compares_example =
    ascii_numeric-Compares lt 9 10 (codes "high") (codes "low") (omega arith) (omega arith)
      (unfold first_digit in refl) (unfold first_digit in refl)

octet_matches_-escape_example :
    (octet_matches_ false (codes "a" ++ 92 ∷ b'*' ∷ []) (codes "a" ++ b'*' ∷ []) ≡ answer false)
    × (octet_matches_ false (codes "a" ++ 92 ∷ []) (codes "a" ++ 92 ∷ []) ≡ overrun)
octet_matches_-escape_example =
    octet_matches_-escape false (codes "a") b'*' [] [] (unfold kind in (refl, tt)) (omega arith)

-- Above the numbers that an `int` holds.
four_billion_is_one : ascii_numeric eq (codes "1") (codes "4294967297") ≡ true
unfolding ascii_numeric first_digit numeric_switch atoi atoi_loop
four_billion_is_one = refl

abbrev tokens : Tokens
tokens = record { is = 291; contains = 292; matches = 293; regex = 294; count = 297; value = 298 }

tokens-AreNumbered : AreNumbered tokens
tokens-AreNumbered = omega arith

tags-Selects_example :
    Selects tokens (value_tag tokens (codes "ge")) ge
    × Selects tokens (count_tag tokens (codes "ge")) ge
    × (relational_count tokens (count_tag tokens (codes "ge")) ≡ true)
    × (relational_count tokens (value_tag tokens (codes "ge")) ≡ false)
    × (relational_count tokens tokens.is ≡ false)
    × (relational_count tokens tokens.contains ≡ false)
    × (relational_count tokens tokens.matches ≡ false)
    × (relational_count tokens tokens.regex ≡ false)
tags-Selects_example = tags-Selects tokens (codes "ge") ge tokens-AreNumbered refl
