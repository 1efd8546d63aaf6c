-- ===== src/Comparator/Lookup.antt =====
-- src/sv_parser/comparator.c: from names and tags to comparators. A comparator tag is an `int`:
-- one of the token numbers that the parser generator gives out, and for `:value` and `:count` the
-- relation's number in the bits from 10 on.
use Prim.Native.Nat.{bit_and, bit_or}
use libsieve.Prelude.{
  ℕ, ◌*◌, ◌/◌, ◌^◌, Bool, true, false, Option, none, some, Text, codes, ◌==◌, if◌then◌else◌,
}
use libsieve.Libc.{same_text}
use libsieve.Comparator.Octet.{
  Verdict, answer, overrun, out_of_fuel, octet_is, octet_contains, octet_matches,
}
use libsieve.Comparator.Casemap.{
  Num, gt, ge, lt, le, eq, ne, unknown, ascii_casemap, ascii_casemap_contains,
  ascii_casemap_matches, ascii_casemap_unknown,
}
use libsieve.Comparator.Numeric.{ascii_numeric, ascii_numeric_unknown}

-- The numbers of the tokens that `mode` may be, in the generated header sieve.h.
pub record Tokens : Type 0 where
  pub is : ℕ
  pub contains : ℕ
  pub matches : ℕ
  pub regex : ℕ
  pub count : ℕ
  pub value : ℕ

-- `enum num`.
unfoldable pub num_code : Num → ℕ
num_code gt = 1
num_code ge = 2
num_code lt = 3
num_code le = 4
num_code eq = 5
num_code ne = 6
num_code unknown = 0

-- `(enum num)(mode >> 10)`, read by the cases of a switch.
unfoldable pub num_of_code : ℕ → Num
num_of_code n =
    if n == 1
    then gt
    else if n == 2
    then ge
    else if n == 3
    then lt
    else if n == 4
    then le
    else if n == 5
    then eq
    else if n == 6
    then ne
    else unknown

-- The relation that a name stands for.
unfoldable pub num_of_name : Text → Num
num_of_name rel =
    if same_text rel (codes "gt")
    then gt
    else if same_text rel (codes "ge")
    then ge
    else if same_text rel (codes "lt")
    then lt
    else if same_text rel (codes "le")
    then le
    else if same_text rel (codes "eq")
    then eq
    else if same_text rel (codes "ne")
    then ne
    else unknown

-- `num << 10`, and 0 for no name or an unknown one.
unfoldable pub relational_lookup : Option Text → ℕ
relational_lookup none = 0
relational_lookup (some rel) = num_code (num_of_name rel) * 2 ^ 10

-- The functions that `comparator_lookup` can point to; `ascii_casemap_gt` is `casemap gt`, and so
-- for its siblings.
pub data Comparator : Type 0 where
  is_octet contains_octet matches_octet regex_octet : Comparator
  contains_casemap matches_casemap unknown_casemap unknown_numeric : Comparator
  casemap numeric : Num → Comparator

-- The inner switches, over `mode >> 10`.
unfoldable pub casemap_switch : Num → Comparator
casemap_switch unknown = unknown_casemap
casemap_switch num = casemap num

unfoldable pub numeric_switch_lookup : Num → Comparator
numeric_switch_lookup unknown = unknown_numeric
numeric_switch_lookup num = numeric num

module _ (t : Tokens) where
  unfoldable pub octet_lookup : ℕ → Option Comparator
  octet_lookup mode =
      if mode == t.is
      then some is_octet
      else if mode == t.contains
      then some contains_octet
      else if mode == t.matches
      then some matches_octet
      else if mode == t.regex
      then some regex_octet
      else none

  -- `case VALUE`, `case COUNT` and `default` all come to the inner switch.
  unfoldable pub casemap_lookup : ℕ → Option Comparator
  casemap_lookup mode =
      if mode == t.is
      then some (casemap eq)
      else if mode == t.contains
      then some contains_casemap
      else if mode == t.matches
      then some matches_casemap
      else if mode == t.regex
      then some regex_octet
      else some (casemap_switch (num_of_code (mode / 2 ^ 10)))

  unfoldable pub numeric_lookup : ℕ → Option Comparator
  numeric_lookup mode =
      if mode == t.is
      then some (numeric eq)
      else some (numeric_switch_lookup (num_of_code (mode / 2 ^ 10)))

  unfoldable pub comparator_lookup : Text → ℕ → Option Comparator
  comparator_lookup comp mode =
      if same_text comp (codes "i;octet")
      then octet_lookup mode
      else if same_text comp (codes "i;ascii-casemap")
      then casemap_lookup mode
      else if same_text comp (codes "i;ascii-numeric")
      then numeric_lookup mode
      else none

  -- `(mode & COUNT) == COUNT`. The test for `VALUE` behind it returns 0 on both branches.
  unfoldable pub relational_count : ℕ → Bool
  relational_count mode = bit_and mode t.count == t.count

  -- The grammar's `VALUE STRING` and `COUNT STRING`: `VALUE | libsieve_relational_lookup($2)`.
  unfoldable pub value_tag : Text → ℕ
  value_tag rel = bit_or t.value (relational_lookup (some rel))

  unfoldable pub count_tag : Text → ℕ
  count_tag rel = bit_or t.count (relational_lookup (some rel))

-- A pattern is a text, or a compiled regular expression behind the same pointer.
pub data Pattern (R : Type 0) : Type 0 where
  literal : Text → Pattern R
  compiled : R → Pattern R

-- Whether the function reads its pattern as what it is. The two that compare nothing do not read it.
unfoldable pub suits : {R : Type 0} → Comparator → Pattern R → Bool
suits regex_octet (literal pat) = false
suits comp (literal pat) = true
suits regex_octet (compiled r) = true
suits unknown_casemap (compiled r) = true
suits unknown_numeric (compiled r) = true
suits comp (compiled r) = false

answer_of : Option Bool → Verdict
answer_of none = out_of_fuel
answer_of (some b) = answer b

module _ {R : Type 0} (regexec : R → Text → Bool) where
  unfoldable pub run_on_text : Comparator → Text → Text → Verdict
  unfolding answer_of
  run_on_text is_octet pat text = answer (octet_is pat text)
  run_on_text contains_octet pat text = answer (octet_contains pat text)
  run_on_text matches_octet pat text = octet_matches pat text
  run_on_text regex_octet pat text = overrun
  run_on_text contains_casemap pat text = answer_of (ascii_casemap_contains pat text)
  run_on_text matches_casemap pat text = ascii_casemap_matches pat text
  run_on_text unknown_casemap pat text = answer (ascii_casemap_unknown pat text)
  run_on_text unknown_numeric pat text = answer (ascii_numeric_unknown pat text)
  run_on_text (casemap num) pat text = answer (ascii_casemap num pat text)
  run_on_text (numeric num) pat text = answer (ascii_numeric num pat text)

  -- The call through the pointer. `regexec` is the library's matcher. A compiled expression read
  -- as a text, or a text as an expression, is a read of foreign memory.
  unfoldable pub run_comparator : Comparator → Pattern R → Text → Verdict
  unfolding run_on_text
  run_comparator comp (literal pat) text = run_on_text comp pat text
  run_comparator regex_octet (compiled r) text = answer (regexec r text)
  run_comparator unknown_casemap (compiled r) text = answer false
  run_comparator unknown_numeric (compiled r) text = answer false
  run_comparator _ (compiled r) text = overrun
