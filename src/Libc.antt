-- ===== src/Libc.antt =====
-- The C library's functions on characters and strings, as far as the sources call them, in the
-- "C" locale. They have no code in the repository.
use libsieve.Prelude.{
  ℕ, zero, suc, ◌+◌, ◌-◌, ◌*◌, ◌/◌, ◌%◌, ◌^◌, Bool, true, false, ◌&&◌, ◌||◌, map, [], ◌∷◌, Text,
  leb, ltb, ◌==◌, if◌then◌else◌, ℤ, pos, negsuc,
}
use Prim.Native.Nat.{compare, Ordering}

unfoldable pub toupper : ℕ → ℕ
toupper c = if leb b'a' c && leb c b'z' then c - 32 else c

unfoldable pub tolower : ℕ → ℕ
tolower c = if leb b'A' c && leb c b'Z' then c + 32 else c

unfoldable pub isdigit : ℕ → Bool
isdigit c = leb b'0' c && leb c b'9'

-- `!strcmp(a, b)`, which is also `strlen(a) == strlen(b) && !memcmp(a, b, strlen(a))`.
unfoldable pub same_text : Text → Text → Bool
same_text [] [] = true
same_text [] (y ∷ ys) = false
same_text (x ∷ xs) [] = false
same_text (x ∷ xs) (y ∷ ys) = x == y && same_text xs ys

-- The sign of `strcasecmp(a, b)`: the lower case bytes are compared as `unsigned char`.
unfoldable pub strcasecmp : Text → Text → Ordering
unfolding tolower
strcasecmp [] [] = Ordering.eq
strcasecmp [] (y ∷ ys) = Ordering.lt
strcasecmp (x ∷ xs) [] = Ordering.gt
strcasecmp (x ∷ xs) (y ∷ ys) = elim (compare (tolower x) (tolower y)) [
  | Ordering.lt ↦ Ordering.lt
  | Ordering.eq ↦ strcasecmp xs ys
  | Ordering.gt ↦ Ordering.gt
]

abbrev pub is_lt : Ordering → Bool
is_lt o = elim o [ Ordering.lt ↦ true | _ ↦ false ]

abbrev pub is_eq : Ordering → Bool
is_eq o = elim o [ Ordering.eq ↦ true | _ ↦ false ]

abbrev pub is_gt : Ordering → Bool
is_gt o = elim o [ Ordering.gt ↦ true | _ ↦ false ]

-- `strcasecmp(a, b) == 0`.
unfoldable pub same_name : Text → Text → Bool
unfolding strcasecmp
same_name a b = is_eq (strcasecmp a b)

-- `!strncmp(a, b, strlen(b))`: the text begins with `b`.
unfoldable pub begins_with : Text → Text → Bool
begins_with xs [] = true
begins_with [] (y ∷ ys) = false
begins_with (x ∷ xs) (y ∷ ys) = x == y && begins_with xs ys

-- `strstr(text, pat) != NULL`.
unfoldable pub strstr : Text → Text → Bool
unfolding begins_with
strstr [] pat = begins_with [] pat
strstr (x ∷ xs) pat = if begins_with (x ∷ xs) pat then true else strstr xs pat

unfoldable pub atoi_loop : ℕ → Text → ℕ
unfolding isdigit
atoi_loop n [] = n
atoi_loop n (c ∷ t) = let more = atoi_loop (n * 10 + (c - b'0')) t in if isdigit c then more else n

-- `(int) n` of a `long` that stops at the largest one, as the GNU C library has it for `atoi`. C
-- itself promises nothing where no `int` holds the number.
unfoldable pub cut_to_int : ℕ → ℤ
cut_to_int n =
    let held = (if ltb n 9223372036854775808 then n else 9223372036854775807) % 4294967296 in
    if ltb held 2147483648 then pos held else negsuc (4294967295 - held)

-- `atoi` of a text that begins with a digit, so without white space and sign.
unfoldable pub atoi : Text → ℤ
unfolding atoi_loop cut_to_int
atoi text = cut_to_int (atoi_loop 0 text)

unfoldable pub decimal_loop : ℕ → ℕ → Text → Text
decimal_loop zero n digits = digits
decimal_loop (suc f) n digits =
    let more = decimal_loop f (n / 10) ((b'0' + n % 10) ∷ digits) in
    if ltb n 10 then (b'0' + n) ∷ digits else more

-- `snprintf(…, "%d", n)`, where `n` is not negative.
unfoldable pub decimal : ℕ → Text
decimal n = decimal_loop (suc n) n []

unfoldable pub isspace : ℕ → Bool
isspace c = c == b' ' || (leb 9 c && leb c 13)

-- `!strncasecmp(a, b, strlen(b))`.
unfoldable pub begins_with_any_case : Text → Text → Bool
unfolding begins_with tolower
begins_with_any_case xs ys = begins_with (map tolower xs) (map tolower ys)

unfoldable pub strtol_loop : ℕ → Text → ℕ × Text
unfolding isdigit
strtol_loop n [] = (n, [])
strtol_loop n (c ∷ t) =
    let more = strtol_loop (n * 10 + (c - b'0')) t in if isdigit c then more else (n, c ∷ t)

-- `strtol(text, &tail, 10)` of a text that begins with a digit: the number, or the largest `long`,
-- and the text behind its digits.
unfoldable pub strtol : Text → ℕ × Text
strtol text = let (n, tail) = strtol_loop 0 text in (if ltb n (2 ^ 63) then n else 2 ^ 63 - 1, tail)
