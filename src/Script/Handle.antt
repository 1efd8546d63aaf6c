-- ===== src/Script/Handle.antt =====
-- src/sv_interface/script.c, the vacation command: the handle that is made of its arguments.
use libsieve.Prelude.{
  ℕ, suc, zero, ◌+◌, ◌<◌, ◌≤◌, ◌/◌, ◌%◌, ltb, lt→ltb, false, List, [], ◌∷◌, ◌++◌, none, some, Text,
  codes, length, length-append, ℤ, pos, negsuc, ◌≡◌, refl, ap, ◌∙◌, ◌⊎◌, inl, inr, arith,
  Bool-cases, ltb→lt,
}
use libsieve.Libc.{decimal, decimal_loop}
use libsieve.Run.{ok, fault, out_of_bounds}
use libsieve.Script.Syntax.{Vacation}
use libsieve.Script.Vacation.{
  room_for_handle, make_handle, or_empty, decimal_ℤ, printed_handle, handle_of,
}

ge_ten : (n : ℕ) → ltb n 10 ≡ false → 10 ≤ n
ge_ten n h = ground arith

le→not_ltb : (m n : ℕ) → n ≤ m → ltb m n ≡ false
le→not_ltb m n h = ground arith

decimal_loop-longer : (f n : ℕ) (digits : Text) → length digits ≤ length (decimal_loop f n digits)
unfolding decimal_loop
decimal_loop-longer zero n digits = omega arith
decimal_loop-longer (suc f) n digits = elim (Bool-cases (ltb n 10)) [
  | inl small ↦ rw small (omega arith)
  | inr large ↦
      rw large
        (let h = decimal_loop-longer f (n / 10) ((b'0' + n % 10) ∷ digits) in omega (arith, h))
]

decimal_loop-digit :
    (f n : ℕ) (digits : Text) → 1 ≤ f → length digits + 1 ≤ length (decimal_loop f n digits)
unfolding decimal_loop
decimal_loop-digit zero n digits h = omega (arith, h)
decimal_loop-digit (suc f) n digits h = elim (Bool-cases (ltb n 10)) [
  | inl small ↦ rw small (omega arith)
  | inr large ↦
      rw large
        (let k = decimal_loop-longer f (n / 10) ((b'0' + n % 10) ∷ digits) in omega (arith, k))
]

-- One digit below ten, and two at least from there.
length-decimal :
    (n : ℕ) → ((n < 10) × (length (decimal n) ≡ 1)) ⊎ ((10 ≤ n) × (2 ≤ length (decimal n)))
unfolding decimal decimal_loop
length-decimal n = elim (Bool-cases (ltb n 10)) [
  | inl small ↦ inl (ltb→lt n 10 small, rw small refl)
  | inr large ↦ inr (
    ge_ten n large,
    rw large (
        let k =
          decimal_loop-digit n (n / 10) ((b'0' + n % 10) ∷ []) (omega (arith, ge_ten n large)) in
        omega (arith, k)),
  )
]

-- A number that is printed as one digit.
abbrev pub IsDigit : ℤ → Type 0
IsDigit (pos n) = n < 10
IsDigit (negsuc n) = ⊥

one_digit :
    {n : ℕ}
    → ((n < 10) × (length (decimal n) ≡ 1)) ⊎ ((10 ≤ n) × (2 ≤ length (decimal n)))
    → 1 ≤ length (decimal n)
one_digit (inl (small, h)) = omega (arith, h)
one_digit (inr (large, h)) = omega (arith, h)

length-decimal_ℤ :
    (z : ℤ)
    → (IsDigit z × (length (decimal_ℤ z) ≡ 1)) ⊎ ((¬ IsDigit z) × (2 ≤ length (decimal_ℤ z)))
unfolding decimal_ℤ
length-decimal_ℤ (pos n) = elim (length-decimal n) [
  | inl small ↦ inl small
  | inr (large, longer) ↦ inr ((λ h. omega (arith, h, large)), longer)
]
length-decimal_ℤ (negsuc n) = inr ((λ h. h), omega (arith, one_digit (length-decimal (suc n))))

length-printed_handle :
    (v : Vacation)
    → length (printed_handle v)
      ≡ length (or_empty v.subject)
        + length (or_empty v.from)
        + length v.message
        + 3
        + length (decimal_ℤ v.mime)
unfolding printed_handle
length-printed_handle v =
    let end_ = codes ":" ++ decimal_ℤ v.mime in
    let middle = v.message ++ end_ in
    let behind = or_empty v.from ++ (codes ":" ++ middle) in
    omega (
      arith,
      length-append (or_empty v.subject) (codes ":" ++ behind),
      length-append (or_empty v.from) (codes ":" ++ middle),
      length-append v.message end_,
    )

-- Texts with colons between them.
abbrev pub with_colons : List Text → Text
with_colons [] = []
with_colons (s ∷ []) = s
with_colons (s ∷ t ∷ more) = s ++ b':' ∷ with_colons (t ∷ more)

-- The character of a number of one digit.
abbrev pub digit_of : ℤ → Text
digit_of (pos n) = (b'0' + n) ∷ []
digit_of (negsuc n) = []

-- The handle of a vacation command whose `mime` has one digit.
abbrev pub colon_handle : Vacation → Text
colon_handle v =
    with_colons (or_empty v.subject ∷ or_empty v.from ∷ v.message ∷ digit_of v.mime ∷ [])

decimal_ℤ-digit : (z : ℤ) → IsDigit z → decimal_ℤ z ≡ digit_of z
unfolding decimal_ℤ decimal decimal_loop
decimal_ℤ-digit (pos n) h = rw (lt→ltb n 10 h) refl
decimal_ℤ-digit (negsuc n) h = absurd h

printed_handle-colon_handle : (v : Vacation) → IsDigit v.mime → printed_handle v ≡ colon_handle v
unfolding printed_handle
printed_handle-colon_handle v h = rw (decimal_ℤ-digit v.mime h) refl

-- A vacation command without a handle gets one of its subject, its sender, its message and the
-- value of `mime`, with colons between them, where that value is printed as one digit. Otherwise
-- the buffer for it is overrun.
pub handle_of-fits :
    (v : Vacation)
    → v.handle ≡ none
    → (IsDigit v.mime × (handle_of v ≡ ok (colon_handle v)))
      ⊎ ((¬ IsDigit v.mime) × (handle_of v ≡ fault out_of_bounds))
unfolding handle_of make_handle room_for_handle
handle_of-fits v h =
    let made = ap (λ handle. elim handle [ some text ↦ ok text | none ↦ make_handle v ]) h in
    let measured = length-printed_handle v in
    elim (length-decimal_ℤ v.mime) [
      | inl (digit, one) ↦ inl (
        digit,
        made
            ∙ rw
                (lt→ltb (length (printed_handle v)) (room_for_handle v)
                  (omega (arith, measured, one)))
                refl
            ∙ ap ok (printed_handle-colon_handle v digit),
      )
      | inr (other, more) ↦ inr (
        other,
        made
            ∙ rw
                (le→not_ltb (length (printed_handle v)) (room_for_handle v)
                  (omega (arith, measured, more)))
                refl,
      )
    ]
