-- ===== src/Context/Brackets.antt =====
-- src/sv_interface/context2.c: a call is open or closed, and `begin` and `end` alternate.
use libsieve.Prelude.{ℕ, true, false, ◌≡◌, ◌≢◌, ◌⊎◌, arith}
use libsieve.Run.{sieve2_ok, error_fail}
use libsieve.Context.Values.{
  Code, value_first, same_code_iff, CurCall, no_values, callback_begin, callback_end,
}

-- No call is open: at first both flags are down, and after a call both are up.
abbrev pub IsClosed : CurCall → Type 0
IsClosed c = c.begin ≡ c.end

abbrev pub IsOpen : Code → CurCall → Type 0
IsOpen code c = (c.begin ≡ true) × (c.end ≡ false) × (c.code ≡ code)

-- What a call of `callback_begin` does: it opens a closed call, with fresh values, and leaves an
-- open one as it is.
abbrev pub Begins : Code → CurCall → ℕ × CurCall → Type 0
Begins code c (status, c') =
    ((status ≡ sieve2_ok) × IsClosed c × IsOpen code c' × (c'.values ≡ no_values))
    ⊎ ((status ≡ error_fail) × (c.begin ≢ c.end) × (c' ≡ c))

-- `callback_begin` succeeds exactly on a closed call.
pub callback_begin-Begins : (code : Code) (c : CurCall) → Begins code c (callback_begin code c)
unfolding callback_begin
callback_begin-Begins code c = ground arith

-- What a call of `callback_end` does: it closes the open call of its own code, and fails on
-- another call without changing it.
abbrev pub Ends : Code → CurCall → ℕ × CurCall → Type 0
Ends code c (status, c') =
    ((status ≡ sieve2_ok)
      × IsOpen code c
      × IsClosed c'
      × (c'.code ≡ value_first)
      × (c'.values ≡ c.values))
    ⊎ ((status ≡ error_fail) × (¬ IsOpen code c) × (c' ≡ c))

-- `callback_end` succeeds exactly on the open call of its code.
pub callback_end-Ends : (code : Code) (c : CurCall) → Ends code c (callback_end code c)
unfolding callback_end
callback_end-Ends code c = ground (arith, same_code_iff c.code code)

-- `callback_begin` succeeds exactly on a closed call, which it opens with fresh values; on an open
-- one it fails and changes nothing. `callback_end` succeeds exactly on the open call of its code,
-- which it closes; on another call it fails and changes nothing.
pub callback_begin-callback_end :
    (code : Code) (c : CurCall)
    → Begins code c (callback_begin code c) × Ends code c (callback_end code c)
callback_begin-callback_end code c = (callback_begin-Begins code c, callback_end-Ends code c)
