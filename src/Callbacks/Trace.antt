-- ===== src/Callbacks/Trace.antt =====
-- src/sv_interface/callbacks2.c, `libsieve_do_debug_trace`. What the format and its arguments come to
-- is an argument here; `none` is a failure of `vsnprintf`.
use libsieve.Prelude.{ℕ, Option, none, some, Text, codes, length, take, ltb, if◌then◌else◌, ℤ}
use libsieve.Run.{Run, ok, ◌>>=◌, sieve2_ok}
use libsieve.Context.Values.{debug_trace}
use libsieve.Context.State.{Context, Client}
use libsieve.Callbacks.Brackets.{set_text, set_number, whole_call}

abbrev not_available : Text
not_available = codes "A Sieve error occurred, but the error message is not available."

-- What the buffer holds: `vsnprintf` is given 1023 bytes and answers with the length of the whole text.
unfoldable pub trace_message : Option Text → Text
trace_message none = not_available
trace_message (some formatted) =
    if ltb 1023 (length formatted) then not_available else take 1022 formatted

-- A null pointer for the context is passed over.
unfoldable pub do_debug_trace :
    {W : Type 0}
    → Client W
    → ℤ
    → Option Text
    → Option Text
    → Option Text
    → Option Text
    → Option (Context W)
    → Run (ℕ × Option (Context W))
unfolding trace_message
do_debug_trace respond level module_ file function_ formatted none = ok (sieve2_ok, none)
do_debug_trace respond level module_ file function_ formatted (some c) = elim c.callbacks.trace [
  | none ↦ ok (sieve2_ok, some c)
  | some handler ↦ do
    c' ←
        whole_call respond debug_trace
          (λ b. set_text "message" (some (trace_message formatted)) (
            set_text "function" function_
              (set_text "file" file (set_text "module" module_ (set_number "level" level b)))))
          c
    ok (sieve2_ok, some c')
]
