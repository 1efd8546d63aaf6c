-- ===== src/Interface/Execute.antt =====
-- src/sv_interface/script2.c: validation and execution. The context is not null; no assertion of the
-- builders fails, so nothing is thrown.
use libsieve.Prelude.{
  ℕ, pos, ltb_ℤ, ◌==◌, ltb, true, false, [], Option, none, some, Text, if◌then◌else◌,
}
use libsieve.Run.{
  Run, ok, fault, null_pointer, ◌>>=◌, sieve2_ok, error_not_finalized, error_parse, error_header,
  error_getscript, error_exec,
}
use libsieve.Context.State.{message2_getheader, Callbacks, Context}
use libsieve.Callbacks.Queries.{do_getscript, do_getallheaders}
use libsieve.Outside.{Outside}
use libsieve.Script.Syntax.{Commandlist, no_commands}
use libsieve.Script.Eval.{eval}
use libsieve.Interface.Register.{Support}
use libsieve.Interface.Parsers.{Parsers, script_errors, parse_headers}

-- A context with the members that only these functions use. The tree of an execution is read by no
-- later call.
pub record Session (W : Type 0) : Type 0 where
  pub context : Context W
  pub support : Support
  pub require : Support
  pub parse_errors : ℕ
  pub error_count : ℕ
  pub script : Option Text

-- The session with another context.
abbrev with_context : {W : Type 0} → Session W → Context W → Session W
with_context s c = record s { context = c }

-- `libsieve_eval(…) < 0`, and what it comes to. Nothing is caught: the only assertions behind the `try`
-- compare the token that a production passes to its builder with that token.
unfoldable pub eval_status : ℕ → ℕ
eval_status res = if ltb_ℤ (pos res) (pos 0) then error_exec else sieve2_ok

module _ {R W : Type 0} (o : Outside R W) (p : Parsers R) where
  -- The user's data and the reset of the counts.
  unfoldable pub begin_session : W → Session W → Session W
  begin_session user_data s = record s {
    context = record (s.context) { user_data = user_data };
    error_count = 0;
  }

  unfoldable pub fetch_script : Session W → Run (ℕ × Session W)
  fetch_script s = do
    ((status, (script, length)), called) ← do_getscript o.respond (some []) (some []) s.context
    ok (status, record s { context = called; script = script })

  -- `libsieve_sieve_parse_buffer`.
  unfoldable pub parse_script : Text → Session W → Run (Commandlist R × Session W)
  parse_script text s = do
    let parsed = p.sieveparse s.support s.require text
    (parse_errors, called) ← script_errors o.respond p parsed.reports s.parse_errors s.context
    ok (
      if parsed.fails then no_commands else parsed.cmds,
      record s { context = called; require = parsed.require; parse_errors = parse_errors },
    )

  unfoldable pub parse_buffer : Session W → Run (Commandlist R × Session W)
  unfolding parse_script
  parse_buffer s = elim s.script [ none ↦ fault null_pointer | some text ↦ parse_script text s ]

  unfoldable pub sieve2_validate : W → Session W → Run (ℕ × Session W)
  unfolding begin_session fetch_script parse_buffer
  sieve2_validate user_data s = do
    (status, fetched) ← fetch_script (begin_session user_data s)
    elim (status == sieve2_ok) [
      | false ↦ ok (error_getscript, fetched)
      | true ↦ do
        (cmds, parsed) ← parse_buffer fetched
        ok (if ltb 0 parsed.error_count then error_parse else sieve2_ok, parsed)
    ]

  -- The headers that the client gives are parsed, for the library's own function.
  unfoldable pub take_headers : ℕ × Option Text → Context W → Run (ℕ × Context W)
  take_headers (status, header) called = elim (status == sieve2_ok) [
    | false ↦ ok (error_header, called)
    | true ↦
        parse_headers o.respond p (record called {
          message = record (called.message) { header = header };
          callbacks = record (called.callbacks) { getheader = some message2_getheader };
        })
        >>= λ (status', filled).
            ok (if status' == sieve2_ok then sieve2_ok else error_header, filled)
  ]

  unfoldable pub own_headers : Context W → Run (ℕ × Context W)
  unfolding take_headers
  own_headers c = do_getallheaders o.respond c >>= λ (answer, called). take_headers answer called

  unfoldable pub prepare_headers : Callbacks → Context W → Run (ℕ × Context W)
  unfolding own_headers
  prepare_headers cb c = elim cb.getheader [
    | some handler ↦ ok (sieve2_ok, c)
    | none ↦ elim cb.getallheaders [
      | none ↦ ok (error_not_finalized, c)
      | some handler ↦ own_headers c
    ]
  ]

  unfoldable pub run_script : Session W → Run (ℕ × Session W)
  unfolding parse_buffer eval_status
  run_script s = do
    (cmds, parsed) ← parse_buffer s
    elim (ltb 0 parsed.error_count) [
      | true ↦ ok (error_parse, parsed)
      | false ↦ eval o cmds none parsed.context >>= λ e.
          ok (eval_status e.res, with_context parsed e.context)
    ]

  unfoldable pub sieve2_execute : W → Session W → Run (ℕ × Session W)
  unfolding begin_session fetch_script prepare_headers run_script
  sieve2_execute user_data s = do
    (status, fetched) ← fetch_script (begin_session user_data s)
    elim (status == sieve2_ok) [
      | false ↦ ok (error_getscript, fetched)
      | true ↦ do
        (status', prepared) ← prepare_headers fetched.context.callbacks fetched.context
        elim (status' == sieve2_ok) [
          | true ↦ run_script (with_context fetched prepared)
          | false ↦ ok (status', with_context fetched prepared)
        ]
    ]
