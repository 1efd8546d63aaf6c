-- ===== src/Callbacks/Actions.antt =====
-- src/sv_interface/callbacks2.c: the actions. A string argument that may be null is an `Option`.
use libsieve.Prelude.{ℕ, Bool, true, ◌||◌, Option, List, Text, ℤ, if◌then◌else◌}
use libsieve.Run.{Run, ok, ◌>>=◌, sieve2_ok, error_exec}
use libsieve.Tree.Stringlist.{Stringlist, null, stringlist_to_chararray}
use libsieve.Context.Values.{
  action_redirect, action_reject, action_discard, action_fileinto, action_keep, action_notify,
  action_vacation, errcall_runtime, errcall_parse, errcall_header, errcall_address,
}
use libsieve.Context.State.{Actions, Context, Client}
use libsieve.Callbacks.Brackets.{set_text, set_texts, set_number, whole_call}

-- The test of `libsieve_do_reject`.
unfoldable pub excludes_reject : Actions → Bool
excludes_reject a =
    a.fileinto || a.redirect || a.keep || a.reject || a.vacation || a.setflag || a.addflag
    || a.removeflag

module _ {W : Type 0} (respond : Client W) where
  unfoldable pub do_reject : Option Text → Context W → Run (ℕ × Context W)
  do_reject msg c = if excludes_reject c.actions then ok (error_exec, c) else do
    c' ←
        whole_call respond action_reject (set_text "message" msg)
          (record c { actions = record (c.actions) { reject = true } })
    ok (sieve2_ok, c')

  -- The flags of the command, or else those of the script so far.
  unfoldable pub flags_of : Stringlist → Context W → Run (Option (List Text))
  flags_of null c = stringlist_to_chararray c.slflags
  flags_of slflags c = stringlist_to_chararray slflags

  unfoldable pub do_fileinto : Option Text → Stringlist → Context W → Run (ℕ × Context W)
  do_fileinto mbox slflags c = if c.actions.reject then ok (error_exec, c) else do
    flags ← flags_of slflags c
    c' ←
        whole_call respond action_fileinto
          (λ b. set_texts "flags" flags (set_text "mailbox" mbox b))
          (record c { actions = record (c.actions) { fileinto = true } })
    ok (sieve2_ok, c')

  unfoldable pub do_redirect : Option Text → Context W → Run (ℕ × Context W)
  do_redirect addr c = if c.actions.reject then ok (error_exec, c) else do
    c' ←
        whole_call respond action_redirect (set_text "address" addr)
          (record c { actions = record (c.actions) { redirect = true } })
    ok (sieve2_ok, c')

  unfoldable pub do_keep : Stringlist → Context W → Run (ℕ × Context W)
  do_keep slflags c = if c.actions.reject then ok (error_exec, c) else do
    flags ← flags_of slflags c
    c' ←
        whole_call respond action_keep (set_texts "flags" flags)
          (record c { actions = record (c.actions) { keep = true } })
    ok (sieve2_ok, c')

  unfoldable pub do_discard : Context W → Run (ℕ × Context W)
  do_discard c = do
    c' ←
        whole_call respond action_discard (λ b. b)
          (record c { actions = record (c.actions) { discard = true } })
    ok (sieve2_ok, c')

  unfoldable pub do_vacation :
      Option Text
      → Option Text
      → Option Text
      → Option Text
      → Option Text
      → ℤ
      → ℤ
      → Context W
      → Run (ℕ × Context W)
  do_vacation addr fromaddr subj msg handle days mime c =
      if c.actions.reject then ok (error_exec, c) else do
        c' ←
            whole_call respond action_vacation
              (λ b. set_number "mime" mime (
                set_number "days" days (
                  set_text "hash" handle (
                    set_text "message" msg (
                      set_text "subject" subj
                        (set_text "fromaddr" fromaddr (set_text "address" addr b)))))))
              (record c { actions = record (c.actions) { vacation = true } })
        ok (sieve2_ok, c')

  unfoldable pub do_notify :
      Option Text
      → Option Text
      → Stringlist
      → Option Text
      → Option Text
      → Context W
      → Run (ℕ × Context W)
  do_notify id method options priority message c = do
    optionstring ← stringlist_to_chararray options
    c' ←
        whole_call respond action_notify
          (λ b. set_text "message" message (
            set_text "priority" priority
              (set_text "method" method (set_text "id" id (set_texts "options" optionstring b)))))
          (record c { actions = record (c.actions) { notify = true } })
    ok (sieve2_ok, c')

  -- The errors are callbacks, too.
  unfoldable pub do_error_exec : Option Text → Context W → Run (ℕ × Context W)
  do_error_exec msg c = do
    c' ← whole_call respond errcall_runtime (set_text "message" msg) c
    ok (sieve2_ok, c')

  unfoldable pub do_error_parse : ℤ → Option Text → Context W → Run (ℕ × Context W)
  do_error_parse lineno msg c = do
    c' ←
        whole_call respond errcall_parse
          (λ b. set_text "message" msg (set_number "lineno" lineno b)) c
    ok (sieve2_ok, c')

  unfoldable pub do_error_address : Option Text → Context W → Run (ℕ × Context W)
  do_error_address msg c = do
    c' ← whole_call respond errcall_address (set_text "message" msg) c
    ok (sieve2_ok, c')

  unfoldable pub do_error_header : ℤ → Option Text → Context W → Run (ℕ × Context W)
  do_error_header lineno msg c = do
    c' ←
        whole_call respond errcall_header
          (λ b. set_text "message" msg (set_number "lineno" lineno b)) c
    ok (sieve2_ok, c')
