-- ===== src/Callbacks/Total.antt =====
-- src/sv_interface/callbacks2.c: no action faults, as long as its flags are in live memory and the
-- callbacks of the actions are the client's.
use libsieve.Prelude.{
  ℕ, Bool, true, false, Option, none, some, List, [], ◌∷◌, Text, ◌≡◌, ◌≢◌, refl, ap, inl, inr,
  if◌then◌else◌,
}
use libsieve.Run.{
  Run, ok, ◌>>=◌, Returns, Returns-of_parts, Succeeds-of_Returns, Succeeds, Succeeds-bind,
  sieve2_ok, error_exec,
}
use libsieve.Tree.Stringlist.{Stringlist, null, node, freed, of_list, stringlist_to_chararray}
use libsieve.Tree.Chararray.{stringlist_to_chararray-of_list}
use libsieve.Context.Values.{
  Code, message_getheader, action_reject, action_fileinto, action_redirect, action_keep,
  action_discard, action_vacation, action_notify,
}
use libsieve.Context.Brackets.{IsClosed}
use libsieve.Context.State.{
  Handler, client, message2_getheader, Callbacks, Context, Client, handler_of, call_handler,
  callback_do,
}
use libsieve.Callbacks.Brackets.{set_text, set_texts, begin_call, open_call, whole_call}
use libsieve.Callbacks.Actions.{
  flags_of, do_reject, do_fileinto, do_redirect, do_keep, do_discard, do_vacation, do_notify,
}
use libsieve.Callbacks.Fills.{vacation_fill, vacation_fill-Keeps, notify_fill, notify_fill-Keeps}
use libsieve.Callbacks.Frame.{Keeps, Keeps-refl, Keeps-trans, set_text-Keeps, set_texts-Keeps}
use libsieve.Callbacks.Compatible.{
  Action, reject, fileinto, redirect, keep, discard, vacation, notify, conflicts, taken, acts,
  do_action, Outcome, do_action-Outcome, IsCompatible, do_actions, Follows, do_actions-Follows,
}

-- No node of the list was freed.
abbrev pub IsLive : Stringlist → Type 0
IsLive null = Unit
IsLive (node s next) = IsLive next
IsLive freed = ⊥

IsLive-of_list : (sl : Stringlist) → IsLive sl → (strings : List Text) × (sl ≡ of_list strings)
IsLive-of_list null h = ([], refl)
IsLive-of_list (node s next) h =
    let (strings, e) = IsLive-of_list next h in (s ∷ strings, ap (node s) e)
IsLive-of_list freed h = absurd h

stringlist_to_chararray-Succeeds :
    (sl : Stringlist) → IsLive sl → Succeeds (stringlist_to_chararray sl)
stringlist_to_chararray-Succeeds null h = rw (stringlist_to_chararray-of_list [] []).0 tt
stringlist_to_chararray-Succeeds (node s next) h =
    let (strings, e) = IsLive-of_list next h in
    rw (e, (stringlist_to_chararray-of_list s strings).1) tt
stringlist_to_chararray-Succeeds freed h = absurd h

-- A handler that is the client's, or none.
abbrev pub IsClient : Option Handler → Type 0
IsClient none = Unit
IsClient (some (client address)) = Unit
IsClient (some message2_getheader) = ⊥

-- The library's own handler is in no place but that of `getheader`.
abbrev pub HasClients : Callbacks → Type 0
HasClients cb = (code : Code) → code ≢ message_getheader → IsClient (handler_of code cb)

-- The lists among an action's arguments.
abbrev pub LiveArguments : Action → Type 0
LiveArguments (fileinto mbox slflags) = IsLive slflags
LiveArguments (keep slflags) = IsLive slflags
LiveArguments (notify id method options priority message) = IsLive options
LiveArguments _ = Unit

-- The arguments of each action.
abbrev pub AllLive : List Action → Type 0
AllLive [] = Unit
AllLive (action ∷ actions) = LiveArguments action × AllLive actions

module _ {W : Type 0} (respond : Client W) where
  call_handler-Succeeds :
      (o : Option Handler) (c : Context W) → IsClient o → Succeeds (call_handler respond o c)
  unfolding call_handler
  call_handler-Succeeds none c h = tt
  call_handler-Succeeds (some (client address)) c h = tt
  call_handler-Succeeds (some message2_getheader) c h = absurd h

  whole_call-Succeeds :
      (code : Code) (fill : Context W → Context W) (c : Context W)
      → ((b : Context W) → Keeps b (fill b))
      → IsClient (handler_of code c.callbacks)
      → Succeeds (whole_call respond code fill c)
  unfolding whole_call open_call callback_do begin_call
  whole_call-Succeeds code fill c keeps h =
      let begun = begin_call code c in
      Succeeds-bind _ _
        (Succeeds-bind _ _
          (call_handler-Succeeds (handler_of code (fill begun).callbacks) (fill begun)
            (rw (keeps begun).callbacks h))
          (λ r _. tt))
        (λ d _. tt)

  -- The part of an action behind its guard.
  acts-Succeeds :
      (action : Action) (code : Code) (fill : Context W → Context W) (c : Context W)
      → ((b : Context W) → Keeps b (fill b))
      → IsClient (handler_of code c.callbacks)
      → Succeeds (acts respond code fill (record c { actions = taken action c.actions }))
  unfolding acts
  acts-Succeeds action code fill c keeps h =
      let c' = record c { actions = taken action c.actions } in
      Succeeds-bind (whole_call respond code fill c') (λ d. ok (sieve2_ok, d))
        (whole_call-Succeeds code fill c' keeps h) (λ d _. tt)

  guard-Succeeds :
      (c : Context W) (b : Bool) (m : Run (ℕ × Context W))
      → Succeeds m
      → Succeeds (if b then ok (error_exec, c) else m)
  guard-Succeeds c true m h = tt
  guard-Succeeds c false m h = h

  with_flags-Succeeds :
      (r : Run (Option (List Text))) (f : Option (List Text) → Run (ℕ × Context W))
      → Succeeds r
      → ((flags : Option (List Text)) → Succeeds (f flags))
      → Succeeds (r >>= f)
  with_flags-Succeeds r f h k = Succeeds-bind r f h (λ flags _. k flags)

  flags_of-Succeeds :
      (slflags : Stringlist) (c : Context W)
      → IsLive slflags
      → IsLive c.slflags
      → Succeeds (flags_of respond slflags c)
  unfolding flags_of
  flags_of-Succeeds null c h l = stringlist_to_chararray-Succeeds c.slflags l
  flags_of-Succeeds (node s next) c h l = stringlist_to_chararray-Succeeds (node s next) h
  flags_of-Succeeds freed c h l = absurd h

  do_action-Succeeds :
      (action : Action) (c : Context W)
      → LiveArguments action
      → IsLive c.slflags
      → HasClients c.callbacks
      → Succeeds (do_action respond action c)
  unfolding do_reject do_fileinto do_redirect do_keep do_discard do_vacation do_notify acts
  do_action-Succeeds (reject msg) c a l h = guard-Succeeds c (conflicts (reject msg) c.actions) _ (
      acts-Succeeds (reject msg) action_reject (set_text "message" msg) c
        (set_text-Keeps "message" msg) (h action_reject (λ e. cc)))
  do_action-Succeeds (fileinto mbox slflags) c a l h =
      guard-Succeeds c (conflicts (fileinto mbox slflags) c.actions) _ (
        with_flags-Succeeds (flags_of respond slflags c) _ (flags_of-Succeeds slflags c a l)
          λ flags.
            acts-Succeeds (fileinto mbox slflags) action_fileinto
              (λ b. set_texts "flags" flags (set_text "mailbox" mbox b)) c
              (λ b. Keeps-trans (set_text-Keeps "mailbox" mbox b) (set_texts-Keeps "flags" flags _))
              (h action_fileinto (λ e. cc)))
  do_action-Succeeds (redirect addr) c a l h =
      guard-Succeeds c (conflicts (redirect addr) c.actions) _ (
        acts-Succeeds (redirect addr) action_redirect (set_text "address" addr) c
          (set_text-Keeps "address" addr) (h action_redirect (λ e. cc)))
  do_action-Succeeds (keep slflags) c a l h =
      guard-Succeeds c (conflicts (keep slflags) c.actions) _ (
        with_flags-Succeeds (flags_of respond slflags c) _ (flags_of-Succeeds slflags c a l)
          λ flags.
            acts-Succeeds (keep slflags) action_keep (set_texts "flags" flags) c
              (set_texts-Keeps "flags" flags) (h action_keep (λ e. cc)))
  do_action-Succeeds discard c a l h =
      acts-Succeeds discard action_discard (λ b. b) c Keeps-refl (h action_discard (λ e. cc))
  do_action-Succeeds (vacation addr fromaddr subj msg handle days mime) c a l h =
      guard-Succeeds c (conflicts (vacation addr fromaddr subj msg handle days mime) c.actions) _ (
        acts-Succeeds (vacation addr fromaddr subj msg handle days mime) action_vacation
          (vacation_fill addr fromaddr subj msg handle days mime) c
          (vacation_fill-Keeps addr fromaddr subj msg handle days mime)
          (h action_vacation (λ e. cc)))
  do_action-Succeeds (notify id method options priority message) c a l h =
      with_flags-Succeeds (stringlist_to_chararray options) _
        (stringlist_to_chararray-Succeeds options a)
        λ optionstring.
          acts-Succeeds (notify id method options priority message) action_notify
            (notify_fill id method optionstring priority message) c
            (notify_fill-Keeps id method optionstring priority message) (h action_notify (λ e. cc))

  pub do_action-Returns :
      (action : Action) (c : Context W)
      → IsClosed c.cur_call
      → LiveArguments action
      → IsLive c.slflags
      → HasClients c.callbacks
      → Returns (Outcome respond action c) (do_action respond action c)
  do_action-Returns action c closed a l h =
      Returns-of_parts (Outcome respond action c) (do_action respond action c)
        (do_action-Succeeds action c a l h) (do_action-Outcome respond action c closed)

  do_actions-Succeeds :
      (actions : List Action) (c : Context W)
      → IsClosed c.cur_call
      → AllLive actions
      → IsLive c.slflags
      → HasClients c.callbacks
      → Succeeds (do_actions respond actions c)
  do_actions-Succeeds [] c closed a l h = tt
  do_actions-Succeeds (action ∷ actions) c closed a l h =
      Succeeds-of_Returns (Outcome respond action c) (do_action respond action c) _
        (do_action-Returns action c closed a.0 l h)
        λ (status, d) o. elim o [
          | inl (_, _, same) ↦ rw same (do_actions-Succeeds actions c closed a.1 l h)
          | inr (_, _, leaves) ↦
              do_actions-Succeeds actions d leaves.closed a.1 (rw leaves.slflags l)
                (rw leaves.callbacks h)
        ]

  -- With no open call, compatible actions taken so far, flags in live memory and no handler but the
  -- client's in the places of the actions, any sequence of actions returns. Afterwards no call is
  -- open, a rejected message was neither filed, redirected, kept nor answered, and a rejection
  -- recorded before is still recorded.
  pub do_actions-Returns :
      (actions : List Action) (c : Context W)
      → IsClosed c.cur_call
      → IsCompatible c.actions
      → AllLive actions
      → IsLive c.slflags
      → HasClients c.callbacks
      → Returns (Follows c) (do_actions respond actions c)
  do_actions-Returns actions c closed i a l h =
      Returns-of_parts (Follows c) (do_actions respond actions c)
        (do_actions-Succeeds actions c closed a l h) (do_actions-Follows respond actions c closed i)
