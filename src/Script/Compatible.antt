-- ===== src/Script/Compatible.antt =====
-- src/sv_interface/script.c, `libsieve_eval`: no script takes actions that exclude one another.
use libsieve.Prelude.{
  ℕ, Bool, true, false, [], ◌∷◌, Option, none, some, Text, ◌≡◌, refl, ◌==◌, codes,
}
use libsieve.Run.{
  Run, ok, fault, ◌>>=◌, Ensures, Ensures-any, Ensures-mono, Ensures-bind, Ensures-branch,
  sieve2_ok,
}
use libsieve.Tree.Stringlist.{Stringlist, of_list}
use libsieve.Context.Brackets.{IsClosed}
use libsieve.Context.State.{Context}
use libsieve.Callbacks.Actions.{do_vacation}
use libsieve.Callbacks.Compatible
use libsieve.Callbacks.Compatible.{
  Action, do_action, IsCompatible, do_actions, Follows, do_actions-Follows,
}
use libsieve.Outside.{Outside}
use libsieve.Script.Flags
use libsieve.Script.Syntax.{
  Vacation, Command, if_test, reject, fileinto, redirect, keep, stop, discard, vacation, setflag,
  addflag, removeflag, notify, other, Commandlist, no_commands, commands,
}
use libsieve.Script.Refusal.{first_address, store_sender, list_headers, may_reply}
use libsieve.Script.Vacation.{subject_of, handle_of, respond_to, consider, vacation_command}
use libsieve.Script.Eval.{Evaluated, acted, flagged, eval, eval_command}
use libsieve.Script.Quiet.{
  Quiet, Quiet-of_Harmless, auto_submitted-Quiet, no_list-Quiet, precedence-Quiet,
  first_address-Quiet, address_in-Quiet, envelope_part-Quiet, find_sender-Quiet, subject_of-Quiet,
  store_sender-Quiet,
}
use libsieve.Script.Effects.{evaltest-Leaves}

module _ {R W : Type 0} (o : Outside R W) where
  -- An action, from compatible ones.
  action-Follows :
      (action : Action) (c : Context W)
      → IsClosed c.cur_call
      → IsCompatible c.actions
      → Ensures (λ r. Follows c r.1) (do_action o.respond action c)
  action-Follows action c closed i =
      single (do_action o.respond action c) (do_actions-Follows o.respond (action ∷ []) c closed i)
    where
      single :
          (m : Run (ℕ × Context W))
          → Ensures (Follows c) (m >>= λ (status, d). ok d)
          → Ensures (λ r. Follows c r.1) m
      single (ok r) h = h
      single (fault e) h = tt

  Follows-trans : (c d e : Context W) → Follows c d → Follows d e → Follows c e
  Follows-trans c d e f g = (g.0, g.1, λ h. g.2 (f.2 h))

  Quiet-Follows :
      (c d : Context W)
      → IsCompatible c.actions
      → IsClosed d.cur_call
      → d.actions ≡ c.actions
      → Follows c d
  Quiet-Follows c d i closed same = (closed, rw same i, λ h. rw same h)

  -- Behind a run that leaves the actions as they were.
  Follows-bind :
      {A B : Type 0} (read : B → Context W) (c : Context W) (m : Run (A × Context W))
      (f : A × Context W → Run B)
      → IsCompatible c.actions
      → Quiet c m
      → ((x : A) (d : Context W)
          → IsClosed d.cur_call
          → IsCompatible d.actions
          → Ensures (λ r. Follows d (read r)) (f (x, d)))
      → Ensures (λ r. Follows c (read r)) (m >>= f)
  Follows-bind read c m f i h k =
      Ensures-bind (λ r. IsClosed r.1.cur_call × (r.1.actions ≡ c.actions)) _ m f h
        (λ (x, d) (closed, same).
          Ensures-mono (λ r. Follows d (read r)) _ (f (x, d))
            (λ r later. Follows-trans c d (read r) (Quiet-Follows c d i closed same) later)
            (k x d closed (rw same i)))

  abbrev behind : ℕ × Context W → Context W
  behind r = r.1

  respond_to-Follows :
      (v : Vacation) (reply_to myaddr : Option Text) (c : Context W)
      → IsClosed c.cur_call
      → IsCompatible c.actions
      → Ensures (λ r. Follows c r.1) (respond_to o v reply_to myaddr c)
  unfolding respond_to
  respond_to-Follows v reply_to myaddr c closed i =
      Follows-bind behind c _ _ i (find_sender-Quiet o v myaddr c closed)
        (λ found d closed' i'. at_sender found d closed' i')
    where
      at_sender :
          (found : Option Text) (d : Context W)
          → IsClosed d.cur_call
          → IsCompatible d.actions
          → Ensures {A = ℕ × Context W}
              (λ r. Follows d r.1)
              (elim found [
                | none ↦ ok (sieve2_ok, d)
                | some fromaddr ↦ do
                  (buf, asked) ← subject_of o v d
                  handle ← handle_of v
                  do_vacation o.respond reply_to
                      (some fromaddr)
                      (some buf)
                      (some v.message)
                      (some handle)
                      v.days
                      v.mime
                      asked
              ])
      at_sender none d closed' i' = (closed', i', λ h. h)
      at_sender (some fromaddr) d closed' i' =
          Follows-bind behind d _ _ i' (subject_of-Quiet o v d closed') (λ buf e closed'' i''.
            Ensures-bind (λ _. Unit {0}) (λ r. Follows e r.1) (handle_of v) _ (Ensures-any _)
              (λ handle _.
                action-Follows
                  (Compatible.vacation reply_to (some fromaddr) (some buf) (some v.message)
                    (some handle) v.days v.mime)
                  e closed'' i''))

  -- From the envelope on.
  consider-Follows :
      (there : Bool) (v : Vacation) (c : Context W)
      → IsClosed c.cur_call
      → IsCompatible c.actions
      → Ensures (λ r. Follows c r.1) (consider o there v c)
  unfolding consider
  consider-Follows there v c closed i =
      Follows-bind behind c _ _ i (envelope_part-Quiet o (codes "to") c closed) (λ to c₁ closed₁ i₁.
        Follows-bind behind c₁ _ _ i₁ (address_in-Quiet o to c₁ closed₁) (λ myaddr c₂ closed₂ i₂.
          Follows-bind behind c₂ _ _ i₂ (envelope_part-Quiet o (codes "from") c₂ closed₂)
            (λ from c₃ closed₃ i₃.
              Ensures-bind (λ d. IsClosed d.cur_call × (d.actions ≡ c₃.actions))
                (λ r. Follows c₃ r.1) (store_sender o there from c₃) _
                (store_sender-Quiet o there from c₃ closed₃)
                (λ d (closed', same).
                  Ensures-mono (λ r. Follows d r.1) (λ r. Follows c₃ r.1) _
                    (λ r later. Follows-trans c₃ d r.1 (Quiet-Follows c₃ d i₃ closed' same) later)
                    (from_sender from myaddr d closed' (rw same i₃))))))
    where
      from_sender :
          (from myaddr : Option Text) (d : Context W)
          → IsClosed d.cur_call
          → IsCompatible d.actions
          → Ensures {A = ℕ × Context W}
              (λ r. Follows d r.1)
              (elim from [
                | none ↦ respond_to o v none myaddr d
                | some sender ↦ do
                  (reply_to, e) ← first_address o sender d
                  elim (may_reply reply_to myaddr v.addresses) [
                    | true ↦ respond_to o v reply_to myaddr e
                    | false ↦ ok (sieve2_ok, e)
                  ]
              ])
      from_sender none myaddr d closed' i' = respond_to-Follows v none myaddr d closed' i'
      from_sender (some sender) myaddr d closed' i' =
          Follows-bind behind d _ _ i' (first_address-Quiet o sender d closed')
            (λ reply_to e closed'' i''.
              Ensures-branch (λ r. Follows e r.1) (may_reply reply_to myaddr v.addresses) _ _
                (respond_to-Follows v reply_to myaddr e closed'' i'') (closed'', i'', λ h. h))

  vacation_command-Follows :
      (v : Vacation) (c : Context W)
      → IsClosed c.cur_call
      → IsCompatible c.actions
      → Ensures (λ r. Follows c r.1) (vacation_command o v c)
  unfolding vacation_command
  vacation_command-Follows v c closed i =
      Follows-bind behind c _ _ i (auto_submitted-Quiet o c closed) (λ l c₁ closed₁ i₁.
        Follows-bind behind c₁ _ _ i₁ (no_list-Quiet o list_headers l c₁ closed₁)
          (λ l' c₂ closed₂ i₂.
            Follows-bind behind c₂ _ _ i₂ (precedence-Quiet o l' c₂ closed₂) (λ x c₃ closed₃ i₃.
              Ensures-branch (λ r. Follows c₃ r.1) (x.1 == sieve2_ok) _ _
                (consider-Follows x.0 v c₃ closed₃ i₃) (closed₃, i₃, λ h. h))))

  acted-Follows :
      (m : Run (ℕ × Context W)) (f : ℕ × Context W → Evaluated W) (c : Context W)
      → ((r : ℕ × Context W) → (f r).context ≡ r.1)
      → Ensures (λ r. Follows c r.1) m
      → Ensures (λ e. Follows c e.context) (m >>= λ r. ok (f r))
  acted-Follows m f c same h =
      Ensures-bind (λ r. Follows c r.1) (λ e. Follows c e.context) m _ h (λ r k. rw (same r) k)

  flags-Follows :
      (m : Run Stringlist) (errmsg : Option Text) (c : Context W)
      → IsClosed c.cur_call
      → IsCompatible c.actions
      → Ensures (λ e. Follows c e.context) (m >>= λ slflags. ok (flagged o errmsg c slflags))
  flags-Follows (ok slflags) errmsg c closed i = (closed, i, λ h. h)
  flags-Follows (fault e) errmsg c closed i = tt

  mutual
    unfolding eval acted

    script-Follows :
        (cmds : Commandlist R) (errmsg : Option Text) (c : Context W)
        → IsClosed c.cur_call
        → IsCompatible c.actions
        → Ensures (λ e. Follows c e.context) (eval o cmds errmsg c)
    script-Follows no_commands errmsg c closed i = (closed, i, λ h. h)
    script-Follows (commands cmd next) errmsg c closed i =
        Ensures-bind (λ e. Follows c e.context) (λ e. Follows c e.context)
          (eval_command o cmd errmsg c) _ (command-Follows cmd errmsg c closed i)
          (λ e f.
            Ensures-branch (λ e'. Follows c e'.context) (e.res == sieve2_ok) _ _
              (Ensures-mono (λ e'. Follows e.context e'.context) (λ e'. Follows c e'.context) _
                (λ e' later. Follows-trans c e.context e'.context f later)
                (script-Follows next e.errmsg e.context f.0 f.1))
              f)

    command-Follows :
        (cmd : Command R) (errmsg : Option Text) (c : Context W)
        → IsClosed c.cur_call
        → IsCompatible c.actions
        → Ensures (λ e. Follows c e.context) (eval_command o cmd errmsg c)
    command-Follows (if_test t do_then do_else) errmsg c closed i =
        Follows-bind (λ e. e.context) c _ _ i (Quiet-of_Harmless c _ (evaltest-Leaves o t c closed))
          (λ b d closed' i'.
            Ensures-branch (λ e. Follows d e.context) b _ _
              (script-Follows do_then errmsg d closed' i')
              (script-Follows do_else errmsg d closed' i'))
    command-Follows (reject str) errmsg c closed i =
        acted-Follows _ _ c (λ r. refl) (action-Follows (Compatible.reject str) c closed i)
    command-Follows (fileinto mailbox slflags) errmsg c closed i =
        acted-Follows _ _ c (λ r. refl)
          (action-Follows (Compatible.fileinto mailbox (of_list slflags)) c closed i)
    command-Follows (redirect str) errmsg c closed i =
        acted-Follows _ _ c (λ r. refl) (action-Follows (Compatible.redirect str) c closed i)
    command-Follows (keep slflags) errmsg c closed i =
        acted-Follows _ _ c (λ r. refl)
          (action-Follows (Compatible.keep (of_list slflags)) c closed i)
    command-Follows stop errmsg c closed i = (closed, i, λ h. h)
    command-Follows discard errmsg c closed i =
        acted-Follows _ _ c (λ r. refl) (action-Follows Compatible.discard c closed i)
    command-Follows (vacation v) errmsg c closed i =
        acted-Follows _ _ c (λ r. refl) (vacation_command-Follows v c closed i)
    command-Follows (setflag sl) errmsg c closed i =
        flags-Follows (Flags.setflag (of_list sl) c.slflags) errmsg c closed i
    command-Follows (addflag sl) errmsg c closed i =
        flags-Follows (Flags.addflag (of_list sl) c.slflags) errmsg c closed i
    command-Follows (removeflag sl) errmsg c closed i =
        flags-Follows (Flags.removeflag (of_list sl) c.slflags) errmsg c closed i
    command-Follows (notify id method options priority message) errmsg c closed i =
        acted-Follows _ _ c (λ r. refl)
          (action-Follows (Compatible.notify id method (of_list options) priority message) c closed
            i)
    command-Follows other errmsg c closed i = (closed, i, λ h. h)

-- With no open call and compatible actions taken so far, any script that is evaluated to an end,
-- whatever the client answers, leaves no call open and compatible actions: a rejected message was
-- neither filed, redirected, kept nor answered. A rejection recorded before is still recorded.
pub eval-Follows :
    {R W : Type 0} (o : Outside R W) (cmds : Commandlist R) (errmsg : Option Text) (c : Context W)
    → IsClosed c.cur_call
    → IsCompatible c.actions
    → Ensures (λ e. Follows c e.context) (eval o cmds errmsg c)
eval-Follows o cmds errmsg c closed i = script-Follows o cmds errmsg c closed i
