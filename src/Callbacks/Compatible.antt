-- ===== src/Callbacks/Compatible.antt =====
-- src/sv_interface/callbacks2.c: which actions exclude one another.
use libsieve.Prelude.{
  ℕ, Bool, true, false, Option, List, [], ◌∷◌, Text, ℤ, ◌≡◌, ◌⊎◌, inl, inr, refl, arith,
  if◌then◌else◌,
}
use libsieve.Run.{
  Run, ok, ◌>>=◌, Ensures, Ensures-any, Ensures-mono, Ensures-bind, sieve2_ok, error_exec,
}
use libsieve.Tree.Stringlist.{Stringlist, stringlist_to_chararray}
use libsieve.Context.Values.{Code}
use libsieve.Context.Brackets.{IsClosed}
use libsieve.Context.State.{Actions, Context, Client}
use libsieve.Callbacks.Brackets.{whole_call}
use libsieve.Callbacks.Actions.{
  excludes_reject, flags_of, do_reject, do_fileinto, do_redirect, do_keep, do_discard, do_vacation,
  do_notify,
}
use libsieve.Callbacks.Fills.{vacation_fill-Keeps, notify_fill-Keeps}
use libsieve.Callbacks.Frame.{
  Keeps, Keeps-refl, Keeps-trans, set_text-Keeps, set_texts-Keeps, Leaves, whole_call-Leaves,
}

-- An action with the arguments that the evaluator passes on.
pub data Action : Type 0 where
  reject : Option Text → Action
  fileinto : Option Text → Stringlist → Action
  redirect : Option Text → Action
  keep : Stringlist → Action
  discard : Action
  vacation : Option Text → Option Text → Option Text → Option Text → Option Text → ℤ → ℤ → Action
  notify : Option Text → Option Text → Stringlist → Option Text → Option Text → Action

-- The rules of the comments in the source: what has been taken before that an action is
-- incompatible with.
abbrev pub conflicts : Action → Actions → Bool
conflicts (reject _) a = excludes_reject a
conflicts (fileinto _ _) a = a.reject
conflicts (redirect _) a = a.reject
conflicts (keep _) a = a.reject
conflicts discard a = false
conflicts (vacation _ _ _ _ _ _ _) a = a.reject
conflicts (notify _ _ _ _ _) a = false

-- The record of the actions taken, with this one.
abbrev pub taken : Action → Actions → Actions
taken (reject _) a = record a { reject = true }
taken (fileinto _ _) a = record a { fileinto = true }
taken (redirect _) a = record a { redirect = true }
taken (keep _) a = record a { keep = true }
taken discard a = record a { discard = true }
taken (vacation _ _ _ _ _ _ _) a = record a { vacation = true }
taken (notify _ _ _ _ _) a = record a { notify = true }

module _ {W : Type 0} (respond : Client W) where
  abbrev pub do_action : Action → Context W → Run (ℕ × Context W)
  do_action (reject msg) c = do_reject respond msg c
  do_action (fileinto mbox slflags) c = do_fileinto respond mbox slflags c
  do_action (redirect addr) c = do_redirect respond addr c
  do_action (keep slflags) c = do_keep respond slflags c
  do_action discard c = do_discard respond c
  do_action (vacation addr fromaddr subj msg handle days mime) c =
      do_vacation respond addr fromaddr subj msg handle days mime c
  do_action (notify id method options priority message) c =
      do_notify respond id method options priority message c

  -- An action in conflict is refused and changes nothing. Any other is recorded, changes neither
  -- flags, message nor callbacks, and its call is over.
  abbrev pub Outcome : Action → Context W → ℕ × Context W → Type 0
  Outcome action c (status, d) =
      ((conflicts action c.actions ≡ true) × (status ≡ error_exec) × (d ≡ c))
      ⊎ ((conflicts action c.actions ≡ false)
          × (status ≡ sieve2_ok)
          × Leaves (record c { actions = taken action c.actions }) d)

  -- The part of an action behind its guard.
  unfoldable pub acts : Code → (Context W → Context W) → Context W → Run (ℕ × Context W)
  acts code fill c = do c' ← whole_call respond code fill c; ok (sieve2_ok, c')

  acts-Outcome :
      (action : Action) (code : Code) (fill : Context W → Context W) (c : Context W)
      → ((b : Context W) → Keeps b (fill b))
      → IsClosed c.cur_call
      → conflicts action c.actions ≡ false
      → Ensures (Outcome action c) (acts code fill (record c { actions = taken action c.actions }))
  unfolding acts
  acts-Outcome action code fill c keeps closed free =
      let c' = record c { actions = taken action c.actions } in
      Ensures-bind (Leaves c') (Outcome action c) (whole_call respond code fill c') _
        (whole_call-Leaves respond code fill keeps c' closed) (λ d leaves. inr (free, refl, leaves))

  guard-Outcome :
      (action : Action) (c : Context W) (m : Run (ℕ × Context W)) (b : Bool)
      → conflicts action c.actions ≡ b
      → (conflicts action c.actions ≡ false → Ensures (Outcome action c) m)
      → Ensures (Outcome action c) (if b then ok (error_exec, c) else m)
  guard-Outcome action c m true e h = inl (e, refl, refl)
  guard-Outcome action c m false e h = h e

  with_flags :
      (P : ℕ × Context W → Type 0) (r : Run (Option (List Text)))
      (f : Option (List Text) → Run (ℕ × Context W))
      → ((flags : Option (List Text)) → Ensures P (f flags))
      → Ensures P (r >>= f)
  with_flags P r f h = Ensures-bind (λ _. Unit) P r f (Ensures-any r) (λ flags _. h flags)

  -- Each action does as `Outcome` says, whatever the client's functions answer, wherever no other
  -- call is open.
  pub do_action-Outcome :
      (action : Action) (c : Context W)
      → IsClosed c.cur_call
      → Ensures (Outcome action c) (do_action action c)
  unfolding do_reject do_fileinto do_redirect do_keep do_discard do_vacation do_notify acts
  do_action-Outcome (reject msg) c closed =
      guard-Outcome (reject msg) c _ _ refl
        (acts-Outcome (reject msg) _ _ c (set_text-Keeps "message" msg) closed)
  do_action-Outcome (fileinto mbox slflags) c closed =
      guard-Outcome (fileinto mbox slflags) c _ _ refl λ free.
        with_flags _ (flags_of respond slflags c) _ λ flags.
          acts-Outcome (fileinto mbox slflags) _ _ c
            (λ b. Keeps-trans (set_text-Keeps "mailbox" mbox b) (set_texts-Keeps "flags" flags _))
            closed free
  do_action-Outcome (redirect addr) c closed =
      guard-Outcome (redirect addr) c _ _ refl
        (acts-Outcome (redirect addr) _ _ c (set_text-Keeps "address" addr) closed)
  do_action-Outcome (keep slflags) c closed = guard-Outcome (keep slflags) c _ _ refl λ free.
      with_flags _ (flags_of respond slflags c) _
        λ flags. acts-Outcome (keep slflags) _ _ c (set_texts-Keeps "flags" flags) closed free
  do_action-Outcome discard c closed = acts-Outcome discard _ _ c Keeps-refl closed refl
  do_action-Outcome (vacation addr fromaddr subj msg handle days mime) c closed =
      guard-Outcome (vacation addr fromaddr subj msg handle days mime) c _ _ refl (
        acts-Outcome (vacation addr fromaddr subj msg handle days mime) _ _ c
          (vacation_fill-Keeps addr fromaddr subj msg handle days mime) closed)
  do_action-Outcome (notify id method options priority message) c closed =
      with_flags _ (stringlist_to_chararray options) _ λ optionstring.
        acts-Outcome (notify id method options priority message) _ _ c
          (notify_fill-Keeps id method optionstring priority message) closed refl

-- A rejected message was and is neither filed, redirected, kept nor answered.
pub record IsCompatible (a : Actions) : Type 0 where
  pub fileinto : a.reject ≡ true → a.fileinto ≡ false
  pub redirect : a.reject ≡ true → a.redirect ≡ false
  pub keep : a.reject ≡ true → a.keep ≡ false
  pub vacation : a.reject ≡ true → a.vacation ≡ false

taken-IsCompatible :
    (action : Action) (a : Actions)
    → conflicts action a ≡ false
    → IsCompatible a
    → IsCompatible (taken action a)
unfolding excludes_reject
taken-IsCompatible (reject _) a free i = ground arith
taken-IsCompatible _ a free i = ground arith

taken-reject : (action : Action) (a : Actions) → a.reject ≡ true → (taken action a).reject ≡ true
taken-reject (reject _) a h = refl
taken-reject _ a h = h

-- Actions in a row, whatever their statuses.
abbrev pub do_actions : {W : Type 0} → Client W → List Action → Context W → Run (Context W)
do_actions respond [] c = ok c
do_actions respond (action ∷ actions) c = do
  (status, d) ← do_action respond action c
  do_actions respond actions d

-- No call is open, the actions taken are compatible, and a rejection stands.
abbrev pub Follows : {W : Type 0} → Context W → Context W → Type 0
Follows c d =
    IsClosed d.cur_call
    × IsCompatible d.actions
    × (c.actions.reject ≡ true → d.actions.reject ≡ true)

-- From a context with no open call and compatible actions, any actions in a row keep it so, and
-- none takes back a rejection.
pub do_actions-Follows :
    {W : Type 0} (respond : Client W) (actions : List Action) (c : Context W)
    → IsClosed c.cur_call
    → IsCompatible c.actions
    → Ensures (Follows c) (do_actions respond actions c)
do_actions-Follows respond [] c closed i = (closed, i, λ h. h)
do_actions-Follows respond (action ∷ actions) c closed i =
    Ensures-bind (Outcome respond action c) (Follows c) (do_action respond action c) _
      (do_action-Outcome respond action c closed)
      λ (status, d) o. elim o [
        | inl (_, _, same) ↦ rw same (do_actions-Follows respond actions c closed i)
        | inr (free, _, l) ↦
            let i' = taken-IsCompatible action c.actions free i in
            Ensures-mono (Follows d) (Follows c) (do_actions respond actions d)
              (λ e (closed', j, stays).
                (closed', j, λ h. stays (rw l.actions (taken-reject action c.actions h))))
              (do_actions-Follows respond actions d l.closed (rw l.actions i'))
      ]
