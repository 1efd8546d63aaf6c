-- ===== src/Script/Planned.antt =====
-- src/sv_interface/script.c, `libsieve_eval`: a script takes the actions that it means.
use libsieve.Prelude.{
  ℕ, Bool, true, false, List, [], ◌∷◌, ◌++◌, Option, Text, ◌≡◌, refl, sym, ap, ◌∙◌, Bool-cases, inl,
  inr, ◌==◌,
}
use libsieve.Run.{Run, ok, ◌>>=◌, Returns, Returns-bind, Returns-mono, sieve2_ok}
use libsieve.Tree.Stringlist.{of_list}
use libsieve.Context.Brackets.{IsClosed}
use libsieve.Context.State.{Actions, Context}
use libsieve.Callbacks.Frame.{Leaves}
use libsieve.Callbacks.Answers.{Answers}
use libsieve.Callbacks.Compatible.{Action, conflicts, taken, do_action, Outcome}
use libsieve.Callbacks.Compatible
use libsieve.Callbacks.Total.{HasClients, IsLive, LiveArguments, do_action-Returns}
use libsieve.Outside.{Outside}
use libsieve.Script.Syntax.{
  Command, if_test, reject, fileinto, redirect, keep, stop, discard, vacation, setflag, addflag,
  removeflag, notify, other, Commandlist, no_commands, commands,
}
use libsieve.Script.Meaning.{Mail, holds}
use libsieve.Script.Evaltest.{evaltest}
use libsieve.Script.Eval.{Evaluated, acted, eval, eval_command}
use libsieve.Script.Plan.{
  after, only, plan, plan_command, perform, ending, IsSimple, IsSimpleCommand, perform-refused,
  perform-done,
}
use libsieve.Script.Steady.{Tells, Serves, Leaves-refl, evaltest-holds}

IsLive-of_list : (sl : List Text) → IsLive (of_list sl)
IsLive-of_list [] = tt
IsLive-of_list (s ∷ sl) = IsLive-of_list sl

module _ {W : Type 0} where
  -- The context with the record of the actions performed.
  abbrev pub recorded : Actions → Context W → Context W
  recorded a c = record c { actions = a }

  -- The status is that of the actions, which are recorded, and otherwise only the values of the
  -- current call and the client's state differ.
  abbrev pub Concludes : List Action × Bool → Context W → Evaluated W → Type 0
  Concludes (actions, stops) c e =
      (e.res ≡ ending (perform actions c.actions).0 stops)
      × Leaves (recorded (perform actions c.actions).1 c) e.context

  -- The callbacks are the client's.
  pub record Ready (a b : ℕ) (flags : List Text) (c : Context W) : Type 0 where
    pub serves : Serves a b flags c
    pub clients : HasClients c.callbacks

  pub Ready-Leaves :
      {a b : ℕ} {flags : List Text} {c d : Context W} (actions : Actions)
      → Ready a b flags c
      → Leaves (recorded actions c) d
      → Ready a b flags d
  Ready-Leaves actions r l = record {
    serves = record {
      closed = l.closed;
      getheader = ap (λ cb. cb.getheader) l.callbacks ∙ r.serves.getheader;
      getsize = ap (λ cb. cb.getsize) l.callbacks ∙ r.serves.getsize;
      slflags = l.slflags ∙ r.serves.slflags;
    };
    clients = rw l.callbacks r.clients;
  }

  Concludes-Leaves :
      (planned : List Action × Bool) {c d : Context W}
      → Leaves c d
      → (e : Evaluated W) → Concludes planned d e
      → Concludes planned c e
  Concludes-Leaves (xs, stops) first e (status, leaves) = rw (ap (perform xs) (sym first.actions)) (
    status,
    record {
      message = leaves.message ∙ first.message;
      slflags = leaves.slflags ∙ first.slflags;
      callbacks = leaves.callbacks ∙ first.callbacks;
      actions = leaves.actions;
      closed = leaves.closed;
    },
  )

  Returns-Leaves :
      (planned : List Action × Bool) {c d : Context W} (m : Run (Evaluated W))
      → Leaves c d
      → Returns (Concludes planned d) m
      → Returns (Concludes planned c) m
  Returns-Leaves planned {c} {d} m first h =
      Returns-mono (Concludes planned d) (Concludes planned c) m (Concludes-Leaves planned first) h

  Concludes-nothing :
      (stops : Bool) (errmsg : Option Text) (c : Context W)
      → IsClosed c.cur_call
      → Concludes ([], stops) c (record { res = ending false stops; errmsg = errmsg; context = c })
  unfolding perform
  Concludes-nothing stops errmsg c closed = (refl, Leaves-refl c closed)

  module _ {R : Type 0} (o : Outside R W) where
    -- An action by itself.
    Concludes-action :
        (action : Action) (f : ℕ × Context W → Evaluated W) (c : Context W)
        → ((r : ℕ × Context W) → ((f r).res ≡ r.0) × ((f r).context ≡ r.1))
        → IsClosed c.cur_call
        → LiveArguments action
        → IsLive c.slflags
        → HasClients c.callbacks
        → Returns (Concludes (only action) c) (do_action o.respond action c >>= λ r. ok (f r))
    unfolding perform
    Concludes-action action f c keeps closed a l h =
        Returns-bind (Outcome o.respond action c) (Concludes (only action) c)
          (do_action o.respond action c) _ (do_action-Returns o.respond action c closed a l h)
          (λ (status, d) outcome. elim outcome [
            | inl (hit, failed, same) ↦ rw (hit) (
              (keeps (status, d)).0 ∙ failed,
              rw ((keeps (status, d)).1, same) (Leaves-refl c closed),
            )
            | inr (miss, done, leaves) ↦
                rw (miss) ((keeps (status, d)).0 ∙ done, rw ((keeps (status, d)).1) leaves)
          ])

    -- The rest of a script, behind a command.
    abbrev continues : Commandlist R → Evaluated W → Run (Evaluated W)
    continues next e = elim (e.res == sieve2_ok) [
      | true ↦ eval o next e.errmsg e.context
      | false ↦ ok e
    ]

    is_ok :
        (stops : Bool) {refused b : Bool} {res : ℕ}
        → res ≡ ending refused stops
        → refused ≡ b
        → (res == sieve2_ok) ≡ (ending b stops == sieve2_ok)
    is_ok stops e h = ap (λ n. n == sieve2_ok) (e ∙ ap (λ r. ending r stops) h)

    continues-ok :
        (next : Commandlist R) (e : Evaluated W)
        → (e.res == sieve2_ok) ≡ true
        → continues next e ≡ eval o next e.errmsg e.context
    continues-ok next e h = rw (continues, h) refl

    continues-stops :
        (next : Commandlist R) (e : Evaluated W)
        → (e.res == sieve2_ok) ≡ false
        → continues next e ≡ ok e
    continues-stops next e h = rw (continues, h) refl

    Concludes-refused :
        (xs ys : List Action) (stops stops' : Bool) (c : Context W) (e : Evaluated W)
        → (perform xs c.actions).0 ≡ true
        → Concludes (xs, stops) c e
        → Concludes (xs ++ ys, stops') c e
    Concludes-refused xs ys stops stops' c e hit (status, leaves) =
        rw (perform-refused xs ys c.actions hit, hit)
          (status ∙ ap (λ r. ending r stops) hit, leaves)

    Concludes-append :
        (xs ys : List Action) (stops : Bool) (c d : Context W) (e : Evaluated W)
        → (perform xs c.actions).0 ≡ false
        → Leaves (recorded (perform xs c.actions).1 c) d
        → Concludes (ys, stops) d e
        → Concludes (xs ++ ys, stops) c e
    Concludes-append xs ys stops c d e miss first (status, leaves) =
        let performed = perform-done xs ys c.actions miss ∙ ap (perform ys) (sym first.actions) in
        rw performed (
          status,
          record {
            message = leaves.message ∙ first.message;
            slflags = leaves.slflags ∙ first.slflags;
            callbacks = leaves.callbacks ∙ first.callbacks;
            actions = leaves.actions;
            closed = leaves.closed;
          },
        )

    Concludes-after :
        (now later : List Action × Bool) (next : Commandlist R) (c : Context W) (e : Evaluated W)
        → Concludes now c e
        → ((d : Context W)
            → Leaves (recorded (perform now.0 c.actions).1 c) d
            → (errmsg : Option Text) → Returns (Concludes later d) (eval o next errmsg d))
        → Returns (Concludes (after now later) c) (continues next e)
    Concludes-after (xs, true) later next c e h k = elim (Bool-cases (perform xs c.actions).0) [
      | inl hit ↦ rw (continues-stops next e (is_ok true h.0 hit)) h
      | inr miss ↦ rw (continues-stops next e (is_ok true h.0 miss)) h
    ]
    Concludes-after (xs, false) (ys, stops) next c e h k =
        elim (Bool-cases (perform xs c.actions).0) [
          | inl hit ↦
              rw (continues-stops next e (is_ok false h.0 hit))
                (Concludes-refused xs ys false stops c e hit h)
          | inr miss ↦ rw (continues-ok next e (is_ok false h.0 miss)) (
              Returns-mono (Concludes (ys, stops) e.context) (Concludes (xs ++ ys, stops) c) _
                (λ d l. Concludes-append xs ys stops c e.context d miss h.1 l)
                (k e.context h.1 e.errmsg))
        ]

module _ {R W : Type 0} (o : Outside R W) (a b : ℕ) (mail : Mail) (tells : Tells o.respond a b mail)
    (flags : List Text) where
  IsLive-Ready : (c : Context W) → Ready a b flags c → IsLive c.slflags
  IsLive-Ready c r = rw r.serves.slflags (IsLive-of_list flags)

  Ready-action :
      (action : Action) (f : ℕ × Context W → Evaluated W)
      → ((r : ℕ × Context W) → ((f r).res ≡ r.0) × ((f r).context ≡ r.1))
      → (c : Context W) → LiveArguments action
      → Ready a b flags c
      → Returns (Concludes (only action) c) (do_action o.respond action c >>= λ r. ok (f r))
  Ready-action action f keeps c l r =
      Concludes-action o action f c keeps r.serves.closed l (IsLive-Ready c r) r.clients

  mutual
    unfolding eval plan acted

    script-Concludes :
        (cmds : Commandlist R) (errmsg : Option Text) (c : Context W)
        → IsSimple o cmds
        → Ready a b flags c
        → Returns (Concludes (plan o mail flags cmds) c) (eval o cmds errmsg c)
    script-Concludes no_commands errmsg c s r = Concludes-nothing false errmsg c r.serves.closed
    script-Concludes (commands cmd next) errmsg c s r =
        Returns-bind (Concludes (plan_command o mail flags cmd) c)
          (Concludes (plan o mail flags (commands cmd next)) c) (eval_command o cmd errmsg c)
          (continues o next) (command-Concludes cmd errmsg c s.0 r)
          (λ e h.
            Concludes-after o (plan_command o mail flags cmd) (plan o mail flags next) next c e h
              (λ d l errmsg'. script-Concludes next errmsg' d s.1 (Ready-Leaves _ r l)))

    command-Concludes :
        (cmd : Command R) (errmsg : Option Text) (c : Context W)
        → IsSimpleCommand o cmd
        → Ready a b flags c
        → Returns (Concludes (plan_command o mail flags cmd) c) (eval_command o cmd errmsg c)
    command-Concludes (if_test t do_then do_else) errmsg c s r =
        Returns-bind (Answers c (holds o mail flags t))
          (Concludes (plan_command o mail flags (if_test t do_then do_else)) c) (evaltest o t c) _
          (evaltest-holds o a b mail flags t c tells s.0 r.serves)
          (λ (z, d) (e, l).
            let ready = Ready-Leaves c.actions r l in
            rw e (elim (Bool-cases (holds o mail flags t)) [
              | inl hit ↦ rw hit (
                  Returns-Leaves (plan o mail flags do_then) _ l
                    (script-Concludes do_then errmsg d s.1 ready))
              | inr miss ↦ rw miss (
                  Returns-Leaves (plan o mail flags do_else) _ l
                    (script-Concludes do_else errmsg d s.2 ready))
            ]))
    command-Concludes (reject str) errmsg c s r =
        Ready-action (Compatible.reject str) _ (λ r. (refl, refl)) c tt r
    command-Concludes (fileinto mailbox slflags) errmsg c s r =
        Ready-action (Compatible.fileinto mailbox (of_list slflags)) _ (λ r. (refl, refl)) c
          (IsLive-of_list slflags) r
    command-Concludes (redirect str) errmsg c s r =
        Ready-action (Compatible.redirect str) _ (λ r. (refl, refl)) c tt r
    command-Concludes (keep slflags) errmsg c s r =
        Ready-action (Compatible.keep (of_list slflags)) _ (λ r. (refl, refl)) c
          (IsLive-of_list slflags) r
    command-Concludes stop errmsg c s r = Concludes-nothing true errmsg c r.serves.closed
    command-Concludes discard errmsg c s r =
        Ready-action Compatible.discard _ (λ r. (refl, refl)) c tt r
    command-Concludes (vacation v) errmsg c s r = absurd s
    command-Concludes (setflag sl) errmsg c s r = absurd s
    command-Concludes (addflag sl) errmsg c s r = absurd s
    command-Concludes (removeflag sl) errmsg c s r = absurd s
    command-Concludes (notify id method options priority message) errmsg c s r =
        Ready-action (Compatible.notify id method (of_list options) priority message) _
          (λ r. (refl, refl)) c (IsLive-of_list options) r
    command-Concludes other errmsg c s r = Concludes-nothing false errmsg c r.serves.closed

pub eval-plan :
    {R W : Type 0} (o : Outside R W) (a b : ℕ) (mail : Mail) (flags : List Text)
    (cmds : Commandlist R) (errmsg : Option Text) (c : Context W)
    → Tells o.respond a b mail
    → IsSimple o cmds
    → Ready a b flags c
    → Returns (Concludes (plan o mail flags cmds) c) (eval o cmds errmsg c)
eval-plan o a b mail flags cmds errmsg c tells s r =
    script-Concludes o a b mail tells flags cmds errmsg c s r
