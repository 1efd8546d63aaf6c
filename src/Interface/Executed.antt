-- ===== src/Interface/Executed.antt =====
-- src/sv_interface/script2.c, `sieve2_execute`: from the client's script to the actions.
use libsieve.Prelude.{
  ℕ, false, List, [], ◌∷◌, none, some, Text, codes, ltb, ◌≡◌, refl, sym, ap, ap₂, ◌∙◌,
}
use libsieve.Run.{ok, fault, null_pointer, ◌>>=◌, Returns, Returns-bind, Returns-mono, sieve2_ok}
use libsieve.Context.Values.{script_getscript, as_string, set_string}
use libsieve.Context.Exchange.{first_fit}
use libsieve.Context.State.{client, Callbacks, Context, Client}
use libsieve.Callbacks.Frame.{Leaves}
use libsieve.Callbacks.Answers.{told, Answers, do_getscript-client}
use libsieve.Callbacks.Queries.{script_answer, do_getscript}
use libsieve.Outside.{Outside}
use libsieve.Script.Syntax.{Commandlist}
use libsieve.Script.Eval.{eval}
use libsieve.Script.Meaning.{Mail}
use libsieve.Script.Plan.{plan, perform, IsSimple}
use libsieve.Script.Steady.{Tells}
use libsieve.Script.Planned.{recorded, Concludes, Ready, Ready-Leaves, eval-plan}
use libsieve.Interface.Register.{Support}
use libsieve.Interface.Parsers.{ScriptParse, Parsers, script_errors}
use libsieve.Interface.Statuses.{eval_status-ok}
use libsieve.Interface.Execute.{
  Session, begin_session, fetch_script, parse_script, parse_buffer, prepare_headers, run_script,
  sieve2_execute,
}

-- The client's function at the address tells the script, whatever the state.
abbrev pub TellsScript : {W : Type 0} → Client W → ℕ → Text → Type 0
TellsScript {W} respond g text =
    (c : Context W)
    → first_fit as_string (codes "script") (
        told respond g script_getscript
          (set_string (some (codes "path")) (some [])
            ∷ set_string (some (codes "name")) (some [])
            ∷ [])
          c)
      ≡ some text

module _ {R W : Type 0} (o : Outside R W) (p : Parsers R) (text : Text) (cmds : Commandlist R)
    (require : Support) where
  -- What the parser gives for a script that it has nothing to report of.
  abbrev pub accepted : ScriptParse R
  accepted = record { cmds = cmds; require = require; reports = []; fails = false }

  -- The session behind the parse of such a script.
  abbrev parsed : Session W → Session W
  parsed f = record f { require = require }

  parse_buffer-accepted :
      (f : Session W)
      → f.script ≡ some text
      → p.sieveparse f.support f.require text ≡ accepted
      → parse_buffer o p f ≡ ok (cmds, parsed f)
  unfolding parse_buffer parse_script script_errors
  parse_buffer-accepted f h e =
      ap (λ script. elim script [ none ↦ fault null_pointer | some t ↦ parse_script o p t f ]) h
      ∙ rw e refl

  module _ (g a b : ℕ) (mail : Mail) (flags : List Text) (tells : Tells o.respond a b mail)
      (told_script : TellsScript o.respond g text) where
    -- The context is as it was, up to the values and the client's state, and the script is there.
    record Fetched (s : Session W) (r : ℕ × Session W) : Type 0 where
      status : r.0 ≡ sieve2_ok
      leaves : Leaves s.context r.1.context
      support : r.1.support ≡ s.support
      require_so_far : r.1.require ≡ s.require
      script : r.1.script ≡ some text
      error_count : r.1.error_count ≡ s.error_count

    do_getscript-told :
        (c : Context W)
        → Ready a b flags c
        → c.callbacks.getscript ≡ some (client g)
        → Returns
            (Answers c (script_answer (some text)))
            (do_getscript o.respond (some []) (some []) c)
    do_getscript-told c ready h =
        rw (← told_script c) (do_getscript-client o.respond g [] [] c ready.serves.closed h)

    fetch_script-Fetched :
        (s : Session W)
        → Ready a b flags s.context
        → s.context.callbacks.getscript ≡ some (client g)
        → Returns (Fetched s) (fetch_script o p s)
    unfolding fetch_script script_answer
    fetch_script-Fetched s ready h =
        Returns-bind (Answers s.context (script_answer (some text))) (Fetched s)
          (do_getscript o.respond (some []) (some []) s.context) _
          (do_getscript-told s.context ready h)
          (λ (answer, called) (e, l). record {
            status = ap (λ x. x.0) e;
            leaves = l;
            support = refl;
            require_so_far = refl;
            script = ap (λ x. x.1.0) e;
            error_count = refl;
          })

    -- The status is success, and the actions that the script means are recorded.
    abbrev Acts : Context W → ℕ × Session W → Type 0
    Acts c (status, d) =
        (status ≡ sieve2_ok)
        × Leaves (recorded (perform (plan o mail flags cmds).0 c.actions).1 c) d.context

    run_script-Acts :
        (f : Session W)
        → IsSimple o cmds
        → Ready a b flags f.context
        → f.script ≡ some text
        → f.error_count ≡ 0
        → p.sieveparse f.support f.require text ≡ accepted
        → Returns (Acts f.context) (run_script o p f)
    unfolding run_script
    run_script-Acts f simple ready h none_counted e =
        let uncounted = ap (λ n. ltb 0 n) none_counted in
        let planned = plan o mail flags cmds in
        rw (parse_buffer-accepted f h e, ◌>>=◌, uncounted)
          (Returns-bind (Concludes planned f.context) (Acts f.context) (eval o cmds none f.context)
            _ (eval-plan o a b mail flags cmds none f.context tells simple ready)
            (λ d conclusion. (eval_status-ok d.res, conclusion.1)))

    prepare_headers-own :
        (cb : Callbacks) (c : Context W)
        → cb.getheader ≡ some (client a)
        → prepare_headers o p cb c ≡ ok (sieve2_ok, c)
    unfolding prepare_headers
    prepare_headers-own cb c h = rw h refl

    -- The state of the client is free.
    Leaves-user_data :
        (user_data : W) (c d : Context W)
        → Leaves (record c { user_data = user_data }) d
        → Leaves c d
    Leaves-user_data user_data c d l = record {
      message = l.message;
      slflags = l.slflags;
      callbacks = l.callbacks;
      actions = l.actions;
      closed = l.closed;
    }

    Ready-user_data :
        (user_data : W) (c : Context W)
        → Ready a b flags c
        → Ready a b flags (record c { user_data = user_data })
    Ready-user_data user_data c r = record {
      serves = record {
        closed = r.serves.closed;
        getheader = r.serves.getheader;
        getsize = r.serves.getsize;
        slflags = r.serves.slflags;
      };
      clients = r.clients;
    }

    Acts-Leaves : (c d : Context W) → Leaves c d → (r : ℕ × Session W) → Acts d r → Acts c r
    Acts-Leaves c d first (status, s) (done, l) = (
      done,
      rw (ap (perform (plan o mail flags cmds).0) (sym first.actions)) (record {
        message = l.message ∙ first.message;
        slflags = l.slflags ∙ first.slflags;
        callbacks = l.callbacks ∙ first.callbacks;
        actions = l.actions;
        closed = l.closed;
      }),
    )

    -- Behind the fetch.
    runs-Fetched :
        (s : Session W) (r : ℕ × Session W)
        → IsSimple o cmds
        → Ready a b flags s.context
        → s.error_count ≡ 0
        → p.sieveparse s.support s.require text ≡ accepted
        → Fetched s r
        → Returns (Acts s.context) (run_script o p r.1)
    runs-Fetched s (status, f) simple ready none_counted e h =
        Returns-mono (Acts f.context) (Acts s.context) (run_script o p f)
          (Acts-Leaves s.context f.context h.leaves)
          (run_script-Acts f simple (Ready-Leaves s.context.actions ready h.leaves) h.script
            (h.error_count ∙ none_counted)
            (ap₂ (λ support required. p.sieveparse support required text) h.support h.require_so_far
              ∙ e))

    executes :
        (user_data : W) (s : Session W)
        → IsSimple o cmds
        → Ready a b flags s.context
        → s.context.callbacks.getscript ≡ some (client g)
        → p.sieveparse s.support s.require text ≡ accepted
        → Returns (Acts s.context) (sieve2_execute o p user_data s)
    unfolding sieve2_execute begin_session
    executes user_data s simple ready h e =
        let begun = begin_session o p user_data s in
        let ready' = Ready-user_data user_data s.context ready in
        Returns-bind (Fetched begun) (Acts s.context) (fetch_script o p begun) _
          (fetch_script-Fetched begun ready' h)
          (λ (status, fetched) f.
            let own = ap (λ cb. cb.getheader) f.leaves.callbacks ∙ ready.serves.getheader in
            rw (f.status, prepare_headers-own fetched.context.callbacks fetched.context own)
              (Returns-mono (Acts begun.context) (Acts s.context) (run_script o p fetched)
                (λ r (done, l). (
                  done,
                  Leaves-user_data user_data
                      (recorded (perform (plan o mail flags cmds).0 s.context.actions).1 s.context)
                      r.1.context l,
                ))
                (runs-Fetched begun (status, fetched) simple ready' refl e f)))

-- An execution returns success, where the client tells the script, and the headers and the size of
-- the message, whatever the state, the parser accepts the script with nothing to report, the script
-- has no commands for flags and vacations, no addresses in tests and decided patterns only, the
-- actions' functions are the client's, no call is open, and the flags are in live memory. The
-- actions that the script means for the message are then recorded up to the first that is in
-- conflict with one that is recorded already, by this execution or an earlier one. Otherwise only the
-- values of the current call and the client's state differ in the context.
pub sieve2_execute-plan :
    {R W : Type 0} (o : Outside R W) (p : Parsers R) (g a b : ℕ) (text : Text)
    (cmds : Commandlist R) (require : Support) (mail : Mail) (flags : List Text) (user_data : W)
    (s : Session W)
    → TellsScript o.respond g text
    → Tells o.respond a b mail
    → p.sieveparse s.support s.require text ≡ accepted o p text cmds require
    → IsSimple o cmds
    → Ready a b flags s.context
    → s.context.callbacks.getscript ≡ some (client g)
    → Returns
        (λ (status, s').
          (status ≡ sieve2_ok)
          × Leaves
              (recorded (perform (plan o mail flags cmds).0 s.context.actions).1 s.context)
              s'.context)
        (sieve2_execute o p user_data s)
sieve2_execute-plan o p g a b text cmds require mail flags user_data s told_script tells e simple
      ready h =
    executes o p text cmds require g a b mail flags tells told_script user_data s simple ready h e
