-- ===== src/Script/Eval.antt =====
-- src/sv_interface/script.c, `libsieve_eval`.
use libsieve.Prelude.{ℕ, true, false, ◌==◌, Option, some, Text, codes, if◌then◌else◌}
use libsieve.Run.{Run, ok, ◌>>=◌, sieve2_ok, error_exec}
use libsieve.Tree.Stringlist.{Stringlist, of_list}
use libsieve.Context.State.{Context}
use libsieve.Callbacks.Actions.{do_reject, do_fileinto, do_redirect, do_keep, do_discard, do_notify}
use libsieve.Outside.{Outside}
use libsieve.Script.Flags
use libsieve.Script.Syntax.{
  Command, if_test, reject, fileinto, redirect, keep, stop, discard, vacation, setflag, addflag,
  removeflag, notify, other, Commandlist, no_commands, commands,
}
use libsieve.Script.Evaltest.{evaltest}
use libsieve.Script.Vacation.{vacation_command}

-- What a run of commands leaves: `res`, the message for the client and the context. No command
-- makes `res` negative.
pub record Evaluated (W : Type 0) : Type 0 where
  pub res : ℕ
  pub errmsg : Option Text
  pub context : Context W

module _ {R W : Type 0} (o : Outside R W) where
  -- An action's status is `res`, and an error brings its message.
  unfoldable pub acted : Text → Option Text → ℕ × Context W → Evaluated W
  acted text errmsg (status, c) = record {
    res = status;
    errmsg = if status == error_exec then some text else errmsg;
    context = c;
  }

  abbrev unnoticed : Option Text → ℕ × Context W → Evaluated W
  unnoticed errmsg (status, c) = record { res = status; errmsg = errmsg; context = c }

  abbrev pub flagged : Option Text → Context W → Stringlist → Evaluated W
  flagged errmsg c sl = record {
    res = sieve2_ok;
    errmsg = errmsg;
    context = record c { slflags = sl };
  }

  unfoldable mutual
    pub eval : Commandlist R → Option Text → Context W → Run (Evaluated W)
    eval no_commands errmsg c = ok (record { res = sieve2_ok; errmsg = errmsg; context = c })
    eval (commands cmd next) errmsg c = do
      e ← eval_command cmd errmsg c
      elim (e.res == sieve2_ok) [ true ↦ eval next e.errmsg e.context | false ↦ ok e ]

    pub eval_command : Command R → Option Text → Context W → Run (Evaluated W)
    eval_command (if_test t do_then do_else) errmsg c = do
      (b, called) ← evaltest o t c
      elim b [ true ↦ eval do_then errmsg called | false ↦ eval do_else errmsg called ]
    eval_command (reject str) errmsg c = do_reject o.respond str c >>= λ r.
        ok (acted (codes "Reject can not be used with any other action") errmsg r)
    eval_command (fileinto mailbox slflags) errmsg c =
        do_fileinto o.respond mailbox (of_list slflags) c >>= λ r.
        ok (acted (codes "Fileinto can not be used with Reject") errmsg r)
    eval_command (redirect str) errmsg c = do_redirect o.respond str c >>= λ r.
        ok (acted (codes "Redirect can not be used with Reject") errmsg r)
    eval_command (keep slflags) errmsg c = do_keep o.respond (of_list slflags) c >>= λ r.
        ok (acted (codes "Keep can not be used with Reject") errmsg r)
    eval_command stop errmsg c = ok (record { res = 1; errmsg = errmsg; context = c })
    eval_command discard errmsg c = do_discard o.respond c >>= λ r. ok (unnoticed errmsg r)
    eval_command (vacation v) errmsg c = vacation_command o v c >>= λ r.
        ok (acted (codes "Vacation can not be used with Reject or Vacation") errmsg r)
    eval_command (setflag sl) errmsg c =
        Flags.setflag (of_list sl) c.slflags >>= λ slflags. ok (flagged errmsg c slflags)
    eval_command (addflag sl) errmsg c =
        Flags.addflag (of_list sl) c.slflags >>= λ slflags. ok (flagged errmsg c slflags)
    eval_command (removeflag sl) errmsg c =
        Flags.removeflag (of_list sl) c.slflags >>= λ slflags. ok (flagged errmsg c slflags)
    eval_command (notify id method options priority message) errmsg c =
        do_notify o.respond id method (of_list options) priority message c >>= λ r.
        ok (unnoticed errmsg r)
    eval_command other errmsg c = ok (record { res = sieve2_ok; errmsg = errmsg; context = c })
