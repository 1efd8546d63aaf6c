-- ===== src/Callbacks/Brackets.antt =====
-- src/sv_interface/callbacks2.c: the calls that each of its functions is made of, on a context.
use libsieve.Prelude.{Option, some, List, Text, ℤ, codes}
use Prim.Native.String.{String}
use libsieve.Run.{Run, ok, ◌>>=◌}
use libsieve.Context.Values.{
  Code, callback_begin, callback_end, setvalue_string, setvalue_stringlist, setvalue_int,
}
use libsieve.Context.State.{Context, Client, callback_do}

module _ {W : Type 0} where
  -- The statuses of these calls are not looked at.
  unfoldable pub begin_call : Code → Context W → Context W
  begin_call code c = record c { cur_call = (callback_begin code c.cur_call).1 }

  unfoldable pub end_call : Code → Context W → Context W
  end_call code c = record c { cur_call = (callback_end code c.cur_call).1 }

  unfoldable pub set_text : String → Option Text → Context W → Context W
  set_text name value c = record c {
    cur_call = (setvalue_string (some (codes name)) value c.cur_call).1;
  }

  unfoldable pub set_texts : String → Option (List Text) → Context W → Context W
  set_texts name value c = record c {
    cur_call = (setvalue_stringlist (some (codes name)) value c.cur_call).1;
  }

  unfoldable pub set_number : String → ℤ → Context W → Context W
  set_number name value c = record c {
    cur_call = (setvalue_int (some (codes name)) value c.cur_call).1;
  }

  -- `libsieve_callback_begin`, the setters of `fill`, and `libsieve_callback_do`.
  unfoldable pub open_call : Client W → Code → (Context W → Context W) → Context W → Run (Context W)
  open_call respond code fill c = do
    (status, called) ← callback_do respond code (fill (begin_call code c))
    ok called

  -- The same with `libsieve_callback_end` behind it.
  unfoldable pub whole_call :
      Client W → Code → (Context W → Context W) → Context W → Run (Context W)
  whole_call respond code fill c = do
    called ← open_call respond code fill c
    ok (end_call code called)
