-- ===== src/Callbacks/Queries.antt =====
-- src/sv_interface/callbacks2.c: the questions to the client. A pointer that an answer is written
-- through is a component of the result.
use libsieve.Prelude.{
  ℕ, ◌||◌, Option, none, some, List, [], ◌∷◌, Text, ℤ, codes, length, ◌==◌, if◌then◌else◌,
}
use libsieve.Run.{Run, ok, ◌>>=◌, sieve2_ok, sieve2_done, error_exec}
use libsieve.Context.Values.{
  Code, script_getscript, message_getheader, message_getallheaders, message_getenvelope,
  message_getsize, message_getsubaddress, CurCall, getvalue_string, getvalue_stringlist,
  getvalue_int,
}
use libsieve.Context.State.{Context, Client}
use libsieve.Callbacks.Brackets.{end_call, set_text, open_call}

-- A script and its length, or a null pointer and 0.
unfoldable pub script_answer : Option Text → ℕ × (Option Text × ℕ)
script_answer none = (error_exec, (none, 0))
script_answer (some script) = (sieve2_ok, (some script, length script))

abbrev pub notfound : List Text
notfound = [] ∷ []

-- The bodies of a header, or else `notfound`.
unfoldable pub header_answer : Option (List Text) → ℕ × List Text
header_answer none = (sieve2_done, notfound)
header_answer (some []) = (sieve2_done, notfound)
header_answer (some (body ∷ bodies)) = (sieve2_ok, body ∷ bodies)

-- The first character of a string, the NUL if it is empty.
abbrev first_char : Text → ℕ
first_char [] = 0
first_char (c ∷ s) = c

-- For a part of the envelope other than `from` and `to` the pointer stays what it was.
unfoldable pub envelope_answer : Text → Option Text → CurCall → Option Text
envelope_answer f e call =
    let c = first_char f in
    if c == b'f' || c == b'F'
    then getvalue_string (some (codes "from")) call
    else if c == b't' || c == b'T'
    then getvalue_string (some (codes "to")) call
    else e

-- The four parts of an address.
pub record Subaddress : Type 0 where
  pub user : Option Text
  pub detail : Option Text
  pub localpart : Option Text
  pub domain : Option Text

unfoldable pub subaddress_answer : CurCall → Subaddress
subaddress_answer call = record {
  user = getvalue_string (some (codes "user")) call;
  detail = getvalue_string (some (codes "detail")) call;
  localpart = getvalue_string (some (codes "localpart")) call;
  domain = getvalue_string (some (codes "domain")) call;
}

module _ {W : Type 0} (respond : Client W) where
  -- A call whose values are read before it ends.
  unfoldable pub ask :
      {A : Type 0}
      → Code
      → (Context W → Context W)
      → (CurCall → A)
      → Context W
      → Run (A × Context W)
  ask code fill read c = do
    called ← open_call respond code fill c
    ok (read called.cur_call, end_call code called)

  unfoldable pub do_getscript :
      Option Text → Option Text → Context W → Run ((ℕ × (Option Text × ℕ)) × Context W)
  do_getscript path name c =
      ask script_getscript (λ b. set_text "name" name (set_text "path" path b))
        (λ call. script_answer (getvalue_string (some (codes "script")) call)) c

  unfoldable pub do_getallheaders : Context W → Run ((ℕ × Option Text) × Context W)
  do_getallheaders c =
      ask message_getallheaders (λ b. b)
        (λ call. (sieve2_ok, getvalue_string (some (codes "allheaders")) call)) c

  unfoldable pub do_getheader : Option Text → Context W → Run ((ℕ × List Text) × Context W)
  do_getheader header c =
      ask message_getheader (set_text "header" header)
        (λ call. header_answer (getvalue_stringlist (some (codes "body")) call)) c

  unfoldable pub do_getsize : Context W → Run ((ℕ × ℤ) × Context W)
  do_getsize c =
      ask message_getsize (λ b. b) (λ call. (sieve2_ok, getvalue_int (some (codes "size")) call)) c

  unfoldable pub do_getenvelope :
      Text → Option Text → Context W → Run ((ℕ × Option Text) × Context W)
  do_getenvelope f e c =
      ask message_getenvelope (set_text "env" (some f))
        (λ call. (sieve2_ok, envelope_answer f e call)) c

  unfoldable pub do_getsubaddress : Option Text → Context W → Run ((ℕ × Subaddress) × Context W)
  do_getsubaddress address c =
      ask message_getsubaddress (set_text "address" address)
        (λ call. (sieve2_ok, subaddress_answer call)) c
