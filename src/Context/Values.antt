-- ===== src/Context/Values.antt =====
-- src/sv_interface/context2.c: the current call of a context and its values. Allocation does not
-- fail in the model.
use libsieve.Prelude.{
  ℕ, Bool, true, false, not, ◌&&◌, ◌||◌, List, [], ◌∷◌, Option, none, some, Text, replicate,
  if◌then◌else◌, ℤ, negsuc, ◌≡◌, ◌↔◌, arith,
}
use mathlib.Core.Bool.{decide}
use libsieve.Libc.{same_name}
use libsieve.Run.{sieve2_ok, error_fail}

-- `sieve2_values_t`.
pub data Code : Type 0 where
  value_first : Code
  action_redirect action_reject action_discard action_fileinto action_keep : Code
  action_notify action_denotify action_vacation : Code
  action_setflag action_addflag action_removeflag action_mark action_unmark : Code
  errcall_runtime errcall_parse debug_trace : Code
  script_getscript script_getsize : Code
  message_getheader message_getallheaders message_getenvelope : Code
  message_getsize message_getbody message_getsubaddress : Code
  errcall_header errcall_address value_last : Code

unfoldable pub Code-discrete : Discrete Code
Code-discrete = hlevel

unfoldable pub same_code : Code → Code → Bool
unfolding Code-discrete decide
same_code a b = decide (Code-discrete a b)

pub same_code_iff : (a b : Code) → (same_code a b ≡ true) ↔ (a ≡ b)
unfolding same_code decide
same_code_iff a b = ground arith

-- The tagged union of a slot.
pub data Value : Type 0 where
  val_int : ℤ → Value
  val_string : Text → Value
  val_stringlist : List Text → Value

-- A slot with no name is free.
abbrev pub Slot : Type 0
Slot = Option (Text × Value)

-- `struct cur_call`; `values` has `max_values` slots.
pub record CurCall : Type 0 where
  pub begin : Bool
  pub end : Bool
  pub code : Code
  pub values : List Slot

abbrev pub max_values : ℕ
max_values = 10

abbrev pub no_values : List Slot
no_values = replicate max_values none

same_bool : Bool → Bool → Bool
same_bool true b = b
same_bool false b = not b

-- A status, and the call as it is left.
unfoldable pub callback_begin : Code → CurCall → ℕ × CurCall
unfolding same_bool
callback_begin callback c =
    if same_bool c.begin c.end
    then (sieve2_ok, record { begin = true; end = false; code = callback; values = no_values })
    else (error_fail, c)

-- The names are freed here and dangle until the next call begins; the model keeps their text,
-- and the library reads no value outside of a call.
unfoldable pub callback_end : Code → CurCall → ℕ × CurCall
callback_end callback c =
    if not (c.begin && not c.end) || not (same_code c.code callback)
    then (error_fail, c)
    else (sieve2_ok, record c { end = true; code = value_first })

abbrev pub as_string : Value → Option Text
as_string (val_string s) = some s
as_string _ = none

abbrev pub as_stringlist : Value → Option (List Text)
as_stringlist (val_stringlist sl) = some sl
as_stringlist _ = none

abbrev pub as_int : Value → Option ℤ
as_int (val_int i) = some i
as_int _ = none

-- A slot with a value of the right type and the name is the answer; otherwise the loop goes on.
abbrev pub pick : {A : Type 0} → Option A → Bool → Option A → Option A
pick none named later = later
pick (some a) named later = if named then some a else later

-- The loop of the three getters: the first slot with a value of the right type and the name, in
-- any case.
unfoldable pub find_value : {A : Type 0} → (Value → Option A) → Text → List Slot → Option A
find_value read name [] = none
find_value read name (none ∷ values) = find_value read name values
find_value read name (some (key, value) ∷ values) =
    pick (read value) (same_name key name) (find_value read name values)

-- `name` may be null, and then no slot fits.
abbrev with_name : {A : Type 0} → (Value → Option A) → Option Text → CurCall → Option A
with_name read none c = none
with_name read (some name) c = find_value read name c.values

unfoldable pub getvalue_string : Option Text → CurCall → Option Text
getvalue_string name c = with_name as_string name c

unfoldable pub getvalue_stringlist : Option Text → CurCall → Option (List Text)
getvalue_stringlist name c = with_name as_stringlist name c

abbrev pub int_or_minus_one : Option ℤ → ℤ
int_or_minus_one none = negsuc 0
int_or_minus_one (some i) = i

unfoldable pub getvalue_int : Option Text → CurCall → ℤ
getvalue_int name c = int_or_minus_one (with_name as_int name c)

-- The loop of the three setters: the first free slot, if there is one.
unfoldable pub store_value : Text → Value → List Slot → Option (List Slot)
store_value name value [] = none
store_value name value (none ∷ values) = some (some (name, value) ∷ values)
store_value name value (some entry ∷ values) = elim (store_value name value values) [
  | none ↦ none
  | some stored ↦ some (some entry ∷ stored)
]

unfoldable pub store : Text → Value → CurCall → ℕ × CurCall
store name value c = elim (store_value name value c.values) [
  | none ↦ (error_fail, c)
  | some stored ↦ (sieve2_ok, record c { values = stored })
]

unfoldable pub setvalue_string : Option Text → Option Text → CurCall → ℕ × CurCall
unfolding store
setvalue_string (some name) (some value) c = store name (val_string value) c
setvalue_string name value c = (error_fail, c)

unfoldable pub setvalue_stringlist : Option Text → Option (List Text) → CurCall → ℕ × CurCall
unfolding store
setvalue_stringlist (some name) (some value) c = store name (val_stringlist value) c
setvalue_stringlist name value c = (error_fail, c)

unfoldable pub setvalue_int : Option Text → ℤ → CurCall → ℕ × CurCall
unfolding store
setvalue_int (some name) value c = store name (val_int value) c
setvalue_int none value c = (error_fail, c)

-- A call of a setter from a callback.
pub data SetCall : Type 0 where
  set_string : Option Text → Option Text → SetCall
  set_stringlist : Option Text → Option (List Text) → SetCall
  set_int : Option Text → ℤ → SetCall

unfoldable pub apply_call : SetCall → CurCall → ℕ × CurCall
apply_call (set_string name value) c = setvalue_string name value c
apply_call (set_stringlist name value) c = setvalue_stringlist name value c
apply_call (set_int name value) c = setvalue_int name value c

unfoldable pub apply_calls : List SetCall → CurCall → CurCall
apply_calls [] c = c
apply_calls (call ∷ calls) c = apply_calls calls (apply_call call c).1
