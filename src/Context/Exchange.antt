-- ===== src/Context/Exchange.antt =====
-- src/sv_interface/context2.c: what the setters store the getters find.
use libsieve.Prelude.{
  ℕ, zero, suc, List, [], ◌∷◌, ◌++◌, Option, none, some, Text, replicate, take, ◌≡◌, refl, ◌∙◌, ap,
  append-nil, append_assoc,
}
use libsieve.Libc.{same_name}
use libsieve.Run.{error_fail}
use libsieve.Context.Values.{
  Value, val_int, val_string, val_stringlist, as_string, as_stringlist, as_int, Slot, CurCall,
  max_values, no_values, pick, find_value, store_value, store, setvalue_string, setvalue_stringlist,
  setvalue_int, getvalue_string, getvalue_stringlist, int_or_minus_one, getvalue_int, SetCall,
  set_string, set_stringlist, set_int, apply_call, apply_calls,
}

-- The pairs that a sequence of calls offers: those with neither name nor value null, in order.
abbrev pub offered : List SetCall → List (Text × Value)
offered [] = []
offered (set_string (some name) (some value) ∷ calls) = (name, val_string value) ∷ offered calls
offered (set_stringlist (some name) (some value) ∷ calls) =
    (name, val_stringlist value) ∷ offered calls
offered (set_int (some name) value ∷ calls) = (name, val_int value) ∷ offered calls
offered (_ ∷ calls) = offered calls

-- The first pair with the name, in any case, and a value of the type that is read.
abbrev pub first_fit : {A : Type 0} → (Value → Option A) → Text → List (Text × Value) → Option A
first_fit read name [] = none
first_fit read name ((key, value) ∷ pairs) =
    pick (read value) (same_name key name) (first_fit read name pairs)

-- Slots that hold these pairs, with `k` free ones behind them.
abbrev holding : List (Text × Value) → ℕ → List Slot
holding [] k = replicate k none
holding (pair ∷ pairs) k = some pair ∷ holding pairs k

module _ (name : Text) (value : Value) where
  store_value-free :
      (pairs : List (Text × Value)) (k : ℕ)
      → store_value name value (holding pairs (suc k))
        ≡ some (holding (pairs ++ (name, value) ∷ []) k)
  unfolding store_value
  store_value-free [] k = refl
  store_value-free (pair ∷ pairs) k = rw (store_value-free pairs k)

  store_value-full : (pairs : List (Text × Value)) → store_value name value (holding pairs 0) ≡ none
  unfolding store_value
  store_value-full [] = refl
  store_value-full (pair ∷ pairs) = rw (store_value-full pairs)

find_value-free :
    {A : Type 0} (read : Value → Option A) (name : Text) (k : ℕ)
    → find_value read name (replicate k none) ≡ none
unfolding find_value
find_value-free read name zero = refl
find_value-free read name (suc k) = find_value-free read name k

find_value-holding :
    {A : Type 0} (read : Value → Option A) (name : Text) (pairs : List (Text × Value)) (k : ℕ)
    → find_value read name (holding pairs k) ≡ first_fit read name pairs
unfolding find_value
find_value-holding read name [] k = find_value-free read name k
find_value-holding read name ((key, value) ∷ pairs) k = rw (find_value-holding read name pairs k)

-- The call holds these pairs in the first slots, and `k` slots are free.
abbrev Holds : CurCall → List (Text × Value) → ℕ → Type 0
Holds c pairs k = c.values ≡ holding pairs k

module _ (name : Text) (value : Value) (c : CurCall) (pairs : List (Text × Value)) where
  store-free :
      (k : ℕ) → Holds c pairs (suc k) → Holds (store name value c).1 (pairs ++ (name, value) ∷ []) k
  unfolding store
  store-free k h =
      let e = ap (store_value name value) h ∙ store_value-free name value pairs k in rw (e, store)

  store-full : Holds c pairs 0 → store name value c ≡ (error_fail, c)
  unfolding store
  store-full h =
      let e = ap (store_value name value) h ∙ store_value-full name value pairs in rw (e, store)

-- Storing a list of pairs one by one.
store_all : List (Text × Value) → CurCall → CurCall
store_all [] c = c
store_all ((name, value) ∷ pairs) c = store_all pairs (store name value c).1

apply_calls-offered :
    (calls : List SetCall) (c : CurCall) → apply_calls calls c ≡ store_all (offered calls) c
unfolding apply_calls apply_call store_all setvalue_string setvalue_stringlist setvalue_int
apply_calls-offered [] c = refl
apply_calls-offered (set_string (some name) (some value) ∷ calls) c = apply_calls-offered calls _
apply_calls-offered (set_string (some name) none ∷ calls) c = apply_calls-offered calls c
apply_calls-offered (set_string none value ∷ calls) c = apply_calls-offered calls c
apply_calls-offered (set_stringlist (some name) (some value) ∷ calls) c =
    apply_calls-offered calls _
apply_calls-offered (set_stringlist (some name) none ∷ calls) c = apply_calls-offered calls c
apply_calls-offered (set_stringlist none value ∷ calls) c = apply_calls-offered calls c
apply_calls-offered (set_int (some name) value ∷ calls) c = apply_calls-offered calls _
apply_calls-offered (set_int none value ∷ calls) c = apply_calls-offered calls c

store_all-full :
    (more pairs : List (Text × Value)) (c : CurCall) → Holds c pairs 0 → store_all more c ≡ c
unfolding store_all
store_all-full [] pairs c h = refl
store_all-full ((name, value) ∷ more) pairs c h =
    rw (store-full name value c pairs h) (store_all-full more pairs c h)

-- As many pairs are kept as there are free slots, the first ones.
store_all-Holds :
    (more pairs : List (Text × Value)) (c : CurCall) (k : ℕ)
    → Holds c pairs k
    → (j : ℕ) × Holds (store_all more c) (pairs ++ take k more) j
unfolding store_all
store_all-Holds more pairs c zero h = (0, rw (store_all-full more pairs c h, append-nil) h)
store_all-Holds [] pairs c (suc k) h = (suc k, rw append-nil h)
store_all-Holds ((name, value) ∷ more) pairs c (suc k) h =
    let (j, e) =
      store_all-Holds more (pairs ++ (name, value) ∷ []) (store name value c).1 k
        (store-free name value c pairs k h) in
    (j, rw append_assoc at e)

-- What a getter for one type finds after any calls of the setters in a fresh call.
find_value-apply_calls :
    {A : Type 0} (read : Value → Option A) (name : Text) (calls : List SetCall) (c : CurCall)
    → c.values ≡ no_values
    → find_value read name (apply_calls calls c).values
      ≡ first_fit read name (take max_values (offered calls))
find_value-apply_calls read name calls c fresh =
    let (j, e) = store_all-Holds (offered calls) [] c max_values fresh in
    rw (apply_calls-offered calls c, e) (find_value-holding read name _ j)

-- After any calls of the setters in a call with fresh values, the getters answer from the first
-- ten pairs with neither name nor value null, in the order of the calls: a string or string list
-- is that of the first pair that has the type and the name, in any case, and none if there is no
-- such pair; an integer is -1 then.
pub getvalue-apply_calls :
    (name : Text) (calls : List SetCall) (c : CurCall)
    → c.values ≡ no_values
    → let pairs = take max_values (offered calls) in
      let c' = apply_calls calls c in
      (getvalue_string (some name) c' ≡ first_fit as_string name pairs)
      × (getvalue_stringlist (some name) c' ≡ first_fit as_stringlist name pairs)
      × (getvalue_int (some name) c' ≡ int_or_minus_one (first_fit as_int name pairs))
unfolding getvalue_string getvalue_stringlist getvalue_int
getvalue-apply_calls name calls c fresh = (
  find_value-apply_calls as_string name calls c fresh,
  find_value-apply_calls as_stringlist name calls c fresh,
  ap int_or_minus_one (find_value-apply_calls as_int name calls c fresh),
)
