-- ===== src/Script/Matching.antt =====
-- src/sv_interface/script.c, `static_evaltest`: the loops of the tests that compare strings. `res`
-- is a `Bool`, since the comparators answer 0 or 1.
use libsieve.Prelude.{
  ℕ, ◌+◌, Bool, true, false, ◌||◌, ◌==◌, List, [], ◌∷◌, Option, none, some, Text, if◌then◌else◌,
}
use libsieve.Libc.{decimal}
use libsieve.Run.{
  Run, ok, fault, out_of_bounds, out_of_fuel, uninitialized, wrong_pattern, ◌>>=◌, sieve2_ok,
}
use libsieve.Comparator.Octet.{Verdict, answer, overrun}
use libsieve.Comparator.Lookup.{relational_count, Pattern, suits, run_comparator}
use libsieve.Context.State.{Context}
use libsieve.Callbacks.Queries.{do_getheader, do_getenvelope}
use libsieve.Outside.{Address, Outside}
use libsieve.Address.Parts.{AddressPart, parse_address, get_first}
use libsieve.Script.Syntax.{Match}

unfoldable pub run_of_verdict : Verdict → Run Bool
run_of_verdict (answer b) = ok b
run_of_verdict overrun = fault out_of_bounds
run_of_verdict Verdict.out_of_fuel = fault out_of_fuel

-- Whether the envelope has a part of the name; the variable is not set otherwise.
asks_envelope : Text → Bool
asks_envelope [] = false
asks_envelope (c ∷ f) = c == b'f' || c == b'F' || c == b't' || c == b'T'

module _ {R W : Type 0} (o : Outside R W) (m : Match R) where
  -- The comparator is called through its pointer.
  unfoldable pub compare_with : Pattern R → Text → Run Bool
  unfolding run_of_verdict
  compare_with p val =
      if suits m.comp p
      then run_of_verdict (run_comparator o.regexec m.comp p val)
      else fault wrong_pattern

  unfoldable pub counts : Bool
  counts = relational_count o.tokens m.comptag

  -- Behind the loop over the values, for a pattern: the comparison with the count.
  unfoldable pub compare_count : Pattern R → Bool → ℕ → Run Bool
  compare_count p res count =
      if counts then (compare_with p (decimal count) >>= λ b. ok (res || b)) else ok res

  -- One value of a header: it is counted or compared.
  unfoldable pub take_value : Pattern R → Text → Bool → ℕ → Run (Bool × ℕ)
  take_value p val res count =
      if counts then ok (res, count + 1) else (compare_with p val >>= λ b. ok (res || b, count))

  -- The values of a header, until one matches.
  unfoldable pub header_values : Pattern R → List Text → Bool → ℕ → Run (Bool × ℕ)
  header_values p [] res count = ok (res, count)
  header_values p (val ∷ vals) res count = elim res [
    | true ↦ ok (true, count)
    | false ↦ take_value p val false count >>= λ (res', count'). header_values p vals res' count'
  ]

  unfoldable pub header_patterns : List (Pattern R) → List Text → Bool → Run Bool
  unfolding header_values compare_count
  header_patterns [] vals res = ok res
  header_patterns (p ∷ pl) vals res = elim res [
    | true ↦ ok true
    | false ↦ do
      (found, count) ← header_values p vals false 0
      res' ← compare_count p found count
      header_patterns pl vals res'
  ]

  -- A header of the test, if it is there.
  unfoldable pub header_one : ℕ × List Text → Run Bool
  header_one (status, vals) =
      if status == sieve2_ok then header_patterns m.pl vals false else ok false

  unfoldable pub header_loop : List Text → Bool → Context W → Run (Bool × Context W)
  unfolding header_one
  header_loop [] res c = ok (res, c)
  header_loop (s ∷ sl) res c = elim res [
    | true ↦ ok (true, c)
    | false ↦ do
      (found, called) ← do_getheader o.respond (some s) c
      res' ← header_one found
      header_loop sl res' called
  ]

  module _ (part : AddressPart) where
    -- The addresses of a value: the next one is fetched before `res` is looked at.
    unfoldable pub address_values :
        Pattern R → List Address → Bool → ℕ → Context W → Run ((Bool × ℕ) × Context W)
    address_values p [] res count c = ok ((res, count), c)
    address_values p (a ∷ marker) res count c = do
      (val, called) ← get_first o part false a c
      elim val [
        | none ↦ ok ((res, count), called)
        | some v ↦ elim res [
          | true ↦ ok ((true, count), called)
          | false ↦ take_value p v false count >>= λ (res', count').
              address_values p marker res' count' called
        ]
      ]

    unfoldable pub address_bodies :
        Pattern R → List Text → Bool → ℕ → Context W → Run ((Bool × ℕ) × Context W)
    unfolding address_values
    address_bodies p [] res count c = ok ((res, count), c)
    address_bodies p (body ∷ bodies) res count c = elim res [
      | true ↦ ok ((true, count), c)
      | false ↦ do
        ((status, marker), parsed) ← parse_address o body c
        ((res', count'), walked) ← address_values p marker false count parsed
        address_bodies p bodies res' count' walked
    ]

    -- The count goes on from pattern to pattern.
    unfoldable pub address_patterns :
        List (Pattern R) → List Text → Bool → ℕ → Context W → Run (Bool × Context W)
    unfolding address_bodies compare_count
    address_patterns [] bodies res count c = ok (res, c)
    address_patterns (p ∷ pl) bodies res count c = elim res [
      | true ↦ ok (true, c)
      | false ↦ do
        ((found, count'), walked) ← address_bodies p bodies false count c
        res' ← compare_count p found count'
        address_patterns pl bodies res' count' walked
    ]

    unfoldable pub address_one : ℕ × List Text → Context W → Run (Bool × Context W)
    unfolding address_patterns
    address_one (status, body) c =
        if status == sieve2_ok then address_patterns m.pl body false 0 c else ok (false, c)

    unfoldable pub address_loop : List Text → Bool → Context W → Run (Bool × Context W)
    unfolding address_one
    address_loop [] res c = ok (res, c)
    address_loop (s ∷ sl) res c = elim res [
      | true ↦ ok (true, c)
      | false ↦ do
        (found, called) ← do_getheader o.respond (some s) c
        (res', walked) ← address_one found called
        address_loop sl res' walked
    ]

    -- The array of the envelope's part and a NULL. It is read where there is a pattern, as the
    -- grammar has it.
    unfoldable pub envelope_body : Text → Option Text → Run (List Text)
    unfolding asks_envelope
    envelope_body s none = if asks_envelope s then ok [] else fault uninitialized
    envelope_body s (some e) = if asks_envelope s then ok (e ∷ []) else fault uninitialized

    unfoldable pub envelope_loop : List Text → Bool → Context W → Run (Bool × Context W)
    unfolding address_one envelope_body
    envelope_loop [] res c = ok (res, c)
    envelope_loop (s ∷ sl) res c = elim res [
      | true ↦ ok (true, c)
      | false ↦ do
        ((status, e), called) ← do_getenvelope o.respond s none c
        body ← envelope_body s e
        (res', walked) ← address_one (status, body) called
        envelope_loop sl res' walked
    ]
