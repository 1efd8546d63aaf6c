-- ===== src/Script/Effects.antt =====
-- src/sv_interface/script.c, `static_evaltest`: what a test leaves alone, whatever the client
-- answers.
use libsieve.Prelude.{ℕ, Bool, true, false, List, [], ◌∷◌, none, some, Text, ◌&&◌, ◌==◌}
use libsieve.Run.{Ensures, Ensures-branch, sieve2_ok}
use libsieve.Tree.Stringlist.{of_list}
use libsieve.Comparator.Lookup.{Pattern}
use libsieve.Context.Brackets.{IsClosed}
use libsieve.Context.State.{Context}
use libsieve.Callbacks.Frame.{Leaves}
use libsieve.Outside.{Address, Outside}
use libsieve.Address.Parts.{AddressPart}
use libsieve.Script.Flags
use libsieve.Script.Syntax.{
  Match, Test, null, address, envelope, anyof, allof, exists, sfalse, strue, header, hasflag,
  not_test, size, Testlist, no_tests, tests,
}
use libsieve.Script.Matching.{
  take_value, compare_count, header_one, header_loop, address_values, address_bodies,
  address_patterns, address_one, address_loop, envelope_body, envelope_loop,
}
use libsieve.Script.Evaltest.{exists_loop, evaltest, anyof_loop, allof_loop}
use libsieve.Script.Steady.{Leaves-refl}
use libsieve.Script.Harmless.{
  Harmless, Harmless-bind, Harmless-then, Harmless-option, Harmless-if, do_getheader-Harmless,
  do_getsize-Harmless, do_getenvelope-Harmless, parse_address-Harmless, get_first-Harmless,
}

module _ {R W : Type 0} (o : Outside R W) where
  module _ (m : Match R) where
    header_loop-Harmless :
        (sl : List Text) (res : Bool) (c : Context W)
        → IsClosed c.cur_call
        → Harmless c (header_loop o m sl res c)
    unfolding header_loop
    header_loop-Harmless [] res c closed = Leaves-refl c closed
    header_loop-Harmless (s ∷ sl) true c closed = Leaves-refl c closed
    header_loop-Harmless (s ∷ sl) false c closed =
        Harmless-bind c _ _ (do_getheader-Harmless o.respond (some s) c closed) (λ found d closed'.
          Harmless-then d (header_one o m found) _ (λ res'. header_loop-Harmless sl res' d closed'))

    module _ (part : AddressPart) (p : Pattern R) where
      address_values-Harmless :
          (marker : List Address) (res : Bool) (count : ℕ) (c : Context W)
          → IsClosed c.cur_call
          → Harmless c (address_values o m part p marker res count c)
      unfolding address_values
      address_values-Harmless [] res count c closed = Leaves-refl c closed
      address_values-Harmless (a ∷ marker) res count c closed =
          Harmless-bind c _ _ (get_first-Harmless o part false a c closed) (λ val d closed'.
            Harmless-option d val _ _ (Leaves-refl d closed') (λ t.
              Ensures-branch (λ r. Leaves d r.1) res _ _ (Leaves-refl d closed')
                (Harmless-then d (take_value o m p t false count) _
                  (λ x. address_values-Harmless marker x.0 x.1 d closed'))))

      address_bodies-Harmless :
          (bodies : List Text) (res : Bool) (count : ℕ) (c : Context W)
          → IsClosed c.cur_call
          → Harmless c (address_bodies o m part p bodies res count c)
      unfolding address_bodies
      address_bodies-Harmless [] res count c closed = Leaves-refl c closed
      address_bodies-Harmless (body ∷ bodies) true count c closed = Leaves-refl c closed
      address_bodies-Harmless (body ∷ bodies) false count c closed =
          Harmless-bind c _ _ (parse_address-Harmless o body c closed) (λ x d closed'.
            Harmless-bind d _ _ (address_values-Harmless x.1 false count d closed')
              (λ y e closed''. address_bodies-Harmless bodies y.0 y.1 e closed''))

    module _ (part : AddressPart) where
      address_patterns-Harmless :
          (pl : List (Pattern R)) (bodies : List Text) (res : Bool) (count : ℕ) (c : Context W)
          → IsClosed c.cur_call
          → Harmless c (address_patterns o m part pl bodies res count c)
      unfolding address_patterns
      address_patterns-Harmless [] bodies res count c closed = Leaves-refl c closed
      address_patterns-Harmless (p ∷ pl) bodies true count c closed = Leaves-refl c closed
      address_patterns-Harmless (p ∷ pl) bodies false count c closed =
          Harmless-bind c _ _ (address_bodies-Harmless part p bodies false count c closed)
            (λ x d closed'.
              Harmless-then d (compare_count o m p x.0 x.1) _
                (λ res'. address_patterns-Harmless pl bodies res' x.1 d closed'))

      address_one-Harmless :
          (found : ℕ × List Text) (c : Context W)
          → IsClosed c.cur_call
          → Harmless c (address_one o m part found c)
      unfolding address_one
      address_one-Harmless (status, body) c closed =
          Harmless-if c (status == sieve2_ok) _ _
            (address_patterns-Harmless m.pl body false 0 c closed) (Leaves-refl c closed)

      address_loop-Harmless :
          (sl : List Text) (res : Bool) (c : Context W)
          → IsClosed c.cur_call
          → Harmless c (address_loop o m part sl res c)
      unfolding address_loop
      address_loop-Harmless [] res c closed = Leaves-refl c closed
      address_loop-Harmless (s ∷ sl) true c closed = Leaves-refl c closed
      address_loop-Harmless (s ∷ sl) false c closed =
          Harmless-bind c _ _ (do_getheader-Harmless o.respond (some s) c closed)
            (λ found d closed'.
              Harmless-bind d _ _ (address_one-Harmless found d closed')
                (λ res' e closed''. address_loop-Harmless sl res' e closed''))

      envelope_loop-Harmless :
          (sl : List Text) (res : Bool) (c : Context W)
          → IsClosed c.cur_call
          → Harmless c (envelope_loop o m part sl res c)
      unfolding envelope_loop
      envelope_loop-Harmless [] res c closed = Leaves-refl c closed
      envelope_loop-Harmless (s ∷ sl) true c closed = Leaves-refl c closed
      envelope_loop-Harmless (s ∷ sl) false c closed =
          Harmless-bind c _ _ (do_getenvelope-Harmless o.respond s none c closed) (λ x d closed'.
            Harmless-then d (envelope_body o m part s x.1) _ (λ body.
              Harmless-bind d _ _ (address_one-Harmless (x.0, body) d closed')
                (λ res' e closed''. envelope_loop-Harmless sl res' e closed'')))

  exists_loop-Harmless :
      (sl : List Text) (c : Context W) → IsClosed c.cur_call → Harmless c (exists_loop o sl c)
  unfolding exists_loop
  exists_loop-Harmless [] c closed = Leaves-refl c closed
  exists_loop-Harmless (s ∷ sl) c closed =
      Harmless-bind c _ _ (do_getheader-Harmless o.respond (some s) c closed) (λ x d closed'.
        Ensures-branch (λ r. Leaves d r.1) (x.0 == sieve2_ok) _ _
          (exists_loop-Harmless sl d closed') (Leaves-refl d closed'))

  mutual
    unfolding evaltest

    test-Harmless : (t : Test R) (c : Context W) → IsClosed c.cur_call → Harmless c (evaltest o t c)
    test-Harmless null c closed = Leaves-refl c closed
    test-Harmless (address part m) c closed = address_loop-Harmless m part m.sl false c closed
    test-Harmless (envelope part m) c closed = envelope_loop-Harmless m part m.sl false c closed
    test-Harmless (anyof tl) c closed = anyof-Harmless tl c closed
    test-Harmless (allof tl) c closed = allof-Harmless tl c closed
    test-Harmless (exists sl) c closed = exists_loop-Harmless sl c closed
    test-Harmless sfalse c closed = Leaves-refl c closed
    test-Harmless strue c closed = Leaves-refl c closed
    test-Harmless (header m) c closed = header_loop-Harmless m m.sl false c closed
    test-Harmless (hasflag sl) c closed =
        Harmless-then c (Flags.hasflag (of_list sl) c.slflags) _ (λ b. Leaves-refl c closed)
    test-Harmless (not_test t) c closed =
        Harmless-bind c _ _ (test-Harmless t c closed) (λ b d closed'. Leaves-refl d closed')
    test-Harmless (size bound n) c closed =
        Harmless-bind c _ _ (do_getsize-Harmless o.respond c closed)
          (λ x d closed'. Leaves-refl d closed')

    anyof-Harmless :
        (tl : Testlist R) (c : Context W) → IsClosed c.cur_call → Harmless c (anyof_loop o tl c)
    anyof-Harmless no_tests c closed = Leaves-refl c closed
    anyof-Harmless (tests t tl) c closed =
        Harmless-bind c _ _ (test-Harmless t c closed) (λ b d closed'.
          Ensures-branch (λ r. Leaves d r.1) b _ _ (Leaves-refl d closed')
            (anyof-Harmless tl d closed'))

    allof-Harmless :
        (tl : Testlist R) (c : Context W) → IsClosed c.cur_call → Harmless c (allof_loop o tl c)
    allof-Harmless no_tests c closed = Leaves-refl c closed
    allof-Harmless (tests t tl) c closed =
        Harmless-bind c _ _ (test-Harmless t c closed) (λ b d closed'.
          Harmless-bind d _ _ (test-Harmless t d closed') (λ b' e closed''.
            Ensures-branch (λ r. Leaves e r.1) (b && b') _ _ (allof-Harmless tl e closed'')
              (Leaves-refl e closed'')))

-- With no open call, a test of any kind that returns leaves the message, the flags, the callbacks
-- and the record of the actions as they were, whatever the client answers, and no call open.
pub evaltest-Leaves :
    {R W : Type 0} (o : Outside R W) (t : Test R) (c : Context W)
    → IsClosed c.cur_call
    → Ensures (λ (b, d). Leaves c d) (evaltest o t c)
evaltest-Leaves o t c closed = test-Harmless o t c closed
