-- ===== src/Script/Evaltest.antt =====
-- src/sv_interface/script.c, `static_evaltest`.
use libsieve.Prelude.{
  Bool, true, false, not, ◌&&◌, ◌==◌, List, [], ◌∷◌, some, Text, ℤ, ltb_ℤ, if◌then◌else◌,
}
use libsieve.Run.{Run, ok, ◌>>=◌, sieve2_ok}
use libsieve.Tree.Stringlist.{of_list}
use libsieve.Context.State.{Context}
use libsieve.Callbacks.Queries.{do_getheader, do_getsize}
use libsieve.Outside.{Outside}
use libsieve.Script.Flags
use libsieve.Script.Syntax.{
  Bound, over, under, Test, null, address, envelope, anyof, allof, exists, sfalse, strue, header,
  hasflag, not_test, size, Testlist, no_tests, tests,
}
use libsieve.Script.Matching.{header_loop, address_loop, envelope_loop}

unfoldable pub size_test : Bound → ℤ → ℤ → Bool
size_test over n sz = ltb_ℤ n sz
size_test under n sz = ltb_ℤ sz n

module _ {R W : Type 0} (o : Outside R W) where
  unfoldable pub exists_loop : List Text → Context W → Run (Bool × Context W)
  exists_loop [] c = ok (true, c)
  exists_loop (s ∷ sl) c = do
    ((status, body), called) ← do_getheader o.respond (some s) c
    elim (status == sieve2_ok) [ true ↦ exists_loop sl called | false ↦ ok (false, called) ]

  unfoldable mutual
    pub evaltest : Test R → Context W → Run (Bool × Context W)
    evaltest null c = ok (false, c)
    evaltest (address part m) c = address_loop o m part m.sl false c
    evaltest (envelope part m) c = envelope_loop o m part m.sl false c
    evaltest (anyof tl) c = anyof_loop tl c
    evaltest (allof tl) c = allof_loop tl c
    evaltest (exists sl) c = exists_loop sl c
    evaltest sfalse c = ok (false, c)
    evaltest strue c = ok (true, c)
    evaltest (header m) c = header_loop o m m.sl false c
    evaltest (hasflag sl) c = Flags.hasflag (of_list sl) c.slflags >>= λ b. ok (b, c)
    evaltest (not_test t) c = evaltest t c >>= λ (b, called). ok (not b, called)
    evaltest (size b n) c = do
      ((status, sz), called) ← do_getsize o.respond c
      ok (if status == sieve2_ok then size_test b n sz else false, called)

    pub anyof_loop : Testlist R → Context W → Run (Bool × Context W)
    anyof_loop no_tests c = ok (false, c)
    anyof_loop (tests t tl) c = do
      (b, called) ← evaltest t c
      elim b [ true ↦ ok (true, called) | false ↦ anyof_loop tl called ]

    -- Each test is evaluated twice.
    pub allof_loop : Testlist R → Context W → Run (Bool × Context W)
    allof_loop no_tests c = ok (true, c)
    allof_loop (tests t tl) c = do
      (b, once) ← evaltest t c
      (b', twice) ← evaltest t once
      elim (b && b') [ true ↦ allof_loop tl twice | false ↦ ok (false, twice) ]
