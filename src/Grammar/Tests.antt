-- ===== src/Grammar/Tests.antt =====
-- src/sv_parser/sieve.y: the tests that the grammar builds.
use libsieve.Prelude.{List, none, some, Text, codes}
use libsieve.Run.{null_pointer}
use libsieve.Comparator.Lookup.{Tokens, Pattern, comparator_lookup}
use libsieve.Script.Syntax.{Match, Test, Testlist, no_tests, tests}
use libsieve.Interface.Register.{Support}
use libsieve.Grammar.Checked.{Checked, built, refused, faulted, unless, ◌>>=◌, ◌>>◌}
use libsieve.Grammar.Tags.{
  Tag, Aetag, Htags, Canon, new_htags, new_aetags, htags, hftags, aetags, canon_htags,
  canon_addrtag,
}
use libsieve.Grammar.Verify.{Regcomp, verify_headers, verify_flags, patterns_of}
use libsieve.Grammar.Forms.{
  Addrorenv, address, envelope, TestForm, anyof, allof, exists, sfalse, strue, failed, hasflag,
  header, addrorenv, not_test, size, TestForms, last_test, next_test,
}

module _ {R : Type 0} (t : Tokens) (regcomp : Regcomp R) (require : Support) where
  -- What `static_build_header` and `static_build_address` make of the tags. The error of a name of
  -- no comparator, or of a tag that it does not have, has no message.
  unfoldable pub build_match : Canon → List Text → List (Pattern R) → Checked (Match R)
  build_match h sl pl = elim (comparator_lookup t h.comparator h.comptag) [
    | none ↦ refused none
    | some comp ↦ built (record { comptag = h.comptag; comp = comp; sl = sl; pl = pl })
  ]

  -- The names, the patterns and the comparator of a test.
  unfoldable pub match_of : Htags → List Text → List Text → Checked (Match R)
  unfolding verify_headers canon_htags patterns_of build_match
  match_of h sl pl =
      verify_headers sl
      >> (patterns_of t regcomp (canon_htags t h) pl >>= build_match (canon_htags t h) sl)

  -- The comparator of `hasflag` is looked up where there is a comparator type. It is not used, and
  -- a null pointer where no name is given.
  unfoldable pub lookup_flag_comparator : Htags → Checked (Unit {0})
  lookup_flag_comparator h = elim h.comptag [
    | none ↦ built tt
    | some n ↦ elim h.comparator [ none ↦ faulted null_pointer | some comp ↦ built tt ]
  ]

  unfoldable pub build_hasflag : Htags → List Text → Checked (Test R)
  unfolding verify_flags lookup_flag_comparator
  build_hasflag h sl =
      unless require.imap4flags (codes "imap4flags not required")
      >> (verify_flags sl >> (lookup_flag_comparator h >> built (Test.hasflag sl)))

  unfoldable pub build_header : List Tag → List Text → List Text → Checked (Test R)
  unfolding htags match_of
  build_header tags sl pl =
      htags t require tags new_htags >>= λ h. match_of h sl pl >>= λ m. built (Test.header m)

  unfoldable pub build_address : Addrorenv → List Aetag → List Text → List Text → Checked (Test R)
  unfolding aetags match_of canon_addrtag
  build_address which tags sl pl = aetags t require tags new_aetags >>= λ ae.
      match_of ae.tags sl pl >>= λ m. built (elim which [
        | address ↦ Test.address (canon_addrtag ae.addrtag) m
        | envelope ↦ Test.envelope (canon_addrtag ae.addrtag) m
      ])

  unfoldable mutual
    unfolding build_hasflag build_header build_address

    pub test_of : TestForm → Checked (Test R)
    test_of (anyof forms) = tests_of forms >>= λ tl. built (Test.anyof tl)
    test_of (allof forms) = tests_of forms >>= λ tl. built (Test.allof tl)
    test_of (exists sl) = built (Test.exists sl)
    test_of sfalse = built Test.sfalse
    test_of strue = built Test.strue
    test_of (hasflag tags sl) = hftags t require tags new_htags >>= λ h. build_hasflag h sl
    test_of (header tags sl pl) = build_header tags sl pl
    test_of (addrorenv which tags sl pl) = build_address which tags sl pl
    test_of (not_test form) = test_of form >>= λ test. built (Test.not_test test)
    test_of (size bound n) = built (Test.size bound n)
    test_of failed = built Test.null

    pub tests_of : TestForms → Checked (Testlist R)
    tests_of (last_test form) = test_of form >>= λ test. built (tests test no_tests)
    tests_of (next_test form more) =
        test_of form >>= λ test. tests_of more >>= λ tl. built (tests test tl)
