-- ===== src/Grammar/Kinds.antt =====
-- src/sv_parser/sieve.y and comparator.c: the patterns of a test are of the kind that its comparator
-- reads.
use libsieve.Prelude.{
  ℕ, ◌/◌, ◌^◌, Bool, true, false, Option, none, some, Text, codes, ◌==◌, ◌≡◌, refl, sym, arith,
  Bool-cases, inl, inr,
}
use libsieve.Libc.{same_text}
use libsieve.Comparator.Casemap.{Num, unknown}
use libsieve.Comparator.Lookup.{
  Tokens, Comparator, Pattern, literal, compiled, suits, num_of_code, casemap_switch,
  numeric_switch_lookup, octet_lookup, casemap_lookup, numeric_lookup, comparator_lookup,
}
use libsieve.Comparator.Tags.{AreNumbered}

abbrev pub is_compiled : {R : Type 0} → Pattern R → Bool
is_compiled (literal s) = false
is_compiled (compiled r) = true

-- The comparators of a relation read any text, and the one for no relation reads nothing.
casemap_switch-suits :
    (R : Type 0) (num : Num) (s : Text) → suits {R = R} (casemap_switch num) (literal s) ≡ true
unfolding casemap_switch suits
casemap_switch-suits R unknown s = refl
casemap_switch-suits R _ s = refl

numeric_switch_lookup-suits :
    (R : Type 0) (num : Num) (s : Text)
    → suits {R = R} (numeric_switch_lookup num) (literal s) ≡ true
unfolding numeric_switch_lookup suits
numeric_switch_lookup-suits R unknown s = refl
numeric_switch_lookup-suits R _ s = refl

-- The bits of a relation are 0 in the token of `:regex`.
no_relation : (mode : ℕ) → mode ≡ 294 → num_of_code (mode / 2 ^ 10) ≡ unknown
unfolding num_of_code
no_relation mode e = rw e refl

-- A comparator that a lookup may give suits a pattern.
abbrev pub Suits : {R : Type 0} → Option Comparator → Pattern R → Type 0
Suits none p = Unit
Suits (some comp) p = suits comp p ≡ true

module _ (R : Type 0) (t : Tokens) (n : AreNumbered t) (mode : ℕ) where
  module _ (s : Text) (other : (mode == t.regex) ≡ false) where
    octet-literal : Suits {R = R} (octet_lookup t mode) (literal s)
    unfolding octet_lookup suits
    octet-literal = elim (Bool-cases (mode == t.is)) [
      | inl e ↦ rw e refl
      | inr a ↦ elim (Bool-cases (mode == t.contains)) [
        | inl e ↦ rw (a, e) refl
        | inr b ↦ elim (Bool-cases (mode == t.matches)) [
          | inl e ↦ rw (a, b, e) refl
          | inr d ↦ rw (a, b, d, other) tt
        ]
      ]
    ]

    casemap-literal : Suits {R = R} (casemap_lookup t mode) (literal s)
    unfolding casemap_lookup suits
    casemap-literal = elim (Bool-cases (mode == t.is)) [
      | inl e ↦ rw e refl
      | inr a ↦ elim (Bool-cases (mode == t.contains)) [
        | inl e ↦ rw (a, e) refl
        | inr b ↦ elim (Bool-cases (mode == t.matches)) [
          | inl e ↦ rw (a, b, e) refl
          | inr d ↦ rw (a, b, d, other) (casemap_switch-suits R (num_of_code (mode / 2 ^ 10)) s)
        ]
      ]
    ]

    numeric-literal : Suits {R = R} (numeric_lookup t mode) (literal s)
    unfolding numeric_lookup suits
    numeric-literal = elim (Bool-cases (mode == t.is)) [
      | inl e ↦ rw e refl
      | inr a ↦ rw a (numeric_switch_lookup-suits R (num_of_code (mode / 2 ^ 10)) s)
    ]

  module _ (r : R) (e : mode ≡ 294) where
    octet-compiled : Suits (octet_lookup t mode) (compiled r)
    unfolding octet_lookup suits
    octet-compiled = rw (e, n.is, n.contains, n.matches, n.regex) refl

    casemap-compiled : Suits (casemap_lookup t mode) (compiled r)
    unfolding casemap_lookup suits
    casemap-compiled = rw (e, n.is, n.contains, n.matches, n.regex) refl

    numeric-compiled : Suits (numeric_lookup t mode) (compiled r)
    unfolding numeric_lookup suits numeric_switch_lookup num_of_code
    numeric-compiled = rw (e, n.is) refl

  -- One of the three, or none.
  by_name :
      (comp : Text) (p : Pattern R)
      → Suits (octet_lookup t mode) p
      → Suits (casemap_lookup t mode) p
      → Suits (numeric_lookup t mode) p
      → Suits (comparator_lookup t comp mode) p
  unfolding comparator_lookup
  by_name comp p a b d = elim (Bool-cases (same_text comp (codes "i;octet"))) [
    | inl e ↦ rw e a
    | inr e ↦ elim (Bool-cases (same_text comp (codes "i;ascii-casemap"))) [
      | inl e' ↦ rw (e, e') b
      | inr e' ↦ elim (Bool-cases (same_text comp (codes "i;ascii-numeric"))) [
        | inl e'' ↦ rw (e, e', e'') d
        | inr e'' ↦ rw (e, e', e'') tt
      ]
    ]
  ]

  -- The comparator that a lookup gives for `:regex` reads expressions, and that for another tag
  -- texts, if it reads its pattern at all.
  pub comparator_lookup-Suits :
      (comp : Text) (p : Pattern R)
      → is_compiled p ≡ (mode == t.regex)
      → Suits (comparator_lookup t comp mode) p
  comparator_lookup-Suits comp (literal s) h =
      by_name comp (literal s) (octet-literal s (sym h)) (casemap-literal s (sym h))
        (numeric-literal s (sym h))
  comparator_lookup-Suits comp (compiled r) h =
      let e : mode ≡ 294 = ground (arith, n.regex, h) in
      by_name comp (compiled r) (octet-compiled r e) (casemap-compiled r e) (numeric-compiled r e)
