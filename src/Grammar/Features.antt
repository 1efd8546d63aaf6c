-- ===== src/Grammar/Features.antt =====
-- src/sv_parser/sieve.y: a test is built only where the extensions that it needs are required.
use libsieve.Prelude.{ℕ, true, List, [], ◌∷◌, Option, none, some, Text, codes, ◌≡◌, ap, arith}
use libsieve.Comparator.Lookup.{Tokens, Comparator, Pattern, comparator_lookup}
use libsieve.Comparator.Tags.{AreNumbered, relation_tag-ne-regex}
use libsieve.Address.Parts.{AddressPart, all, localpart, domain, user, detail}
use libsieve.Script.Syntax.{Match}
use libsieve.Interface.Register.{Support}
use libsieve.Grammar.Checked.{
  built, refused, Builds, Builds-bind, Builds-any, Builds-after, Builds-unless,
}
use libsieve.Grammar.Tags.{
  Comptag, is, value, count, contains, matches, regex, Tag, comptag, comparator, Aetag, addrparttag,
  plain, Htags, Aetags, new_htags, new_aetags, comptag_of, addrparttag_of, set_comparator,
  set_comptag, add_htag, htags, set_addrtag, add_aetag, aetags, Canon, canon_htags, canon_addrtag,
  or_else,
}
use libsieve.Grammar.Verify.{Regcomp, verify_headers, patterns_of}
use libsieve.Grammar.Tests.{build_match, match_of, test_of}
use libsieve.Grammar.Forms.{TestForm}
use libsieve.Grammar.Trees.{InTest}
use libsieve.Grammar.Induction.{test_of-InTest}

-- A test by regular expressions, and a part of an address.
abbrev pub RegexAllowed : {R : Type 0} → Tokens → Support → Match R → Type 0
RegexAllowed t r m = m.comptag ≡ t.regex → r.regex ≡ true

abbrev pub PartAllowed : Support → AddressPart → Type 0
PartAllowed r user = r.subaddress ≡ true
PartAllowed r detail = r.subaddress ≡ true
PartAllowed r _ = Unit

module _ (t : Tokens) (n : AreNumbered t) (r : Support) where
  -- Of the tags that were read.
  abbrev TagsAllowed : Htags → Type 0
  TagsAllowed h = h.comptag ≡ some t.regex → r.regex ≡ true

  comptag_of-allowed : (c : Comptag) → Builds (λ k. k ≡ t.regex → r.regex ≡ true) (comptag_of t r c)
  unfolding comptag_of
  comptag_of-allowed is = λ e. absurd (omega (arith, n.is, n.regex, e))
  comptag_of-allowed (value rel) = λ e. absurd ((relation_tag-ne-regex t rel n).0 e)
  comptag_of-allowed (count rel) = λ e. absurd ((relation_tag-ne-regex t rel n).1 e)
  comptag_of-allowed contains = λ e. absurd (omega (arith, n.contains, n.regex, e))
  comptag_of-allowed matches = λ e. absurd (omega (arith, n.matches, n.regex, e))
  comptag_of-allowed regex =
      Builds-unless (λ k. k ≡ t.regex → r.regex ≡ true) r.regex _ _ (λ e _. e)

  set_comparator-allowed :
      (s : Text) (h : Htags) → TagsAllowed h → Builds TagsAllowed (set_comparator t r s h)
  unfolding set_comparator
  set_comparator-allowed s h a = ground arith

  set_comptag-allowed :
      (k : ℕ) (h : Htags)
      → (k ≡ t.regex → r.regex ≡ true)
      → Builds TagsAllowed (set_comptag t r k h)
  unfolding set_comptag
  set_comptag-allowed k h a = ground arith

  add_htag-allowed :
      (tag : Tag) (h : Htags) → TagsAllowed h → Builds TagsAllowed (add_htag t r tag h)
  unfolding add_htag
  add_htag-allowed (comptag c) h a =
      Builds-bind (λ k. k ≡ t.regex → r.regex ≡ true) TagsAllowed (comptag_of t r c)
        (λ k. set_comptag t r k h) (comptag_of-allowed c) (λ k b. set_comptag-allowed k h b)
  add_htag-allowed (comparator s) h a = set_comparator-allowed s h a

  htags-allowed :
      (tags : List Tag) (h : Htags) → TagsAllowed h → Builds TagsAllowed (htags t r tags h)
  unfolding htags
  htags-allowed [] h a = a
  htags-allowed (tag ∷ tags) h a =
      Builds-bind TagsAllowed TagsAllowed (add_htag t r tag h) (htags t r tags)
        (add_htag-allowed tag h a) (λ h' b. htags-allowed tags h' b)

  -- Of the tags of a test of addresses.
  abbrev AeAllowed : Aetags → Type 0
  AeAllowed ae = PartAllowed r (canon_addrtag ae.addrtag) × TagsAllowed ae.tags

  addrparttag_of-allowed : (part : AddressPart) → Builds (PartAllowed r) (addrparttag_of t r part)
  unfolding addrparttag_of
  addrparttag_of-allowed user = Builds-unless (PartAllowed r) r.subaddress _ _ (λ e. e)
  addrparttag_of-allowed detail = Builds-unless (PartAllowed r) r.subaddress _ _ (λ e. e)
  addrparttag_of-allowed all = tt
  addrparttag_of-allowed localpart = tt
  addrparttag_of-allowed domain = tt

  set_addrtag-allowed :
      (part : AddressPart) (ae : Aetags)
      → PartAllowed r part
      → AeAllowed ae
      → Builds AeAllowed (set_addrtag t r part ae)
  unfolding set_addrtag canon_addrtag
  set_addrtag-allowed part ae p (q, a) = placed ae.addrtag
    where
      placed :
          (old : Option AddressPart)
          → Builds AeAllowed (elim old [
            | none ↦ built (record ae { addrtag = some part })
            | some tag ↦ refused (some (codes "duplicate or conflicting address part tag"))
          ])
      placed none = (p, a)
      placed (some tag) = tt

  add_aetag-allowed :
      (tag : Aetag) (ae : Aetags) → AeAllowed ae → Builds AeAllowed (add_aetag t r tag ae)
  unfolding add_aetag
  add_aetag-allowed (addrparttag part) ae h =
      Builds-bind (PartAllowed r) AeAllowed (addrparttag_of t r part) (λ p. set_addrtag t r p ae)
        (addrparttag_of-allowed part) (λ p b. set_addrtag-allowed p ae b h)
  add_aetag-allowed (plain tag) ae (q, a) =
      Builds-bind TagsAllowed AeAllowed (add_htag t r tag ae.tags)
        (λ h. built (record ae { tags = h })) (add_htag-allowed tag ae.tags a) (λ h b. (q, b))

  aetags-allowed :
      (tags : List Aetag) (ae : Aetags) → AeAllowed ae → Builds AeAllowed (aetags t r tags ae)
  unfolding aetags
  aetags-allowed [] ae h = h
  aetags-allowed (tag ∷ tags) ae h =
      Builds-bind AeAllowed AeAllowed (add_aetag t r tag ae) (aetags t r tags)
        (add_aetag-allowed tag ae h) (λ ae' b. aetags-allowed tags ae' b)

  no_tags : TagsAllowed new_htags
  unfolding new_htags
  no_tags = λ e. cc

  no_aetags : AeAllowed new_aetags
  unfolding new_aetags new_htags canon_addrtag
  no_aetags = (tt, λ e. cc)

  canon-allowed : (h : Htags) → TagsAllowed h → (canon_htags t h).comptag ≡ t.regex → r.regex ≡ true
  unfolding canon_htags
  canon-allowed h a = of_tag h.comptag a
    where
      of_tag :
          (tag : Option ℕ)
          → (tag ≡ some t.regex → r.regex ≡ true)
          → or_else tag t.is ≡ t.regex
          → r.regex ≡ true
      of_tag none a e = absurd (omega (arith, n.is, n.regex, e))
      of_tag (some k) a e = a (ap some e)

module _ {R : Type 0} (t : Tokens) (n : AreNumbered t) (regcomp : Regcomp R) (r : Support) where
  build_match-allowed :
      (h : Canon) (sl : List Text) (pl : List (Pattern R))
      → (h.comptag ≡ t.regex → r.regex ≡ true)
      → Builds (RegexAllowed t r) (build_match t regcomp r h sl pl)
  unfolding build_match
  build_match-allowed h sl pl a = matched (comparator_lookup t h.comparator h.comptag)
    where
      matched :
          (found : Option Comparator)
          → Builds (RegexAllowed {R = R} t r) (elim found [
            | none ↦ refused none
            | some comp ↦ built (record { comptag = h.comptag; comp = comp; sl = sl; pl = pl })
          ])
      matched none = tt
      matched (some comp) = a

  match_of-allowed :
      (h : Htags) (sl pl : List Text)
      → (h.comptag ≡ some t.regex → r.regex ≡ true)
      → Builds (RegexAllowed t r) (match_of t regcomp r h sl pl)
  unfolding match_of
  match_of-allowed h sl pl a = Builds-after (RegexAllowed t r) (verify_headers sl) _ (
      Builds-bind (λ _. Unit) (RegexAllowed t r) (patterns_of t regcomp (canon_htags t h) pl)
        (build_match t regcomp r (canon_htags t h) sl) (Builds-any _)
        (λ ps _. build_match-allowed (canon_htags t h) sl ps (canon-allowed t n r h a)))

  pub test_of-allowed :
      (form : TestForm)
      → Builds
          (InTest (RegexAllowed t r) (PartAllowed r) (r.imap4flags ≡ true))
          (test_of t regcomp r form)
  test_of-allowed form =
      test_of-InTest t regcomp r (λ h. h.comptag ≡ some t.regex → r.regex ≡ true) (RegexAllowed t r)
        (PartAllowed r) (r.imap4flags ≡ true)
        (λ tags. htags-allowed t n r tags new_htags (no_tags t n r))
        (λ tags. aetags-allowed t n r tags new_aetags (no_aetags t n r)) match_of-allowed (λ e. e)
        form
