-- ===== src/Grammar/Asked.antt =====
-- src/sv_parser/sieve.y: what a script requires is what its require commands name, besides what was
-- required in the context before.
use libsieve.Prelude.{
  Bool, true, false, List, [], ◌∷◌, Text, codes, ◌==◌, ◌≡◌, ◌⊎◌, inl, inr, refl, sym, ap, ◌∙◌, any,
  arith, Bool-cases, if◌then◌else◌,
}
use libsieve.Libc.{same_text}
use libsieve.Run.{Run, ok, fault, Returns}
use libsieve.Comparator.Tags.{same_text-eq}
use libsieve.Interface.Register.{Support}
use libsieve.Grammar.Checked.{Builds, Builds-mono}
use libsieve.Grammar.Require.{
  Feature, Named, feature, comparator, unknown, named, Required, passed, require,
}
use libsieve.Grammar.Required.{
  offers, requires, number_of, is_named, HaveRoom, Answers, Requires, require-Requires,
}
use libsieve.Grammar.Missing.{name_of}
use libsieve.Grammar.Commands.{if_passed, reqs}
use libsieve.Grammar.Trees.{All}

-- A require command has the name of the extension, and one of several has.
abbrev pub Names : Feature → List Text → Type 0
Names f [] = ⊥
Names f (s ∷ sl) = (s ≡ name_of f) ⊎ Names f sl

abbrev pub SomeNames : Feature → List (List Text) → Type 0
SomeNames f [] = ⊥
SomeNames f (sl ∷ more) = Names f sl ⊎ SomeNames f more

-- What is required behind these commands is named by one of them, or was required before.
abbrev pub Asked : Support → List (List Text) → Support → Type 0
Asked before requires_ r =
    (f : Feature) → requires r f ≡ true → (requires before f ≡ true) ⊎ SomeNames f requires_

same_feature : (f g : Feature) → (number_of f == number_of g) ≡ true → g ≡ f
same_feature f g e = ground arith

is_named-feature : (f : Feature) (n : Named) → is_named f n ≡ true → n ≡ feature f
is_named-feature f (feature g) e = ap feature (same_feature f g e)
is_named-feature f comparator e = cc
is_named-feature f unknown e = cc

feature-inj : (f g : Feature) → feature f ≡ feature g → f ≡ g
feature-inj f g e = cc

-- Where the name is that of an extension, and where it goes on.
extension :
    (s : Text) (g f : Feature) (rest : Named)
    → (rest ≡ feature f → s ≡ name_of f)
    → (if same_text (name_of g) s then feature g else rest) ≡ feature f
    → s ≡ name_of f
extension s g f rest go h = elim (Bool-cases (same_text (name_of g) s)) [
  | inl hit ↦ sym (same_text-eq (name_of g) s hit) ∙ ap name_of (feature-inj g f (rw hit at h))
  | inr miss ↦ go (rw miss at h)
]

-- The same for that of a comparator.
collation :
    (t s : Text) (f : Feature) (rest : Named)
    → (rest ≡ feature f → s ≡ name_of f)
    → (if same_text t s then comparator else rest) ≡ feature f
    → s ≡ name_of f
collation t s f rest go h = elim (Bool-cases (same_text t s)) [
  | inl hit ↦ let e : comparator ≡ feature f = rw hit at h in cc
  | inr miss ↦ go (rw miss at h)
]

named-inv : (f : Feature) (s : Text) → named s ≡ feature f → s ≡ name_of f
unfolding named
named-inv f s = extension s Feature.fileinto f _ (
    extension s Feature.reject f _ (
      extension s Feature.envelope f _ (
        extension s Feature.vacation f _ (
          extension s Feature.notify f _ (
            extension s Feature.subaddress f _ (
              extension s Feature.imap4flags f _ (
                extension s Feature.regex f _ (
                  extension s Feature.relational f _ (
                    collation (codes "comparator-i;octet") s f _ (
                      collation (codes "comparator-i;ascii-casemap") s f _
                        (collation (codes "comparator-i;ascii-numeric") s f _ (λ h. cc))))))))))))

any-Names : (f : Feature) (sl : List Text) → any (λ s. is_named f (named s)) sl ≡ true → Names f sl
any-Names f [] e = cc
any-Names f (s ∷ sl) e = elim (Bool-cases (is_named f (named s))) [
  | inl hit ↦ inl (named-inv f s (is_named-feature f (named s) hit))
  | inr miss ↦ inr (any-Names f sl (rw miss at e))
]

asked :
    (b supported before after : Bool)
    → after ≡ (if b then supported else before)
    → after ≡ true
    → (b ≡ true) ⊎ (before ≡ true)
asked true supported before after e h = inl refl
asked false supported before after e h = inr (sym e ∙ h)

Requires-Asked :
    (support : Support) (sl : List Text) (r r' : Support)
    → Requires support sl r r'
    → (f : Feature) → requires r' f ≡ true
    → Names f sl ⊎ (requires r f ≡ true)
Requires-Asked support sl r r' q f h =
    elim (asked (any (λ s. is_named f (named s)) sl) (offers support f) (requires r f)
      (requires r' f) (q f) h) [ inl hit ↦ inl (any-Names f sl hit) | inr old ↦ inr old ]

Asked-step :
    (sl : List Text) (more : List (List Text)) (r r' last : Support)
    → ((f : Feature) → requires r' f ≡ true → Names f sl ⊎ (requires r f ≡ true))
    → Asked r' more last
    → Asked r (sl ∷ more) last
Asked-step sl more r r' last first rest f h = elim (rest f h) [
  | inr later ↦ inr (inr later)
  | inl here ↦ elim (first f here) [ inl now ↦ inr (inl now) | inr old ↦ inl old ]
]

pub reqs-Asked :
    (support : Support) (requires_ : List (List Text)) (r : Support)
    → All HaveRoom requires_
    → Builds (Asked r requires_) (reqs support requires_ r)
unfolding reqs
reqs-Asked support [] r rooms = λ f h. inl h
reqs-Asked support (sl ∷ more) r (room, rooms) =
    goes_on (require support sl r) (require-Requires support sl r room)
      (λ r'. reqs-Asked support more r' rooms)
  where
    goes_on :
        (result : Run (Required × Support))
        → Returns (λ (answer, r'). Answers support sl answer × Requires support sl r r') result
        → ((r' : Support) → Builds (Asked r' more) (reqs support more r'))
        → Builds (Asked r (sl ∷ more)) (if_passed result (reqs support more))
    goes_on (ok (passed, r')) (a, q) rest =
        Builds-mono (Asked r' more) (Asked r (sl ∷ more)) (reqs support more r')
          (λ last. Asked-step sl more r r' last (Requires-Asked support sl r r' q)) (rest r')
    goes_on (ok (Required.refused msg, r')) h rest = tt
    goes_on (fault e) h rest = absurd h
