-- ===== src/Comparator/Tags.antt =====
-- src/sv_parser/comparator.c and src/sv_parser/sieve.y: a relation written into a comparator tag
-- is read back by the lookup.
use Prim.Native.Nat.{bit_and, bit_or}
use libsieve.Prelude.{
  ℕ, zero, suc, ◌+◌, ◌*◌, ◌/◌, ◌^◌, ◌<◌, Bool, true, false, ◌&&◌, none, some, Text, codes, ◌==◌, [],
  ◌∷◌, ==_iff, ◌≡◌, ◌≢◌, refl, ◌∙◌, and_true, arith, Bool-cases, inl, inr, ne→==,
}
use native.Mathlib.Decide.{dec_lt}
use libsieve.Libc.{same_text}
use libsieve.Comparator.Casemap.{Num, gt, ge, lt, le, eq, ne, unknown}
use libsieve.Comparator.Lookup.{
  Tokens, Comparator, unknown_casemap, unknown_numeric, casemap, numeric, num_code, num_of_code,
  num_of_name, relational_lookup, casemap_switch, numeric_switch_lookup, octet_lookup,
  casemap_lookup, numeric_lookup, comparator_lookup, relational_count, value_tag, count_tag,
}

-- What the code relies on: a token's number stays below bit 10, and `:value` and `:count` are
-- other tokens than the plain tags.
pub record AreTags (t : Tokens) : Type 0 where
  pub value_small : t.value < 1024
  pub count_small : t.count < 1024
  pub is_small : t.is < 1024
  pub contains_small : t.contains < 1024
  pub matches_small : t.matches < 1024
  pub regex_small : t.regex < 1024
  pub value_ne_is : t.value ≢ t.is
  pub value_ne_contains : t.value ≢ t.contains
  pub value_ne_matches : t.value ≢ t.matches
  pub value_ne_regex : t.value ≢ t.regex
  pub count_ne_is : t.count ≢ t.is
  pub count_ne_contains : t.count ≢ t.contains
  pub count_ne_matches : t.count ≢ t.matches
  pub count_ne_regex : t.count ≢ t.regex

-- A test that every number up to a bound passes.
passes : (ℕ → Bool) → ℕ → Bool
passes test zero = true
passes test (suc bound) = passes test bound && test bound

passes_inst :
    (test : ℕ → Bool) {bound : ℕ} (k : ℕ) → k < bound → passes test bound ≡ true → test k ≡ true
unfolding passes
passes_inst test {bound = zero} k below all = absurd (omega arith)
passes_inst test {bound = suc bound} k below all =
    let (lower, top) = and_true (passes test bound) (test bound) all in
    elim (dec_lt k bound) [
      | yes h ↦ passes_inst test k h lower
      | no h ↦ let e : k ≡ bound = omega arith in rw e top
    ]

disjoint : ℕ → ℕ → Bool
disjoint x k = bit_or x (k * 1024) == x + k * 1024

or_table : passes (λ x. passes (disjoint x) 7) 1024 ≡ true
unfolding passes disjoint
or_table = refl

-- The two parts of a tag do not overlap.
bit_or-tag : (x k : ℕ) → x < 1024 → k < 7 → bit_or x (k * 1024) ≡ x + k * 1024
unfolding disjoint
bit_or-tag x k hx hk =
    let row = passes_inst (λ x. passes (disjoint x) 7) x hx or_table in
    (==_iff _ _).0 (passes_inst (disjoint x) k hk row)

num_code-lt : (num : Num) → num_code num < 7
unfolding num_code
num_code-lt gt = omega arith
num_code-lt _ = omega arith

num_of_code-num_code : (num : Num) → num_of_code (num_code num) ≡ num
unfolding num_of_code num_code
num_of_code-num_code gt = refl
num_of_code-num_code _ = refl

-- The number of a tag whose token is `x` and whose relation is `num`.
abbrev tagged : ℕ → Num → ℕ
tagged x num = x + num_code num * 1024

bit_or-num : (x : ℕ) (num : Num) → x < 1024 → bit_or x (num_code num * 2 ^ 10) ≡ tagged x num
bit_or-num x num h = bit_or-tag x (num_code num) h (num_code-lt num)

tagged-shift : (x : ℕ) (num : Num) → x < 1024 → num_of_code (tagged x num / 2 ^ 10) ≡ num
tagged-shift x num h =
    let e : tagged x num / 1024 ≡ num_code num = omega arith in rw e (num_of_code-num_code num)

tagged-ne : (x y : ℕ) (num : Num) → y < 1024 → x ≢ y → (tagged x num == y) ≡ false
tagged-ne x y num hy h = ne→== (tagged x num) y (omega arith)

-- The comparators of a relation.
abbrev pub of_casemap : Num → Comparator
of_casemap unknown = unknown_casemap
of_casemap num = casemap num

abbrev pub of_numeric : Num → Comparator
of_numeric unknown = unknown_numeric
of_numeric num = numeric num

casemap_switch-of_casemap : (num : Num) → casemap_switch num ≡ of_casemap num
unfolding casemap_switch
casemap_switch-of_casemap unknown = refl
casemap_switch-of_casemap _ = refl

numeric_switch_lookup-of_numeric : (num : Num) → numeric_switch_lookup num ≡ of_numeric num
unfolding numeric_switch_lookup
numeric_switch_lookup-of_numeric unknown = refl
numeric_switch_lookup-of_numeric _ = refl

module _ (t : Tokens) (x : ℕ) (num : Num) (h : x < 1024) (l : AreTags t) where
  casemap_lookup-tagged :
      x ≢ t.is
      → x ≢ t.contains
      → x ≢ t.matches
      → x ≢ t.regex
      → casemap_lookup t (tagged x num) ≡ some (of_casemap num)
  unfolding casemap_lookup
  casemap_lookup-tagged a b c d = rw (
    tagged-ne x t.is num l.is_small a,
    tagged-ne x t.contains num l.contains_small b,
    tagged-ne x t.matches num l.matches_small c,
    tagged-ne x t.regex num l.regex_small d,
    tagged-shift x num h,
    casemap_switch-of_casemap num,
  )

  numeric_lookup-tagged : x ≢ t.is → numeric_lookup t (tagged x num) ≡ some (of_numeric num)
  unfolding numeric_lookup
  numeric_lookup-tagged a = rw (
    tagged-ne x t.is num l.is_small a,
    tagged-shift x num h,
    numeric_switch_lookup-of_numeric num,
  )

  octet_lookup-tagged :
      x ≢ t.is → x ≢ t.contains → x ≢ t.matches → x ≢ t.regex → octet_lookup t (tagged x num) ≡ none
  unfolding octet_lookup
  octet_lookup-tagged a b c d = rw (
    tagged-ne x t.is num l.is_small a,
    tagged-ne x t.contains num l.contains_small b,
    tagged-ne x t.matches num l.matches_small c,
    tagged-ne x t.regex num l.regex_small d,
  )

-- The lookups by name are those of the three collations.
comparator_lookup-names :
    (t : Tokens) (mode : ℕ)
    → (comparator_lookup t (codes "i;octet") mode ≡ octet_lookup t mode)
      × (comparator_lookup t (codes "i;ascii-casemap") mode ≡ casemap_lookup t mode)
      × (comparator_lookup t (codes "i;ascii-numeric") mode ≡ numeric_lookup t mode)
unfolding comparator_lookup same_text
comparator_lookup-names t mode = (refl, refl, refl)

-- The name of a relation; `unknown` has all the other names.
abbrev pub IsNameOf : Num → Text → Type 0
IsNameOf gt rel = rel ≡ codes "gt"
IsNameOf ge rel = rel ≡ codes "ge"
IsNameOf lt rel = rel ≡ codes "lt"
IsNameOf le rel = rel ≡ codes "le"
IsNameOf eq rel = rel ≡ codes "eq"
IsNameOf ne rel = rel ≡ codes "ne"
IsNameOf unknown rel =
    (rel ≢ codes "gt")
    × (rel ≢ codes "ge")
    × (rel ≢ codes "lt")
    × (rel ≢ codes "le")
    × (rel ≢ codes "eq")
    × (rel ≢ codes "ne")

pub same_text-eq : (s t : Text) → same_text s t ≡ true → s ≡ t
unfolding same_text
same_text-eq [] [] h = refl
same_text-eq [] (d ∷ t) h = cc
same_text-eq (c ∷ s) [] h = cc
same_text-eq (c ∷ s) (d ∷ t) h = ground (arith, same_text-eq s t)

same_text-ne : (s t : Text) → s ≢ t → same_text s t ≡ false
same_text-ne s t h = elim (Bool-cases (same_text s t)) [
  | inl same ↦ absurd (h (same_text-eq s t same))
  | inr other ↦ other
]

num_of_name-unknown : (rel : Text) → IsNameOf unknown rel → num_of_name rel ≡ unknown
unfolding num_of_name
num_of_name-unknown rel (a, b, c, d, e, f) = rw (
  same_text-ne rel _ a,
  same_text-ne rel _ b,
  same_text-ne rel _ c,
  same_text-ne rel _ d,
  same_text-ne rel _ e,
  same_text-ne rel _ f,
)

num_of_name-IsNameOf : (num : Num) (rel : Text) → IsNameOf num rel → num_of_name rel ≡ num
unfolding num_of_name same_text
num_of_name-IsNameOf gt rel e = rw e refl
num_of_name-IsNameOf ge rel e = rw e refl
num_of_name-IsNameOf lt rel e = rw e refl
num_of_name-IsNameOf le rel e = rw e refl
num_of_name-IsNameOf eq rel e = rw e refl
num_of_name-IsNameOf ne rel e = rw e refl
num_of_name-IsNameOf unknown rel h = num_of_name-unknown rel h

-- The three comparators that one tag selects.
abbrev pub Selects : Tokens → ℕ → Num → Type 0
Selects t mode num =
    (comparator_lookup t (codes "i;octet") mode ≡ none)
    × (comparator_lookup t (codes "i;ascii-casemap") mode ≡ some (of_casemap num))
    × (comparator_lookup t (codes "i;ascii-numeric") mode ≡ some (of_numeric num))

value_tag-tagged :
    (t : Tokens) (rel : Text) → AreTags t → value_tag t rel ≡ tagged t.value (num_of_name rel)
unfolding value_tag relational_lookup
value_tag-tagged t rel l = bit_or-num t.value (num_of_name rel) l.value_small

count_tag-tagged :
    (t : Tokens) (rel : Text) → AreTags t → count_tag t rel ≡ tagged t.count (num_of_name rel)
unfolding count_tag relational_lookup
count_tag-tagged t rel l = bit_or-num t.count (num_of_name rel) l.count_small

-- A tag written by `:value` or by `:count` with a relation's name selects the comparator of that
-- relation, in either collation that has relations, and none in `i;octet`; with any other name it
-- selects the comparator that never holds.
pub comparator_lookup-Selects :
    (t : Tokens) (rel : Text)
    → AreTags t
    → Selects t (value_tag t rel) (num_of_name rel) × Selects t (count_tag t rel) (num_of_name rel)
comparator_lookup-Selects t rel l =
    let num = num_of_name rel in
    let (oct, cas, dig) = comparator_lookup-names t (value_tag t rel) in
    let (oct', cas', dig') = comparator_lookup-names t (count_tag t rel) in
    (
      (
        oct
            ∙ (rw (value_tag-tagged t rel l) (
                octet_lookup-tagged t t.value num l.value_small l l.value_ne_is l.value_ne_contains
                  l.value_ne_matches l.value_ne_regex)),
        cas
            ∙ (rw (value_tag-tagged t rel l) (
                casemap_lookup-tagged t t.value num l.value_small l l.value_ne_is
                  l.value_ne_contains l.value_ne_matches l.value_ne_regex)),
        dig
            ∙ (rw (value_tag-tagged t rel l)
                (numeric_lookup-tagged t t.value num l.value_small l l.value_ne_is)),
      ),
      (
        oct'
            ∙ (rw (count_tag-tagged t rel l) (
                octet_lookup-tagged t t.count num l.count_small l l.count_ne_is l.count_ne_contains
                  l.count_ne_matches l.count_ne_regex)),
        cas'
            ∙ (rw (count_tag-tagged t rel l) (
                casemap_lookup-tagged t t.count num l.count_small l l.count_ne_is
                  l.count_ne_contains l.count_ne_matches l.count_ne_regex)),
        dig'
            ∙ (rw (count_tag-tagged t rel l)
                (numeric_lookup-tagged t t.count num l.count_small l l.count_ne_is)),
      ),
    )

-- The numbers that the parser generator gives out: from 258 on, in the order of the `%token`
-- lines of the grammar.
pub record AreNumbered (t : Tokens) : Type 0 where
  pub is : t.is ≡ 291
  pub contains : t.contains ≡ 292
  pub matches : t.matches ≡ 293
  pub regex : t.regex ≡ 294
  pub count : t.count ≡ 297
  pub value : t.value ≡ 298

AreNumbered-AreTags : (t : Tokens) → AreNumbered t → AreTags t
AreNumbered-AreTags t n = record {
  value_small = omega (arith, n.value);
  count_small = omega (arith, n.count);
  is_small = omega (arith, n.is);
  contains_small = omega (arith, n.contains);
  matches_small = omega (arith, n.matches);
  regex_small = omega (arith, n.regex);
  value_ne_is = omega (arith, n.value, n.is);
  value_ne_contains = omega (arith, n.value, n.contains);
  value_ne_matches = omega (arith, n.value, n.matches);
  value_ne_regex = omega (arith, n.value, n.regex);
  count_ne_is = omega (arith, n.count, n.is);
  count_ne_contains = omega (arith, n.count, n.contains);
  count_ne_matches = omega (arith, n.count, n.matches);
  count_ne_regex = omega (arith, n.count, n.regex);
}

-- No tag of a relation is that of `:regex`.
pub relation_tag-ne-regex :
    (t : Tokens) (rel : Text)
    → AreNumbered t
    → (value_tag t rel ≢ t.regex) × (count_tag t rel ≢ t.regex)
relation_tag-ne-regex t rel n =
    let tags = AreNumbered-AreTags t n in
    (
      omega (arith, value_tag-tagged t rel tags, n.value, n.regex),
      omega (arith, count_tag-tagged t rel tags, n.count, n.regex),
    )

count_bits : (num : Num) → bit_and (bit_or 297 (num_code num * 2 ^ 10)) 297 ≡ 297
unfolding num_code
count_bits gt = refl
count_bits _ = refl

value_bits : (num : Num) → bit_and (bit_or 298 (num_code num * 2 ^ 10)) 297 ≡ 296
unfolding num_code
value_bits gt = refl
value_bits _ = refl

-- With these numbers the bit test tells the tags of `:count` from all other tags.
pub relational_count-tags :
    (t : Tokens) (rel : Text)
    → AreNumbered t
    → (relational_count t (count_tag t rel) ≡ true)
      × (relational_count t (value_tag t rel) ≡ false)
      × (relational_count t t.is ≡ false)
      × (relational_count t t.contains ≡ false)
      × (relational_count t t.matches ≡ false)
      × (relational_count t t.regex ≡ false)
unfolding relational_count count_tag value_tag relational_lookup
relational_count-tags t rel n = (
  rw (n.count, count_bits (num_of_name rel)),
  rw (n.count, n.value, value_bits (num_of_name rel)),
  rw (n.count, n.is),
  rw (n.count, n.contains),
  rw (n.count, n.matches),
  rw (n.count, n.regex),
)

-- With these numbers, a tag written by `:value` or by `:count` with the name of one of the six
-- relations selects the comparator of that relation, in either collation that has relations, and
-- none in `i;octet`; with any other name it selects the comparator of these two collations that never
-- holds, and none in `i;octet`. The bit test tells the tags of `:count` from all other tags.
pub tags-Selects :
    (t : Tokens) (rel : Text) (num : Num)
    → AreNumbered t
    → IsNameOf num rel
    → Selects t (value_tag t rel) num
      × Selects t (count_tag t rel) num
      × (relational_count t (count_tag t rel) ≡ true)
      × (relational_count t (value_tag t rel) ≡ false)
      × (relational_count t t.is ≡ false)
      × (relational_count t t.contains ≡ false)
      × (relational_count t t.matches ≡ false)
      × (relational_count t t.regex ≡ false)
tags-Selects t rel num n name =
    let (value, count) =
      rw (num_of_name-IsNameOf num rel name) at
        (comparator_lookup-Selects t rel (AreNumbered-AreTags t n)) in
    let (a, b, c, d, e, f) = relational_count-tags t rel n in (value, count, a, b, c, d, e, f)
