-- ===== src/Grammar/Tags.antt =====
-- src/sv_parser/sieve.y: the tags of a test, and those of `notify`.
use libsieve.Prelude.{ℕ, List, [], ◌∷◌, Option, none, some, Text, codes}
use libsieve.Comparator.Lookup.{Tokens, value_tag, count_tag}
use libsieve.Address.Parts.{AddressPart, all, user, detail}
use libsieve.Interface.Register.{Support}
use libsieve.Grammar.Checked.{Checked, built, sieveerror, unless, ◌>>=◌, ◌>>◌}

-- `comptag`, with its relation.
pub data Comptag : Type 0 where
  is contains matches regex : Comptag
  value count : Text → Comptag

-- A tag of `htags` or `hftags`, and one of `aetags`.
pub data Tag : Type 0 where
  comptag : Comptag → Tag
  comparator : Text → Tag

pub data Aetag : Type 0 where
  addrparttag : AddressPart → Aetag
  plain : Tag → Aetag

-- `struct htags` and `struct hftags`; `none` is -1 and the null pointer.
pub record Htags : Type 0 where
  pub comparator : Option Text
  pub comptag : Option ℕ

pub record Aetags : Type 0 where
  pub addrtag : Option AddressPart
  pub tags : Htags

unfoldable pub new_htags : Htags
new_htags = record { comparator = none; comptag = none }

unfoldable pub new_aetags : Aetags
unfolding new_htags
new_aetags = record { addrtag = none; tags = new_htags }

module _ (t : Tokens) (require : Support) where
  unfoldable pub comptag_of : Comptag → Checked ℕ
  comptag_of is = built t.is
  comptag_of (value rel) = built (value_tag t rel)
  comptag_of (count rel) = built (count_tag t rel)
  comptag_of contains = built t.contains
  comptag_of matches = built t.matches
  comptag_of regex = unless require.regex (codes "regex not required") >> built t.regex

  unfoldable pub addrparttag_of : AddressPart → Checked AddressPart
  addrparttag_of user = unless require.subaddress (codes "subaddress not required") >> built user
  addrparttag_of detail =
      unless require.subaddress (codes "subaddress not required") >> built detail
  addrparttag_of part = built part

  -- The place of a tag that may be there once.
  unfoldable pub set_comparator : Text → Htags → Checked Htags
  set_comparator s h = elim h.comparator [
    | none ↦ built (record h { comparator = some s })
    | some old ↦ sieveerror (codes "duplicate comparator tag")
  ]

  unfoldable pub set_comptag : ℕ → Htags → Checked Htags
  set_comptag n h = elim h.comptag [
    | none ↦ built (record h { comptag = some n })
    | some old ↦ sieveerror (codes "duplicate comparator type tag")
  ]

  unfoldable pub add_htag : Tag → Htags → Checked Htags
  unfolding comptag_of set_comparator set_comptag
  add_htag (comptag c) h = comptag_of c >>= λ n. set_comptag n h
  add_htag (comparator s) h = set_comparator s h

  unfoldable pub htags : List Tag → Htags → Checked Htags
  unfolding add_htag
  htags [] h = built h
  htags (tag ∷ tags) h = add_htag tag h >>= htags tags

  -- A second comparator type takes the place of the first.
  unfoldable pub add_hftag : Tag → Htags → Checked Htags
  unfolding comptag_of set_comparator
  add_hftag (comptag c) h = comptag_of c >>= λ n. built (record h { comptag = some n })
  add_hftag (comparator s) h = set_comparator s h

  unfoldable pub hftags : List Tag → Htags → Checked Htags
  unfolding add_hftag
  hftags [] h = built h
  hftags (tag ∷ tags) h = add_hftag tag h >>= hftags tags

  unfoldable pub set_addrtag : AddressPart → Aetags → Checked Aetags
  set_addrtag part ae = elim ae.addrtag [
    | none ↦ built (record ae { addrtag = some part })
    | some old ↦ sieveerror (codes "duplicate or conflicting address part tag")
  ]

  unfoldable pub add_aetag : Aetag → Aetags → Checked Aetags
  unfolding addrparttag_of set_addrtag add_htag
  add_aetag (addrparttag p) ae = addrparttag_of p >>= λ part. set_addrtag part ae
  add_aetag (plain tag) ae = add_htag tag ae.tags >>= λ h. built (record ae { tags = h })

  unfoldable pub aetags : List Aetag → Aetags → Checked Aetags
  unfolding add_aetag
  aetags [] ae = built ae
  aetags (tag ∷ tags) ae = add_aetag tag ae >>= aetags tags

-- The two members once they have their defaults.
pub record Canon : Type 0 where
  pub comparator : Text
  pub comptag : ℕ

abbrev pub or_else {ℓ} : {A : Type ℓ} → Option A → A → A
or_else none a = a
or_else (some b) a = b

unfoldable pub canon_htags : Tokens → Htags → Canon
canon_htags t h = record {
  comparator = or_else h.comparator (codes "i;ascii-casemap");
  comptag = or_else h.comptag t.is;
}

unfoldable pub canon_addrtag : Option AddressPart → AddressPart
canon_addrtag part = or_else part all

-- `struct ntags`, and a tag with its argument.
pub record Ntags : Type 0 where
  pub method : Option Text
  pub id : Option Text
  pub options : List Text
  pub priority : Option Text
  pub message : Option Text

pub data Priority : Type 0 where
  low normal high : Priority

pub data Ntag : Type 0 where
  id method message : Text → Ntag
  options : List Text → Ntag
  priority : Priority → Ntag

unfoldable pub new_ntags : Ntags
new_ntags = record { method = none; id = none; options = []; priority = none; message = none }

unfoldable pub priority_of : Priority → Text
priority_of low = codes "low"
priority_of normal = codes "normal"
priority_of high = codes "high"

-- A string that is not there yet.
abbrev pub once : Option Text → Text → Ntags → Checked Ntags
once none msg n = built n
once (some old) msg n = sieveerror msg

abbrev pub once_list : List Text → Text → Ntags → Checked Ntags
once_list [] msg n = built n
once_list (old ∷ more) msg n = sieveerror msg

unfoldable pub add_ntag : Ntag → Ntags → Checked Ntags
unfolding priority_of
add_ntag (id s) n = once n.id (codes "duplicate :method") (record n { id = some s })
add_ntag (method s) n = once n.method (codes "duplicate :method") (record n { method = some s })
add_ntag (options sl) n =
    once_list n.options (codes "duplicate :options") (record n { options = sl })
add_ntag (priority p) n =
    once n.priority (codes "duplicate :priority") (record n { priority = some (priority_of p) })
add_ntag (message s) n = once n.message (codes "duplicate :message") (record n { message = some s })

unfoldable pub ntags : List Ntag → Ntags → Checked Ntags
unfolding add_ntag
ntags [] n = built n
ntags (tag ∷ tags) n = add_ntag tag n >>= ntags tags

unfoldable pub canon_ntags : Ntags → Ntags
canon_ntags n = record n {
  priority = some (or_else n.priority (codes "normal"));
  message = some (or_else n.message (codes "$from$: $subject$"));
}
