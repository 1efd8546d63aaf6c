-- ===== src/Grammar/Typed.antt =====
-- src/sv_parser/sieve.y: in a test that the grammar builds, the comparator reads the patterns as
-- what they are, and the names are those of headers.
use libsieve.Prelude.{
  Bool, true, false, List, [], ◌∷◌, map, Option, none, some, Text, codes, ◌≡◌, refl, Bool-cases,
  inl, inr, ◌==◌, ◌⊎◌,
}
use libsieve.Run.{Run, ok, fault}
use libsieve.Libc.{same_text}
use libsieve.Util.Buffers.{strconcat}
use libsieve.Comparator.Lookup.{
  Tokens, Comparator, Pattern, literal, compiled, suits, comparator_lookup,
}
use libsieve.Comparator.Tags.{AreNumbered}
use libsieve.Script.Syntax.{Match}
use libsieve.Interface.Register.{Support}
use libsieve.Grammar.Checked.{
  built, refused, report_joined, ◌>>=◌, Builds, Builds-bind, Builds-mono,
}
use libsieve.Grammar.Tags.{Htags, Canon, canon_htags}
use libsieve.Grammar.Verify.{
  all_ftext, not_a_header, verify_header, verify_headers, Regcomp, regexs_loop, verify_regexs,
  patterns_of,
}
use libsieve.Grammar.Tests.{build_match, match_of}
use libsieve.Grammar.Trees.{All}
use libsieve.Grammar.Kinds.{is_compiled, comparator_lookup-Suits}

-- Texts, or expressions.
abbrev pub AreOfKind : {R : Type 0} → Bool → List (Pattern R) → Type 0
AreOfKind b pl = All (λ p. is_compiled p ≡ b) pl

-- The tag tells the kind of the patterns, the comparator suits each of them, and each name is that
-- of a header.
pub record IsTyped {R : Type 0} (t : Tokens) (m : Match R) : Type 0 where
  pub kinds : AreOfKind (m.comptag == t.regex) m.pl
  pub patterns : All (λ p. suits m.comp p ≡ true) m.pl
  pub names : All (λ s. all_ftext s ≡ true) m.sl

joined : (P : Unit {0} → Type 0) (r : Run (Option Text)) → Builds P (report_joined r)
joined P (ok none) = tt
joined P (ok (some err)) = tt
joined P (fault e) = tt

verify_header-ftext : (s : Text) → Builds (λ _. all_ftext s ≡ true) (verify_header s)
unfolding verify_header
verify_header-ftext s = elim (Bool-cases (all_ftext s)) [
  | inl e ↦ rw e refl
  | inr e ↦ rw e (joined (λ _. false ≡ true) (strconcat (not_a_header s)))
]

verify_headers-ftext :
    (sl : List Text) → Builds (λ _. All (λ s. all_ftext s ≡ true) sl) (verify_headers sl)
unfolding verify_headers
verify_headers-ftext [] = tt
verify_headers-ftext (s ∷ sl) =
    Builds-bind (λ _. all_ftext s ≡ true) (λ _. All (λ s. all_ftext s ≡ true) (s ∷ sl))
      (verify_header s) (λ _. verify_headers sl) (verify_header-ftext s)
      (λ _ first.
        Builds-mono (λ _. All (λ s. all_ftext s ≡ true) sl) _ (verify_headers sl)
          (λ _ rest. (first, rest)) (verify_headers-ftext sl))

literals : (R : Type 0) (sl : List Text) → AreOfKind {R = R} false (map literal sl)
literals R [] = tt
literals R (s ∷ sl) = (refl, literals R sl)

module _ {R : Type 0} (t : Tokens) (regcomp : Regcomp R) where
  regexs_loop-compiled :
      (icase : Bool) (sl : List Text) (pl : List (Pattern R))
      → AreOfKind true pl
      → Builds (AreOfKind true) (regexs_loop t regcomp icase sl pl)
  unfolding regexs_loop
  regexs_loop-compiled icase [] pl h = h
  regexs_loop-compiled icase (s ∷ sl) pl h =
      compiles (regcomp icase s)
        (λ reg. regexs_loop-compiled icase sl (compiled reg ∷ pl) (refl, h))
    where
      compiles :
          (r : Text ⊎ R)
          → ((reg : R)
              → Builds (AreOfKind true) (regexs_loop t regcomp icase sl (compiled reg ∷ pl)))
          → Builds (AreOfKind true) (elim r [
            | inl errbuf ↦ refused (some errbuf)
            | inr reg ↦ regexs_loop t regcomp icase sl (compiled reg ∷ pl)
          ])
      compiles (inl errbuf) go_on = tt
      compiles (inr reg) go_on = go_on reg

  verify_regexs-compiled :
      (sl : List Text) (comp : Text) → Builds (AreOfKind true) (verify_regexs t regcomp sl comp)
  unfolding verify_regexs
  verify_regexs-compiled sl comp =
      Builds-bind (AreOfKind true) (AreOfKind true) (regexs_loop t regcomp _ sl []) _
        (regexs_loop-compiled (same_text comp (codes "i;ascii-casemap")) sl [] tt) not_empty
    where
      not_empty :
          (pl : List (Pattern R))
          → AreOfKind true pl
          → Builds (AreOfKind true) (elim pl [ [] ↦ refused none | p ∷ more ↦ built (p ∷ more) ])
      not_empty [] h = tt
      not_empty (p ∷ more) h = h

  patterns_of-kind :
      (h : Canon) (sl : List Text)
      → Builds (AreOfKind (h.comptag == t.regex)) (patterns_of t regcomp h sl)
  unfolding patterns_of
  patterns_of-kind h sl = elim (Bool-cases (h.comptag == t.regex)) [
    | inl e ↦ rw e (verify_regexs-compiled sl h.comparator)
    | inr e ↦ rw e (literals R sl)
  ]

module _ {R : Type 0} (t : Tokens) (n : AreNumbered t) (regcomp : Regcomp R)
    (require : Support) where
  suits-All :
      (h : Canon) (comp : Comparator) (pl : List (Pattern R))
      → comparator_lookup t h.comparator h.comptag ≡ some comp
      → AreOfKind (h.comptag == t.regex) pl
      → All (λ p. suits comp p ≡ true) pl
  suits-All h comp [] e k = tt
  suits-All h comp (p ∷ pl) e (first, rest) = (
    rw e at (comparator_lookup-Suits R t n h.comptag h.comparator p first),
    suits-All h comp pl e rest,
  )

  build_match-IsTyped :
      (h : Canon) (sl : List Text) (pl : List (Pattern R))
      → All (λ s. all_ftext s ≡ true) sl
      → AreOfKind (h.comptag == t.regex) pl
      → Builds (IsTyped t) (build_match t regcomp require h sl pl)
  unfolding build_match
  build_match-IsTyped h sl pl names k =
      matched (comparator_lookup t h.comparator h.comptag) (λ comp e. suits-All h comp pl e k)
    where
      matched :
          (found : Option Comparator)
          → ((comp : Comparator) → found ≡ some comp → All (λ p. suits comp p ≡ true) pl)
          → Builds (IsTyped t) (elim found [
            | none ↦ refused none
            | some comp ↦ built (record { comptag = h.comptag; comp = comp; sl = sl; pl = pl })
          ])
      matched none suit = tt
      matched (some comp) suit = record { kinds = k; patterns = suit comp refl; names = names }

  -- A test of headers or addresses that the grammar builds.
  pub match_of-IsTyped :
      (h : Htags) (sl pl : List Text) → Builds (IsTyped t) (match_of t regcomp require h sl pl)
  unfolding match_of
  match_of-IsTyped h sl pl =
      Builds-bind (λ _. All (λ s. all_ftext s ≡ true) sl) (IsTyped t) (verify_headers sl)
        (λ _.
          patterns_of t regcomp (canon_htags t h) pl
          >>= build_match t regcomp require (canon_htags t h) sl)
        (verify_headers-ftext sl)
        (λ _ names.
          Builds-bind (AreOfKind ((canon_htags t h).comptag == t.regex)) (IsTyped t)
            (patterns_of t regcomp (canon_htags t h) pl)
            (build_match t regcomp require (canon_htags t h) sl)
            (patterns_of-kind t regcomp (canon_htags t h) pl)
            (λ ps k. build_match-IsTyped (canon_htags t h) sl ps names k))
