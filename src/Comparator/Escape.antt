-- ===== src/Comparator/Escape.antt =====
-- src/sv_parser/comparator.c, `octet_matches_`: what a backslash in a pattern comes to.
use libsieve.Prelude.{
  ℕ, suc, Bool, true, false, [], ◌∷◌, ◌++◌, Text, length, ◌≡◌, ◌≢◌, refl, ap, ◌∙◌, arith,
}
use libsieve.Libc.{toupper}
use libsieve.Comparator.Octet.{
  plain, kind, same_char, answer, overrun, literal_case, after_escape, matches_loop, octet_matches_,
}

same_char-backslash : (casemap : Bool) (c : ℕ) → c ≢ 92 → same_char casemap 92 c ≡ false
unfolding same_char toupper
same_char-backslash true c h = ground arith
same_char-backslash false c h = ground arith

same_char_self : (casemap : Bool) → same_char casemap 92 92 ≡ true
unfolding same_char toupper
same_char_self true = refl
same_char_self false = refl

-- Characters that stand for themselves.
abbrev pub ArePlain : Text → Type 0
ArePlain [] = Unit
ArePlain (c ∷ s) = (kind c ≡ plain) × ArePlain s

-- The fuel that is `f` behind the prefix.
abbrev behind : Text → ℕ → ℕ
behind [] f = f
behind (c ∷ pre) f = suc (behind pre f)

length-behind : (pre rest : Text) → suc (length (pre ++ rest)) ≡ behind pre (suc (length rest))
length-behind [] rest = refl
length-behind (c ∷ pre) rest = ap suc (length-behind pre rest)

same_char_refl : (casemap : Bool) (c : ℕ) → same_char casemap c c ≡ true
unfolding same_char
same_char_refl true c = ground arith
same_char_refl false c = ground arith

matches_loop-step :
    (casemap : Bool) (c f : ℕ) (p t : Text)
    → kind c ≡ plain
    → matches_loop (suc f) casemap (c ∷ p) (c ∷ t) ≡ matches_loop f casemap p t
unfolding matches_loop literal_case
matches_loop-step casemap c f p t k = rw (k, matches_loop) (rw (same_char_refl casemap c) refl)

-- Plain characters match themselves.
matches_loop-prefix :
    (casemap : Bool) (pre p t : Text) (f : ℕ)
    → ArePlain pre
    → matches_loop (behind pre f) casemap (pre ++ p) (pre ++ t) ≡ matches_loop f casemap p t
matches_loop-prefix casemap [] p t f k = refl
matches_loop-prefix casemap (c ∷ pre) p t f (k, ks) =
    matches_loop-step casemap c (behind pre f) (pre ++ p) (pre ++ t) k
    ∙ matches_loop-prefix casemap pre p t f ks

octet_matches_-prefix :
    (casemap : Bool) (pre p t : Text)
    → ArePlain pre
    → octet_matches_ casemap (pre ++ p) (pre ++ t) ≡ octet_matches_ casemap p t
unfolding octet_matches_
octet_matches_-prefix casemap pre p t k =
    ap (λ f. matches_loop f casemap (pre ++ p) (pre ++ t)) (length-behind pre p)
    ∙ matches_loop-prefix casemap pre p t (suc (length p)) k

escape_first :
    (casemap : Bool) (c : ℕ) (pat text : Text)
    → c ≢ 92
    → octet_matches_ casemap (92 ∷ c ∷ pat) (c ∷ text) ≡ answer false
unfolding octet_matches_ matches_loop literal_case kind after_escape
escape_first casemap c pat text h = rw (same_char-backslash casemap c h)

escape_last :
    (casemap : Bool) (text : Text) → octet_matches_ casemap (92 ∷ []) (92 ∷ text) ≡ overrun
unfolding octet_matches_ matches_loop literal_case kind after_escape
escape_last casemap text = rw (same_char_self casemap)

-- Behind plain characters, which match themselves, a backslash with a character other than a backslash
-- does not match that character, whatever follows: the text is compared with the backslash, and the
-- escaped character is skipped. A pattern of plain characters and one backslash at its end, against a
-- text of the same characters and a backslash with anything behind it, makes the matcher read on behind
-- the end of the pattern.
pub octet_matches_-escape :
    (casemap : Bool) (pre : Text) (c : ℕ) (pat text : Text)
    → ArePlain pre
    → c ≢ 92
    → (octet_matches_ casemap (pre ++ 92 ∷ c ∷ pat) (pre ++ c ∷ text) ≡ answer false)
      × (octet_matches_ casemap (pre ++ 92 ∷ []) (pre ++ 92 ∷ text) ≡ overrun)
octet_matches_-escape casemap pre c pat text k h = (
  octet_matches_-prefix casemap pre (92 ∷ c ∷ pat) (c ∷ text) k ∙ escape_first casemap c pat text h,
  octet_matches_-prefix casemap pre (92 ∷ []) (92 ∷ text) k ∙ escape_last casemap text,
)
