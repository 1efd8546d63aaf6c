-- ===== src/Tests/Utils.antt =====
-- src/sv_util/util.c on small inputs.
use libsieve.Prelude.{true, false, [], ◌∷◌, ◌++◌, codes, ◌≡◌, ◌⊎◌, ◌*◌, ◌^◌, ◌<◌, ◌≤◌, refl, arith}
use libsieve.Libc.{decimal, strtol, strtol_loop}
use libsieve.Run.{Returns, ok, fault, int_overflow}
use libsieve.Util.Numbers.{strtonum}
use libsieve.Util.Reading.{unit, letter, mega, strtonum-decimal}
use libsieve.Util.Buffers.{
  catbuf, catbuf_alloc, strconcat, strbuf_all, strbufalloc, strbuffree, strisatom,
}
use libsieve.Util.Growth.{IsMlbuf, strbuf_all-adds, IsCatbuf, Appends, catbuf-Appends}
use libsieve.Util.Joining.{Joins, strconcat-Joins}

a_name_is_an_atom : strisatom (codes "inbox") ≡ true
unfolding strisatom
a_name_is_an_atom = refl

two_words_are_none : strisatom (codes "in box") ≡ false
unfolding strisatom
two_words_are_none = refl

strbufalloc-IsMlbuf : IsMlbuf strbufalloc
unfolding strbufalloc
strbufalloc-IsMlbuf = record { room = omega arith; size = omega arith }

strbuf_all-adds_example :
    Returns
      (λ ml.
        IsMlbuf ml
        × (ml.buf ≡ strbufalloc.buf ++ codes "a" ∷ codes "b" ∷ [])
        × (strbuffree ml true ≡ ok (strbufalloc.buf ++ codes "a" ∷ codes "b" ∷ [])))
      (strbuf_all (codes "a" ∷ codes "b" ∷ []) strbufalloc)
strbuf_all-adds_example =
    strbuf_all-adds (codes "a" ∷ codes "b" ∷ []) strbufalloc strbufalloc-IsMlbuf

catbuf_alloc-IsCatbuf : IsCatbuf catbuf_alloc
unfolding catbuf_alloc
catbuf_alloc-IsCatbuf = omega arith

catbuf-Appends_example : Appends (codes "To: ") catbuf_alloc (catbuf (codes "To: ") catbuf_alloc)
catbuf-Appends_example = catbuf-Appends (codes "To: ") catbuf_alloc catbuf_alloc-IsCatbuf

strconcat-Joins_example :
    Joins
      (codes "tim")
      (codes "@" ∷ codes "home" ∷ [])
      (strconcat (codes "tim" ∷ codes "@" ∷ codes "home" ∷ []))
strconcat-Joins_example =
    strconcat-Joins (codes "tim") (codes "@" ∷ codes "home" ∷ []) (omega arith) (omega arith)

two_kilobytes : strtonum (codes "2K") ≡ ok 2048
unfolding strtonum strtol strtol_loop
two_kilobytes = refl

two_gigabytes_overflow : strtonum (codes "2G") ≡ fault int_overflow
unfolding strtonum strtol strtol_loop
two_gigabytes_overflow = refl

strtonum-decimal_example :
    ((300 * unit mega < 2 ^ 31) × (strtonum (decimal 300 ++ letter mega) ≡ ok (300 * unit mega)))
    ⊎ ((2 ^ 31 ≤ 300 * unit mega) × (strtonum (decimal 300 ++ letter mega) ≡ fault int_overflow))
strtonum-decimal_example = strtonum-decimal 300 mega (omega arith)
