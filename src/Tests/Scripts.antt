-- ===== src/Tests/Scripts.antt =====
-- src/sv_interface/script.c and the questions of callbacks2.c on small inputs.
use libsieve.Prelude.{ℕ, suc, some, [], ◌∷◌, List, Text, codes, pos, ◌≡◌, ◌↔◌, ◌⊎◌, inl, inr, sym}
use libsieve.Libc.{tolower}
use libsieve.Run.{ok, fault, use_after_free, ◌>>=◌}
use libsieve.Tree.Stringlist.{null, of_list}
use libsieve.Context.Values.{set_string, set_int}
use libsieve.Context.State.{client, Context, Client}
use libsieve.Script.Flags.{find_flag, hasflag, setflag, addflag, removeflag}
use libsieve.Script.Flagging.{
  SameFlag, IsFlag, Distinct, Found, hasflag-Found-setflag, addflag-adds, removeflag-Removes,
  Removes,
}
use libsieve.Callbacks.Cached.{Cached}
use libsieve.Tests.Messages.{message}
use libsieve.Tests.Contexts.{callbacks, context}

abbrev seen : Text
seen = codes "Seen"

abbrev flagged : Text
flagged = codes "flagged"

seen-flagged : ¬ SameFlag seen flagged
unfolding tolower
seen-flagged e = cc

addflag-adds_example :
    (added : List Text) × (addflag (of_list (flagged ∷ [])) (of_list (seen ∷ []))
      ≡ ok (of_list added))
    × ((s : Text) → IsFlag s added ↔ (IsFlag s (seen ∷ []) ⊎ IsFlag s (flagged ∷ [])))
    × Distinct added
addflag-adds_example = addflag-adds (flagged ∷ []) (seen ∷ []) ((λ h. h), tt)

hasflag-Found-setflag_example :
    Found (hasflag (of_list []) (of_list [])) ((u : Text) × IsFlag u [] × IsFlag u [])
    × (setflag (of_list (seen ∷ [])) (of_list (flagged ∷ [])) >>= find_flag flagged
        ≡ fault use_after_free)
    × (setflag (of_list (seen ∷ [])) null ≡ ok (of_list (seen ∷ [])))
hasflag-Found-setflag_example = hasflag-Found-setflag seen flagged flagged [] [] seen-flagged

removeflag-Removes_example :
    Removes flagged seen
      (flagged ∷ [])
      (removeflag (of_list (flagged ∷ [])) (of_list (seen ∷ flagged ∷ [])))
removeflag-Removes_example =
    removeflag-Removes flagged seen (flagged ∷ [])
      ((λ e. elim e [ inl h ↦ seen-flagged (sym h) | inr k ↦ k ]), ((λ h. h), tt))

-- A client that knows the size, the script and a header.
abbrev helpful : Client ℕ
helpful address call user = (
  set_int (some (codes "size")) (pos 7)
      ∷ set_string (some (codes "script")) (some (codes "keep;"))
      ∷ [],
  suc user,
)

abbrev questions : Context ℕ
questions = record context {
  callbacks = record callbacks {
    getsize = some (client 4);
    getscript = some (client 5);
    getheader = some (client 6);
  };
}

-- The library looks for headers in its own table.
abbrev parsed : Context ℕ
parsed = record context { message = message }
