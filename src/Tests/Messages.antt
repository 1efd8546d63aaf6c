-- ===== src/Tests/Messages.antt =====
-- src/sv_interface/message2.c on small inputs.
use libsieve.Prelude.{
  List, true, ℕ, zero, suc, [], ◌∷◌, Option, none, some, codes, length, replicate, ◌≡◌, refl, arith,
}
use libsieve.Run.{fault, out_of_bounds, Returns}
use libsieve.Message.Cache.{Header, Message, getheader}
use libsieve.Message.Lookup.{IsTable, LooksUp}
use libsieve.Message.HighBytes.{getheader-LooksUp-overruns}

length-replicate : {A : Type 0} (n : ℕ) (a : A) → length (replicate n a) ≡ n
length-replicate zero a = refl
length-replicate (suc n) a = omega (arith, length-replicate n a)

-- A table with one header in its first place.
abbrev pub message : Message
message = record {
  header = none;
  hashsize = 1019;
  hashfull = true;
  hash =
      some (record { name = codes "to"; space = 8; contents = codes "tim" ∷ [] })
      ∷ replicate 1018 none;
}

pub message-IsTable : IsTable message
message-IsTable = record {
  size = refl;
  places = omega (arith, length-replicate {A = Option Header} 1018 none);
}

getheader-LooksUp-overruns_example :
    Returns (LooksUp message (codes "To")) (getheader message (codes "To"))
    × (getheader message (200 ∷ []) ≡ fault out_of_bounds)
getheader-LooksUp-overruns_example =
    getheader-LooksUp-overruns message (codes "To") 200 message-IsTable
      (omega arith, (omega arith, tt)) (omega arith) (omega arith)

abbrev headers : List Header
headers =
    record { name = codes "to"; space = 8; contents = codes "joe" ∷ [] }
    ∷ record { name = codes "a"; space = 8; contents = codes "b" ∷ [] }
    ∷ []
