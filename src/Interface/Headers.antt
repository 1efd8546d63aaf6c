-- ===== src/Interface/Headers.antt =====
-- src/sv_interface/script2.c and src/sv_parser/header.y: the headers of a message, from the client's
-- text to the library's table.
use libsieve.Prelude.{
  ℕ, true, false, ◌==◌, List, [], ◌∷◌, ◌++◌, map, Option, none, some, Text, codes, ◌≡◌, refl, ap,
  ◌∙◌, if◌then◌else◌,
}
use libsieve.Libc.{tolower}
use libsieve.Run.{Run, ok, fault, null_pointer, ◌>>=◌, value_of_Returns, sieve2_ok, error_header}
use libsieve.Message.Cache.{Header}
use libsieve.Message.Lookup.{IsTable, IsAscii}
use libsieve.Context.Brackets.{IsClosed}
use libsieve.Context.Values.{message_getallheaders, as_string}
use libsieve.Context.Exchange.{first_fit}
use libsieve.Context.State.{client, message2_getheader, Callbacks, Context}
use libsieve.Callbacks.Queries.{do_getallheaders}
use libsieve.Callbacks.Answers.{told, Answers, do_getallheaders-client}
use libsieve.Outside.{Outside}
use libsieve.Interface.Parsers.{HeaderParse, Parsers, header_parse_buffer, parse_headers}
use libsieve.Interface.Execute.{take_headers, own_headers, prepare_headers}

-- A header with one body, its name in lower case.
abbrev entered : Text × Text → Header
entered (name, body) = record { name = map tolower name; space = 1; contents = body ∷ [] }

-- The last header comes first.
abbrev pub backwards : List (Text × Text) → List Header
backwards [] = []
backwards (entry ∷ entries) = backwards entries ++ (entered entry ∷ [])

-- There is a header where there is an entry.
abbrev some_backwards : List (Text × Text) → Option (List Header)
some_backwards [] = none
some_backwards (entry ∷ entries) = some (backwards (entry ∷ entries))

-- The names have bytes below 128.
abbrev AreAscii : List (Text × Text) → Type 0
AreAscii [] = Unit
AreAscii ((name, body) ∷ entries) = IsAscii name × AreAscii entries

module _ {R W : Type 0} (o : Outside R W) (p : Parsers R) where
  -- What the parser gives for a header with nothing to report.
  abbrev pub listed : List (Text × Text) → HeaderParse
  listed entries = record { entries = entries; messages = []; fails = false }

  -- The table is filled, and nothing but it differs.
  abbrev Filled : Context W → ℕ × Context W → Type 0
  Filled c (status, d) =
      (status ≡ sieve2_ok)
      × IsTable d.message
      × (d.message.hashfull ≡ true)
      × (d.callbacks ≡ c.callbacks)
      × (d.slflags ≡ c.slflags)
      × (d.actions ≡ c.actions)
      × (d.cur_call ≡ c.cur_call)

  -- The library's own function and table, and nothing of the script's differs.
  abbrev pub Prepared : Context W → ℕ × Context W → Type 0
  Prepared c (status, d) =
      (status ≡ sieve2_ok)
      × IsTable d.message
      × (d.message.hashfull ≡ true)
      × (d.callbacks ≡ record (c.callbacks) { getheader = some message2_getheader })
      × (d.slflags ≡ c.slflags)
      × (d.actions ≡ c.actions)
      × IsClosed d.cur_call

  -- The context as it is parsed.
  abbrev with_headers : Option Text → Context W → Context W
  with_headers header called = record called {
    message = record (called.message) { header = header };
    callbacks = record (called.callbacks) { getheader = some message2_getheader };
  }

  -- What `own_headers` makes of the status.
  abbrev settled : ℕ × Context W → Run (ℕ × Context W)
  settled (status, filled) = ok (if status == sieve2_ok then sieve2_ok else error_header, filled)

  take_headers-settled :
      (header : Option Text) (d : Context W)
      → take_headers o p (sieve2_ok, header) d
        ≡ parse_headers o.respond p (with_headers header d) >>= settled
  unfolding take_headers
  take_headers-settled header d = refl

asks_client :
    {R W : Type 0} (o : Outside R W) (p : Parsers R) {address : ℕ} (cb : Callbacks) (c : Context W)
    → cb.getheader ≡ none
    → cb.getallheaders ≡ some (client address)
    → prepare_headers o p cb c ≡ own_headers o p c
unfolding prepare_headers
asks_client o p cb c missing h = rw (missing, h) refl

-- With no open call and no function for `getheader` but one of the client for `getallheaders`,
-- which gives no text, the preparation of the headers reads through a null pointer.
pub prepare_headers-crashes :
    {R W : Type 0} (o : Outside R W) (p : Parsers R) (address : ℕ) (c : Context W)
    → IsClosed c.cur_call
    → c.callbacks.getheader ≡ none
    → c.callbacks.getallheaders ≡ some (client address)
    → first_fit as_string (codes "allheaders") (told o.respond address message_getallheaders [] c)
      ≡ none
    → prepare_headers o p c.callbacks c ≡ fault null_pointer
unfolding own_headers parse_headers header_parse_buffer
prepare_headers-crashes o p address c closed missing h said =
    let header =
      first_fit as_string (codes "allheaders")
        (told o.respond address message_getallheaders [] c) in
    let ((answer, d), run, (e, l)) =
      value_of_Returns (Answers c (sieve2_ok, header)) (do_getallheaders o.respond c)
        (do_getallheaders-client o.respond address c closed h) in
    asks_client o p c.callbacks c missing h
    ∙ ap (λ m. m >>= λ (a, b). take_headers o p a b) run
    ∙ ap (λ a. take_headers o p a d) (e ∙ ap (λ t. (sieve2_ok, t)) said)
    ∙ take_headers-settled o p none d
