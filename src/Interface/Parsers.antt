-- ===== src/Interface/Parsers.antt =====
-- src/sv_parser/sieve.y and src/sv_parser/header.y: the code round the generated parsers of scripts
-- and headers. What a parser does is a list of the calls that its actions make, and whether it fails.
use libsieve.Prelude.{ℕ, ◌+◌, Bool, List, [], ◌∷◌, map, Option, none, some, Text, ℤ, if◌then◌else◌}
use libsieve.Libc.{tolower}
use libsieve.Run.{Run, ok, fault, null_pointer, ◌>>=◌}
use libsieve.Message.Cache.{Header, message2_parseheader}
use libsieve.Context.State.{Context, Client}
use libsieve.Callbacks.Actions.{do_error_parse, do_error_address, do_error_header}
use libsieve.Script.Syntax.{Commandlist}
use libsieve.Interface.Register.{Support}

-- The calls of `libsieve_sieveerror`, and of `libsieve_addrerror` in the check of an address.
pub data Report : Type 0 where
  of_script : ℤ → Text → Report
  of_address : Text → Report

pub record ScriptParse (R : Type 0) : Type 0 where
  pub cmds : Commandlist R
  pub require : Support
  pub reports : List Report
  pub fails : Bool

-- The calls of `libsieve_headerentry`, in order, each followed by one of `libsieve_headerappend`,
-- and those of `libsieve_headererror`.
pub record HeaderParse : Type 0 where
  pub entries : List (Text × Text)
  pub messages : List (ℤ × Text)
  pub fails : Bool

pub record Parsers (R : Type 0) : Type 0 where
  pub sieveparse : Support → Support → Text → ScriptParse R
  pub headerparse : Text → HeaderParse

-- A new struct in front.
unfoldable pub headerappend : List Header → List Header
headerappend hl = record { name = []; space = 1; contents = [] } ∷ hl

-- The first struct gets its name and body. There is one: the parse begins with an append.
unfoldable pub headerentry : Text × Text → List Header → List Header
headerentry (name, body) [] = []
headerentry (name, body) (h ∷ hl) = record h { name = map tolower name; contents = body ∷ [] } ∷ hl

unfoldable pub header_entries : List (Text × Text) → List Header → List Header
unfolding headerappend headerentry
header_entries [] hl = hl
header_entries (entry ∷ entries) hl = header_entries entries (headerappend (headerentry entry hl))

-- The structs behind the first; `none` is a null pointer.
unfoldable pub behind_first : List Header → Option (List Header)
behind_first [] = none
behind_first (top ∷ []) = none
behind_first (top ∷ h ∷ hl) = some (h ∷ hl)

module _ {R W : Type 0} (respond : Client W) (p : Parsers R) where
  unfoldable pub header_errors : List (ℤ × Text) → Context W → Run (Context W)
  header_errors [] c = ok c
  header_errors ((lineno, msg) ∷ messages) c = do
    (status, called) ← do_error_header respond lineno (some msg) c
    header_errors messages called

  -- A null text is scanned all the same.
  unfoldable pub header_parse_buffer :
      Option Text → Context W → Run (Option (List Header) × Context W)
  unfolding header_entries behind_first header_errors
  header_parse_buffer none c = fault null_pointer
  header_parse_buffer (some text) c = do
    let parsed = p.headerparse text
    called ← header_errors parsed.messages c
    ok (
      if parsed.fails then none else behind_first (header_entries parsed.entries (headerappend [])),
      called,
    )

  -- `libsieve_message2_parseheader` on the context.
  unfoldable pub parse_headers : Context W → Run (ℕ × Context W)
  unfolding header_parse_buffer
  parse_headers c = do
    (hl, called) ← header_parse_buffer c.message.header c
    (status, message) ← message2_parseheader hl called.message
    ok (status, record called { message = message })

  -- `libsieve_sieveerror` counts, and tells the client.
  unfoldable pub script_errors : List Report → ℕ → Context W → Run (ℕ × Context W)
  script_errors [] parse_errors c = ok (parse_errors, c)
  script_errors (of_script lineno msg ∷ reports) parse_errors c = do
    (status, called) ← do_error_parse respond lineno (some msg) c
    script_errors reports (parse_errors + 1) called
  script_errors (of_address msg ∷ reports) parse_errors c = do
    (status, called) ← do_error_address respond (some msg) c
    script_errors reports parse_errors called
