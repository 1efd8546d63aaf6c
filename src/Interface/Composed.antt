-- ===== src/Interface/Composed.antt =====
-- src/sv_interface/script2.c and src/sv_parser/sieve.y: an execution of what the grammar builds.
use libsieve.Context.State.{Context}
use libsieve.Outside.{Outside}
use libsieve.Interface.Parsers.{Parsers}
use libsieve.Grammar.Asked.{Asked}
