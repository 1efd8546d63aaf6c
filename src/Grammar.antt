-- ===== src/Grammar.antt =====
-- src/sv_parser/sieve.y: the checks and builders that the grammar of scripts calls.
pub mod Vtags
pub mod Handles
pub mod Require
pub mod Required
pub mod Checked
pub mod Tags
pub mod Verify
pub mod Forms
pub mod Tests
pub mod Commands
pub mod Trees
pub mod Induction
pub mod Kinds
pub mod Typed
pub mod Allowed
pub mod Features
pub mod Asked
pub mod Granted
pub mod Matches
pub mod Released
pub mod Safe
pub mod Started
pub mod Permitted
pub mod Simple
pub mod Names
pub mod Missing
