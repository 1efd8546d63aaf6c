-- ===== src/Interface.antt =====
-- src/sv_interface/script2.c: the functions that the client calls.
pub mod Register
pub mod Registered
pub mod Parsers
pub mod Execute
pub mod Statuses
pub mod Executed
pub mod Composed
pub mod Headers
pub mod Reported
