-- ===== src/Script.antt =====
-- src/sv_interface/script.c: the evaluator.
pub mod Syntax
pub mod Flags
pub mod Flagging
pub mod Matching
pub mod Comparing
pub mod Release
pub mod Evaltest
pub mod Refusal
pub mod Vacation
pub mod Eval
pub mod Meaning
pub mod Decided
pub mod Steady
pub mod Plan
pub mod Planned
pub mod Harmless
pub mod Effects
pub mod Quiet
pub mod Compatible
pub mod Handle
