-- ===== src/Tests.antt =====
-- Runs of the modelled code on small inputs, and the theorems at inputs that meet their hypotheses.
pub mod Comparators
pub mod Contexts
pub mod Scripts
pub mod Utils
pub mod Interfaces
pub mod Messages
pub mod Evaluator
pub mod Sessions
pub mod Grammars
pub mod Executions
pub mod Traces
