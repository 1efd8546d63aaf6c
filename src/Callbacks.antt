-- ===== src/Callbacks.antt =====
-- src/sv_interface/callbacks2.c: the actions of a script and the questions to the client.
pub mod Brackets
pub mod Actions
pub mod Trace
pub mod Frame
pub mod Fills
pub mod Compatible
pub mod Total
pub mod Queries
pub mod Answers
pub mod Questions
pub mod Cached
