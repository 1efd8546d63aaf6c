-- ===== src/Comparator.antt =====
-- src/sv_parser/comparator.c: the comparators that a test applies to a pattern and a text.
pub mod Octet
pub mod Glob
pub mod Matching
pub mod Casemap
pub mod Contains
pub mod Numeric
pub mod Decimal
pub mod Order
pub mod Escape
pub mod Stopping
pub mod Lookup
pub mod Tags
