-- ===== src/Util.antt =====
-- src/sv_util/util.c: strings and the buffers that grow.
pub mod Buffers
pub mod Growth
pub mod Joining
pub mod Numbers
pub mod Reading
