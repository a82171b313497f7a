-- ===== src/Aux.antt =====
-- libaux/aux.c: binary search, packing of names into key words, and the checksum of bitmap blocks.
pub mod Search
pub mod Adler
pub mod Names
mod Tests
