-- ===== src/Table.antt =====
-- BrNuccHeader and BrChunkTable of xfbin/structure/br/br_xfbin.py.
pub mod Types
pub mod Write
pub mod Read
pub mod Strings
pub mod Maps
pub mod Names
pub mod Layout
pub mod RoundTrip
pub mod Header
