-- ===== src/File.antt =====
-- BrXfbin of xfbin/structure/br/br_xfbin.py, xfbin/xfbin_writer.py and xfbin/xfbin_reader.py.
pub mod Write
pub mod Read
pub mod Resolve
pub mod Pages
pub mod Reads
pub mod OnePage
pub mod Sequence
pub mod Extra
pub mod Parts
pub mod RoundTrip
pub mod Objects
