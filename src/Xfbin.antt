-- ===== src/Xfbin.antt =====
-- xfbin/structure/xfbin.py: the pages of a file and their chunks, as the user edits them.
pub mod Chunks
pub mod Pages
pub mod Clump
pub mod FromKeys
pub mod ClumpAdds
pub mod ClumpPage
pub mod AddChunk
pub mod AddPage
pub mod ByType
