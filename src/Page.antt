-- ===== src/Page.antt =====
-- BrChunk and BrPage of xfbin/structure/br/br_xfbin.py, over the chunks of a page.
pub mod Types
pub mod Write
pub mod Read
pub mod Frames
pub mod Chunks
pub mod Written
pub mod Loop
