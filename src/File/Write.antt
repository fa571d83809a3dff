-- ===== src/File/Write.antt =====
-- BrXfbin.__br_write__, which is all of `write_xfbin` of xfbin/xfbin_writer.py.
use xfbin_lib.Base.{◌-◌, List, [], ◌∷◌, ◌++◌, Result, ok, ◌>>=◌, length}
use xfbin_lib.Binary.{Bytes, BinaryReader}
use xfbin_lib.Dict
use xfbin_lib.Dict.{IterativeDict, keys, get_or_next, update_or_next}
use xfbin_lib.Chunk.{ChunkMap, ChunkMap-discrete, null_map, index_map}
use xfbin_lib.Table.Types.{ChunkReference}
use xfbin_lib.Table.Write.{write_header, write_table}
use xfbin_lib.Page.Types.{Page, ChunkClasses}
use xfbin_lib.Page.Write.{PageWritten, null_body, write_br_chunk, write_page}

-- The local variables of the loop over the pages.
pub record Pages : Type 0 where
  pub chunk_map_dict : IterativeDict ChunkMap
  pub chunk_references : List ChunkReference
  pub chunk_map_indices : List ChunkMap
  pub bytes : Bytes

-- The page's dictionary with the NuccChunkIndex that is added behind its chunks.
abbrev pub with_index : PageWritten → IterativeDict ChunkMap
with_index w = (get_or_next ChunkMap-discrete w.index_dict index_map).0

unfoldable pub add_page : Pages → PageWritten → Pages
add_page s w = record {
  chunk_map_dict = update_or_next ChunkMap-discrete s.chunk_map_dict (keys (with_index w));
  chunk_references = s.chunk_references ++ w.references;
  chunk_map_indices = s.chunk_map_indices ++ keys (with_index w);
  bytes = s.bytes ++ w.bytes;
}

module _ {Float : Type 0} (io : BinaryReader Float) {P : Type 0} (classes : ChunkClasses P) where
  unfoldable pub write_pages : Pages → List (Page P) → Result Pages
  unfolding add_page
  write_pages s [] = ok s
  write_pages s (page ∷ pages) = do w ← write_page io classes page; write_pages (add_page s w) pages

  -- The state before the loop: the extra null chunk is written.
  unfoldable pub start_pages : Result Pages
  start_pages = do
    (_, extra) ← write_br_chunk io null_map null_body Dict.init
    ok (record {
      chunk_map_dict = Dict.init;
      chunk_references = [];
      chunk_map_indices = [];
      bytes = extra;
    })

  unfoldable pub write_xfbin : List (Page P) → Result Bytes
  unfolding start_pages write_pages
  write_xfbin pages = do
    start ← start_pages
    s ← write_pages start pages
    (table, references_size) ←
        write_table io s.chunk_map_dict s.chunk_references s.chunk_map_indices
    header ← write_header io (length table - references_size)
    ok (header ++ (table ++ s.bytes))
