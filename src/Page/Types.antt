-- ===== src/Page/Types.antt =====
-- Page of xfbin/structure/xfbin.py, BrChunk, BrPage, and what a page needs of the chunk classes.
use xfbin_lib.Base.{ℕ, ◌≡◌, List, Result, ok}
use xfbin_lib.Binary.{Bytes}
use xfbin_lib.Chunk.{ChunkMap, ClassName, NuccChunk, null_class, page_class}
use xfbin_lib.Dict.{IterativeDict}
use xfbin_lib.Dict.Numbering.{IsNumbered}
use xfbin_lib.Dict.Growth.{Grows}
use xfbin_lib.Table.Types.{BrChunkReference, ChunkReference}

-- A page: its chunks and its references to chunks.
pub record Page (P : Type 0) : Type 0 where
  pub chunks : List (NuccChunk P)
  pub chunk_references : List ChunkReference

-- What BrChunk reads: the index of the chunk in the page, and its data.
pub record BrChunk : Type 0 where
  pub chunk_map_index : ℕ
  pub content : Bytes

-- A BrNuccChunk that was read: its class, path and name, its data and the fields of its class.
pub record BrNuccChunk (P : Type 0) : Type 0 where
  pub chunk_map : ChunkMap
  pub content : Bytes
  pub props : P

-- What BrPage reads. `chunks_dict` is a `dict`, oldest key first.
pub record BrPage (P : Type 0) : Type 0 where
  pub chunks_dict : List (ℕ × BrNuccChunk P)
  pub page_size : ℕ
  pub reference_size : ℕ
  pub page_chunk_indices : List ℕ
  pub page_chunk_references : List BrChunkReference

-- The classes with properties (xfbin/structure/br/br_nucc.py): `__br_write__` of a chunk that has
-- properties, and `init_data` of its BrNuccChunk. A write only adds chunks to the dictionary.
pub record ChunkClasses (P : Type 0) : Type 0 where
  pub write_props : NuccChunk P → IterativeDict ChunkMap → Result (IterativeDict ChunkMap × Bytes)
  pub read_props : ClassName → Bytes → Result P
  pub write_props-IsNumbered :
      (c : NuccChunk P) (d d' : IterativeDict ChunkMap) (bs : Bytes)
      → write_props c d ≡ ok (d', bs)
      → IsNumbered d
      → IsNumbered d'
  pub write_props-Grows :
      (c : NuccChunk P) (d d' : IterativeDict ChunkMap) (bs : Bytes)
      → write_props c d ≡ ok (d', bs)
      → Grows d d'
  -- BrNuccChunkNull and BrNuccChunkPage keep their data and read no properties of a chunk.
  pub null_reads : (bs : Bytes) → (q : P) × (read_props null_class bs ≡ ok q)
  pub page_reads : (bs : Bytes) → (q : P) × (read_props page_class bs ≡ ok q)
