-- ===== src/File/Objects.antt =====
-- read_xfbin (xfbin/xfbin_reader.py): the chunk objects of a file, which its pages share, and the pages.
pub mod Store
pub mod Reads
pub mod Page
pub mod RoundTrip
pub mod Payloads
pub mod Written
use xfbin_lib.Base.{
  ℕ, zero, suc, List, [], ◌∷◌, map, Result, ok, ◌>>=◌, at_index, map_result, map_ok,
}
use xfbin_lib.Binary.{Text, Bytes, BinaryReader}
use xfbin_lib.Chunk.{ChunkMap, NuccChunk, create_from_nucc_type}
use xfbin_lib.Table.Types.{BrChunkReference, BrChunkTable, get_props_from_chunk_map}
use xfbin_lib.Page.Types.{BrNuccChunk, BrPage, ChunkClasses}
use xfbin_lib.File.Read.{BrXfbin, read_br_xfbin}

-- A page refers to an object by its place in the list `chunks` of all objects.
pub record ObjectPage : Type 0 where
  pub initial_page_chunks : List ℕ
  pub chunk_references : List (Text × ℕ)
  pub chunks : List ℕ

pub record Objects (P : Type 0) : Type 0 where
  pub store : List (NuccChunk P)
  pub pages : List ObjectPage

-- The object at a place has changed.
unfoldable pub set_object : {P : Type 0} → List (NuccChunk P) → ℕ → NuccChunk P → List (NuccChunk P)
set_object [] i c = []
set_object (x ∷ xs) zero c = c ∷ xs
set_object (x ∷ xs) (suc i) c = x ∷ set_object xs i c

abbrev pub maps_of : {P : Type 0} → List (NuccChunk P) → List ChunkMap
maps_of store = map (λ (c : NuccChunk _). c.chunk_map) store

-- `init_data` of the class of the object at a place: it is given all objects, which it may look at and change, and
-- the indices of the page; what it leaves are the objects after the call.
abbrev pub InitData : Type 0 → Type 0
InitData P = List (NuccChunk P) → List ℕ → ℕ → BrNuccChunk P → Result (List (NuccChunk P))

module _ {P : Type 0} where
  -- The loop over `table.chunkMaps`.
  unfoldable pub create_chunks : BrChunkTable → Result (List (NuccChunk P))
  unfolding create_from_nucc_type get_props_from_chunk_map
  create_chunks table =
      map_result
        (λ m. get_props_from_chunk_map table m >>= λ p.
          create_from_nucc_type p.type_str p.file_path p.name)
        table.chunk_maps

  -- `chunks[i]`
  abbrev pub object_at : List (NuccChunk P) → ℕ → Result ℕ
  object_at store i = map_ok (λ c. i) (at_index store i)

  unfoldable pub read_reference :
      BrChunkTable → List (NuccChunk P) → BrChunkReference → Result (Text × ℕ)
  read_reference table store x = do
    name ← at_index table.chunk_names x.chunk_name_index
    chunk ← object_at store x.chunk_map_index
    ok (name, chunk)

  module _ (init_data : InitData P) where
    -- The loop over `br_page.chunksDict`: the objects after it, and the chunks that the page gets.
    unfoldable pub init_entries :
        List ℕ
        → List (ℕ × BrNuccChunk P)
        → List (NuccChunk P)
        → Result (List (NuccChunk P) × List ℕ)
    init_entries indices [] store = ok (store, [])
    init_entries indices (e ∷ es) store = do
      j ← at_index indices e.0
      chunk ← object_at store j
      after ← init_data store indices chunk e.1
      (store', chunks) ← init_entries indices es after
      ok (store', chunk ∷ chunks)

    unfoldable pub init_page :
        BrChunkTable → List (NuccChunk P) → BrPage P → Result (List (NuccChunk P) × ObjectPage)
    unfolding init_entries read_reference
    init_page table store b = do
      initial ← map_result (object_at store) b.page_chunk_indices
      references ← map_result (read_reference table store) b.page_chunk_references
      (store', chunks) ← init_entries b.page_chunk_indices b.chunks_dict store
      ok (
        store',
        record { initial_page_chunks = initial; chunk_references = references; chunks = chunks },
      )

    -- The loop over `br_xfbin.pages`.
    unfoldable pub init_pages :
        BrChunkTable → List (NuccChunk P) → List (BrPage P) → Result (Objects P)
    unfolding init_page
    init_pages table store [] = ok (record { store = store; pages = [] })
    init_pages table store (b ∷ bs) = do
      (store', page) ← init_page table store b
      rest ← init_pages table store' bs
      ok (record { store = rest.store; pages = page ∷ rest.pages })

    unfoldable pub init_xfbin : BrXfbin P → Result (Objects P)
    unfolding create_chunks init_pages
    init_xfbin x = do store ← create_chunks x.chunk_table; init_pages x.chunk_table store x.pages

    module _ {Float : Type 0} (io : BinaryReader Float) (classes : ChunkClasses P) where
      unfoldable pub read_xfbin : Bytes → Result (Objects P)
      unfolding init_xfbin
      read_xfbin file = do x ← read_br_xfbin io classes file; init_xfbin x
