-- ===== src/Page/Write.antt =====
-- BrNuccChunk, BrNuccChunkNull, BrNuccChunkPage, BrChunk and BrPage: the methods `__br_write__`.
use xfbin_lib.Base.{
  ℕ, ◌+◌, Bool, true, false, not, ◌||◌, List, [], ◌∷◌, ◌++◌, Result, ok, ◌>>=◌, length,
  if◌then◌else◌,
}
use xfbin_lib.Binary.{Bytes, ◌<+>◌, BinaryReader}
use xfbin_lib.Dict
use xfbin_lib.Dict.{IterativeDict, keys, get_or_next, update_or_next}
use xfbin_lib.Chunk.{
  ChunkMap, ChunkMap-discrete, NuccChunk, stored_data, is_instance, null_map, page_map, null_class,
  page_class,
}
use xfbin_lib.Table.Types.{ChunkReference}
use xfbin_lib.Page.Types.{Page, ChunkClasses}

-- `chunkIndexDict`, and what writes a chunk's data while adding the chunks that it refers to.
abbrev pub PageDict : Type 0
PageDict = IterativeDict ChunkMap

abbrev pub Body : Type 0
Body = PageDict → Result (PageDict × Bytes)

-- BrNuccChunkNull
abbrev pub null_body : Body
null_body d = ok (d, [])

module _ {P : Type 0} where
  -- BrNuccChunk: the data as it is stored, and then the chunks that were stored with it.
  unfoldable pub raw_body : NuccChunk P → Body
  unfolding stored_data
  raw_body c d = do bytes ← stored_data c; ok (update_or_next ChunkMap-discrete d c.chunks, bytes)

  -- `isinstance(nucc_chunk, (NuccChunkNull, NuccChunkPage))`
  unfoldable pub is_leftover : NuccChunk P → Bool
  unfolding is_instance
  is_leftover c = is_instance c.chunk_map null_class || is_instance c.chunk_map page_class

  -- The dictionary at the start of a page: the chunks of the first chunk without properties.
  unfoldable pub start_dict : List (NuccChunk P) → PageDict
  start_dict [] = Dict.init
  start_dict (c ∷ cs) =
      let rest = start_dict cs in
      if not c.has_props then update_or_next ChunkMap-discrete Dict.init c.chunks else rest

-- What BrPage leaves behind: its dictionary, its references, and its bytes.
pub record PageWritten : Type 0 where
  pub index_dict : PageDict
  pub references : List ChunkReference
  pub bytes : Bytes

module _ {Float : Type 0} (io : BinaryReader Float) where
  open io use {write_uint16, write_uint32}

  -- The twelve bytes in front of the data of a chunk, and the data.
  unfoldable pub write_frame : ℕ → Bytes → Result Bytes
  write_frame index payload =
      write_uint32 (length payload)
      <+> (write_uint32 index <+> (write_uint16 0x79 <+> (write_uint16 0 <+> ok payload)))

  -- BrChunk
  unfoldable pub write_br_chunk : ChunkMap → Body → Body
  unfolding write_frame
  write_br_chunk m body d = do
    let (d₁, index) = get_or_next ChunkMap-discrete d m
    (d₂, payload) ← body d₁
    bs ← write_frame index payload
    ok (d₂, bs)

  -- BrNuccChunkPage: the size of the dictionary, with one for the index chunk, and the references.
  unfoldable pub write_page_sizes : ℕ → ℕ → Result Bytes
  write_page_sizes page_size reference_size =
      write_uint32 page_size <+> (write_uint32 reference_size <+> ok [])

  unfoldable pub page_body : List ChunkReference → Body
  unfolding write_page_sizes
  page_body references d = do
    bs ← write_page_sizes (length (keys d) + 1) (length references)
    ok (d, bs)

  module _ {P : Type 0} (classes : ChunkClasses P) where
    unfoldable pub chunk_body : NuccChunk P → Body
    unfolding raw_body
    chunk_body c d = if c.has_props then classes.write_props c d else raw_body c d

    -- The loop over the chunks of the page.
    unfoldable pub write_chunks : List (NuccChunk P) → Body
    unfolding is_leftover write_br_chunk chunk_body
    write_chunks [] d = ok (d, [])
    write_chunks (c ∷ cs) d = elim (is_leftover c) [
      | true ↦ write_chunks cs d
      | false ↦ do
        (d₁, bs) ← write_br_chunk c.chunk_map (chunk_body c) d
        (d₂, rest) ← write_chunks cs d₁
        ok (d₂, bs ++ rest)
    ]

    -- BrPage
    unfoldable pub write_page : Page P → Result PageWritten
    unfolding start_dict write_br_chunk write_chunks page_body
    write_page page = do
      (d₁, null_bytes) ← write_br_chunk null_map null_body (start_dict page.chunks)
      (d₂, chunk_bytes) ← write_chunks page.chunks d₁
      (d₃, page_bytes) ← write_br_chunk page_map (page_body page.chunk_references) d₂
      ok (record {
        index_dict = d₃;
        references = page.chunk_references;
        bytes = null_bytes ++ (chunk_bytes ++ page_bytes);
      })
