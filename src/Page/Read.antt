-- ===== src/Page/Read.antt =====
-- BrChunk, BrPage and `get_br_nucc_chunk`: the methods `__br_read__`.
use xfbin_lib.Base
use xfbin_lib.Base.{
  ℕ, zero, suc, ◌+◌, Bool, true, false, List, [], ◌∷◌, Result, ok, raise, stuck, at_index, length,
  take, drop, ◌==◌, if◌then◌else◌,
}
use xfbin_lib.Binary.{Reader, ◌>>=◌, pure, fail, lift, open_buffer, BinaryReader}
use xfbin_lib.Chunk.{ChunkMap, get_nucc_type_from_str, page_class, text_eq}
use xfbin_lib.Table.Types.{BrChunkTable, get_props_from_chunk_map}
use xfbin_lib.Page.Types.{BrChunk, BrNuccChunk, BrPage, ChunkClasses}

-- `d[k] = v` on a `dict` with integer keys.
unfoldable pub put {ℓ} : {V : Type ℓ} → ℕ → V → List (ℕ × V) → List (ℕ × V)
put k v [] = (k, v) ∷ []
put k v ((j, w) ∷ d) = if j == k then (j, v) ∷ d else (j, w) ∷ put k v d

-- The class, path and name of the chunk at an index of `chunkMapIndices`.
unfoldable pub chunk_map_at : BrChunkTable → ℕ → Result ChunkMap
unfolding get_props_from_chunk_map get_nucc_type_from_str
chunk_map_at table index = Base.◌>>=◌ (at_index table.chunk_map_indices index) λ i.
    Base.◌>>=◌ (at_index table.chunk_maps i) λ m. Base.◌>>=◌ (get_props_from_chunk_map table m) λ p.
      Base.◌>>=◌ (get_nucc_type_from_str p.type_str)
        λ cls. ok (record { type_name = cls; file_path = p.file_path; name = p.name })

module _ {Float : Type 0} (io : BinaryReader Float) where
  open io use {read_uint16, read_uint32, read_bytes}

  -- BrChunk
  unfoldable pub read_br_chunk : Reader BrChunk
  read_br_chunk = do
    size ← read_uint32
    index ← read_uint32
    nucc_id ← read_uint16
    unk ← read_uint16
    content ← read_bytes size
    pure (record { chunk_map_index = index; content = content })

  -- BrNuccChunkPage.init_data: `pageSize` and `referenceSize`.
  unfoldable pub read_page_sizes : Reader (ℕ × ℕ)
  read_page_sizes = do
    page_size ← read_uint32
    reference_size ← read_uint32
    pure (page_size, reference_size)

  module _ {P : Type 0} (classes : ChunkClasses P) where
    -- `get_br_nucc_chunk`, with `init_data` of the class.
    unfoldable pub get_br_nucc_chunk : BrChunkTable → BrChunk → ℕ → Result (BrNuccChunk P)
    unfolding chunk_map_at
    get_br_nucc_chunk table c page_start =
        Base.◌>>=◌ (chunk_map_at table (page_start + c.chunk_map_index)) λ m.
          Base.◌>>=◌ (classes.read_props m.type_name c.content)
            λ p. ok (record { chunk_map = m; content = c.content; props = p })

    -- The loop of BrPage, which ends with a nuccChunkPage. Every round takes bytes, so the number of
    -- bytes in the file is fuel enough.
    unfoldable pub read_page_loop :
        BrChunkTable → ℕ → ℕ → ℕ → List (ℕ × BrNuccChunk P) → Reader (BrPage P)
    unfolding read_br_chunk get_br_nucc_chunk read_page_sizes put
    read_page_loop table page_start reference_start zero chunks = fail stuck
    read_page_loop table page_start reference_start (suc fuel) chunks = do
      c ← read_br_chunk
      chunk ← lift (get_br_nucc_chunk table c page_start)
      let chunks' = put c.chunk_map_index chunk chunks
      let rest = read_page_loop table page_start reference_start fuel chunks'
      elim (text_eq chunk.chunk_map.type_name page_class) [
        | true ↦ do
          (page_size, reference_size) ←
              lift (Base.◌>>=◌ (read_page_sizes (open_buffer c.content)) λ r. ok r.0)
          pure (record {
            chunks_dict = chunks';
            page_size = page_size;
            reference_size = reference_size;
            page_chunk_indices = take page_size (drop page_start table.chunk_map_indices);
            page_chunk_references =
                take reference_size (drop reference_start table.chunk_map_references);
          })
        | false ↦ rest
      ]
