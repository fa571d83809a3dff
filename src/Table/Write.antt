-- ===== src/Table/Write.antt =====
-- BrNuccHeader, BrChunkTable, BrChunkMap and BrChunkReference: the methods `__br_write__`.
use xfbin_lib.Base.{ℕ, ◌*◌, List, [], ◌∷◌, ◌++◌, Result, ok, ◌>>=◌, map_result, length}
use xfbin_lib.Binary.{Text, Bytes, ◌<+>◌, BinaryReader}
use xfbin_lib.Binary.Sequence.{write_each}
use xfbin_lib.Dict.{IterativeDict, keys}
use xfbin_lib.Dict.Growth.{index_of}
use xfbin_lib.Chunk.{ChunkMap, Text-discrete, ChunkMap-discrete, codes}
use xfbin_lib.Table.Types.{
  BrChunkMap, ChunkReference, Strings, no_strings, props_of, number_props, add_reference_names,
}

-- The ten numbers in front of the strings: counts and sizes.
abbrev pub counts : Strings → Bytes → Bytes → Bytes → IterativeDict ChunkMap → ℕ → ℕ → List ℕ
counts d types paths names map_dict index_count reference_count =
    length (keys d.types)
    ∷ length types
    ∷ length (keys d.paths)
    ∷ length paths
    ∷ length (keys d.names)
    ∷ length names
    ∷ length (keys map_dict)
    ∷ (length (keys map_dict) * 3 * 4)
    ∷ index_count
    ∷ reference_count
    ∷ []

module _ {Float : Type 0} (io : BinaryReader Float) where
  open io use {write_uint16, write_uint32, write_uint64, write_chars, write_str, padding}

  -- BrChunkMap
  unfoldable pub write_chunk_map : BrChunkMap → Result Bytes
  write_chunk_map m =
      write_each write_uint32 (m.chunk_type_index ∷ m.file_path_index ∷ m.chunk_name_index ∷ [])

  -- The loop over `chunkMapDict.keys()`: the dictionaries after it, and what it has written.
  unfoldable pub write_chunk_maps : Strings → List ChunkMap → Result (Strings × Bytes)
  unfolding number_props write_chunk_map props_of
  write_chunk_maps d [] = ok (d, [])
  write_chunk_maps d (c ∷ cs) = do
    p ← props_of c
    bs ← write_chunk_map (number_props d p).1
    (d', rest) ← write_chunk_maps (number_props d p).0 cs
    ok (d', bs ++ rest)

  -- BrChunkReference: a missing name or chunk is a KeyError.
  unfoldable pub write_chunk_reference :
      IterativeDict Text → IterativeDict ChunkMap → ChunkReference → Result Bytes
  write_chunk_reference names maps r =
      (index_of Text-discrete names r.name >>= write_uint32)
      <+> (index_of ChunkMap-discrete maps r.chunk >>= write_uint32)

  -- One of the three string sections.
  abbrev pub write_strings : IterativeDict Text → Result Bytes
  write_strings d = write_each write_str (keys d)

  abbrev pub write_counts :
      Strings → Bytes → Bytes → Bytes → IterativeDict ChunkMap → ℕ → ℕ → Result Bytes
  write_counts d types paths names map_dict index_count reference_count =
      write_each write_uint32 (counts d types paths names map_dict index_count reference_count)

  -- BrChunkTable: the bytes, and `chunkMapReferencesSize`.
  unfoldable pub write_table :
      IterativeDict ChunkMap → List ChunkReference → List ChunkMap → Result (Bytes × ℕ)
  unfolding write_chunk_maps write_chunk_reference no_strings
  write_table map_dict references indices = do
    (d, maps) ← write_chunk_maps no_strings (keys map_dict)
    let d' = add_reference_names d references
    refs ← write_each (write_chunk_reference d'.names map_dict) references
    numbers ← map_result (index_of ChunkMap-discrete map_dict) indices
    index_bytes ← write_each write_uint32 numbers
    types ← write_strings d'.types
    paths ← write_strings d'.paths
    names ← write_strings d'.names
    count_bytes ← write_counts d' types paths names map_dict (length indices) (length references)
    let strings = types ++ (paths ++ names)
    ok (
      count_bytes ++ (strings ++ (padding 4 (length strings) ++ (maps ++ (refs ++ index_bytes)))),
      length refs,
    )

  -- BrNuccHeader.__br_write__
  unfoldable pub write_header : ℕ → Result Bytes
  write_header table_size =
      write_chars (codes "NUCC")
      <+> write_uint32 0x79
      <+> write_uint64 0
      <+> write_uint32 table_size
      <+> write_uint32 3
      <+> write_uint16 0x79
      <+> write_uint16 0
      <+> ok []
