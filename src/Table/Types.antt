-- ===== src/Table/Types.antt =====
-- What BrChunkTable, BrChunkMap and BrChunkReference of xfbin/structure/br/br_xfbin.py hold, and how
-- a chunk and the strings of the table name one another.
use xfbin_lib.Base.{ℕ, List, map, Result, ok, ◌>>=◌, at_index}
use xfbin_lib.Binary.{Text}
use xfbin_lib.Dict
use xfbin_lib.Dict.{IterativeDict, get_or_next, update_or_next}
use xfbin_lib.Chunk.{ChunkMap, Text-discrete, get_nucc_str_from_type}

-- BrChunkMap: the indices of a type, a file path and a name.
pub record BrChunkMap : Type 0 where
  pub chunk_type_index : ℕ
  pub file_path_index : ℕ
  pub chunk_name_index : ℕ

pub record BrChunkReference : Type 0 where
  pub chunk_name_index : ℕ
  pub chunk_map_index : ℕ

-- ChunkReference of xfbin/structure/xfbin.py, with the chunk that it refers to.
pub record ChunkReference : Type 0 where
  pub name : Text
  pub chunk : ChunkMap

-- What BrChunkTable reads; the sizes are read and not used.
pub record BrChunkTable : Type 0 where
  pub chunk_types : List Text
  pub file_paths : List Text
  pub chunk_names : List Text
  pub chunk_maps : List BrChunkMap
  pub chunk_map_references : List BrChunkReference
  pub chunk_map_indices : List ℕ

-- The ten numbers at the start of the table.
pub record TableCounts : Type 0 where
  pub type_count : ℕ
  pub path_count : ℕ
  pub name_count : ℕ
  pub map_count : ℕ
  pub index_count : ℕ
  pub reference_count : ℕ

-- `dict_tuple`: the indices of the types, file paths and names.
pub record Strings : Type 0 where
  pub types : IterativeDict Text
  pub paths : IterativeDict Text
  pub names : IterativeDict Text

unfoldable pub no_strings : Strings
no_strings = record { types = Dict.init; paths = Dict.init; names = Dict.init }

-- The type, path and name strings of a chunk, as the table holds them.
pub record Props : Type 0 where
  pub type_str : Text
  pub file_path : Text
  pub name : Text

unfoldable pub props_of : ChunkMap → Result Props
props_of c = do
  t ← get_nucc_str_from_type c.type_name
  ok (record { type_str = t; file_path = c.file_path; name = c.name })

-- `list(map(lambda x, y: y.get_or_next(x), chunk_tuple, dict_tuple))`
unfoldable pub number_props : Strings → Props → Strings × BrChunkMap
number_props d p =
    let (types, i) = get_or_next Text-discrete d.types p.type_str in
    let (paths, j) = get_or_next Text-discrete d.paths p.file_path in
    let (names, k) = get_or_next Text-discrete d.names p.name in
    (
      record { types = types; paths = paths; names = names },
      record { chunk_type_index = i; file_path_index = j; chunk_name_index = k },
    )

-- The names of the references are numbered after those of the chunks.
abbrev pub add_reference_names : Strings → List ChunkReference → Strings
add_reference_names d references = record d {
  names = update_or_next Text-discrete d.names (map (λ r. r.name) references);
}

-- `get_props_from_chunk_map`
unfoldable pub get_props_from_chunk_map : BrChunkTable → BrChunkMap → Result Props
get_props_from_chunk_map t m = do
  type_str ← at_index t.chunk_types m.chunk_type_index
  file_path ← at_index t.file_paths m.file_path_index
  name ← at_index t.chunk_names m.chunk_name_index
  ok (record { type_str = type_str; file_path = file_path; name = name })
