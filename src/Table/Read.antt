-- ===== src/Table/Read.antt =====
-- BrNuccHeader, BrChunkTable, BrChunkMap and BrChunkReference: the methods `__br_read__`.
use xfbin_lib.Base.{ℕ, if◌then◌else◌, invalid_magic, cpk_magic}
use xfbin_lib.Binary.{Text, Reader, ◌>>=◌, ◌>>◌, pure, fail, BinaryReader}
use xfbin_lib.Binary.Sequence.{read_n}
use xfbin_lib.Chunk.{text_eq, codes}
use xfbin_lib.Table.Types.{BrChunkMap, BrChunkReference, BrChunkTable, TableCounts}

module _ {Float : Type 0} (io : BinaryReader Float) where
  open io use {read_uint16, read_uint32, read_chars, read_str, skip, align_pos}

  unfoldable pub read_chunk_map : Reader BrChunkMap
  read_chunk_map = do
    i ← read_uint32
    j ← read_uint32
    k ← read_uint32
    pure (record { chunk_type_index = i; file_path_index = j; chunk_name_index = k })

  unfoldable pub read_chunk_reference : Reader BrChunkReference
  read_chunk_reference = do
    i ← read_uint32
    j ← read_uint32
    pure (record { chunk_name_index = i; chunk_map_index = j })

  unfoldable pub read_counts : Reader TableCounts
  read_counts = do
    type_count ← read_uint32
    type_size ← read_uint32
    path_count ← read_uint32
    path_size ← read_uint32
    name_count ← read_uint32
    name_size ← read_uint32
    map_count ← read_uint32
    map_size ← read_uint32
    index_count ← read_uint32
    reference_count ← read_uint32
    pure (record {
      type_count = type_count;
      path_count = path_count;
      name_count = name_count;
      map_count = map_count;
      index_count = index_count;
      reference_count = reference_count;
    })

  -- BrChunkTable.__br_read__
  unfoldable pub read_table : Reader BrChunkTable
  unfolding read_counts read_chunk_map read_chunk_reference
  read_table = do
    n ← read_counts
    types ← read_n n.type_count read_str
    paths ← read_n n.path_count read_str
    names ← read_n n.name_count read_str
    align_pos 4
    maps ← read_n n.map_count read_chunk_map
    references ← read_n n.reference_count read_chunk_reference
    indices ← read_n n.index_count read_uint32
    pure (record {
      chunk_types = types;
      file_paths = paths;
      chunk_names = names;
      chunk_maps = maps;
      chunk_map_references = references;
      chunk_map_indices = indices;
    })

  unfoldable pub check_magic : Text → Reader (Unit {0})
  check_magic magic =
      if text_eq magic (codes "NUCC")
      then pure tt
      else if text_eq magic (codes "CPK ")
      then fail cpk_magic
      else fail invalid_magic

  -- BrNuccHeader.__br_read__; of its fields the table size is kept.
  unfoldable pub read_header : Reader ℕ
  unfolding check_magic
  read_header = do
    magic ← read_chars 4
    check_magic magic
    nucc_id ← read_uint32
    skip 8
    table_size ← read_uint32
    min_page_size ← read_uint32
    nucc_id_2 ← read_uint16
    unk ← read_uint16
    pure table_size
