-- ===== src/Examples/Data.antt =====
-- A file with one page: a binary chunk, and a reference to it.
use xfbin_lib.Base.{◌≡◌, refl, Bool, true, false, ◌&&◌, [], ◌∷◌, some, none, ok, ◌==◌, not, arith}
use xfbin_lib.Binary.{Text, Bytes, IsText}
use xfbin_lib.Binary.BigEndian.{big_endian}
use xfbin_lib.Chunk.{
  ChunkMap, ChunkMap-discrete, get_nucc_str_from_type, text_eq, NuccChunk, codes, null_map,
  page_map,
}
use xfbin_lib.Dict
use xfbin_lib.File.Write.{write_xfbin}
use mathlib.Core.List.{lookup}
use xfbin_lib.Dict.Growth.{index_of}
use xfbin_lib.Table.Write.{write_table, write_header}
use xfbin_lib.Table.Types.{ChunkReference}
use xfbin_lib.Page.Types.{Page, ChunkClasses}
use xfbin_lib.Page.Write.{PageWritten, null_body, write_page}
use xfbin_lib.Page.Frames.{null_body-Keeps}

-- Classes whose properties are the bytes that are read, and that write none.
abbrev pub plain : ChunkClasses Bytes
plain = record {
  write_props = λ c. null_body;
  read_props = λ t bs. ok bs;
  write_props-IsNumbered = λ c. null_body-Keeps.numbered;
  write_props-Grows = λ c. null_body-Keeps.grows;
  null_reads = λ bs. (bs, refl);
  page_reads = λ bs. (bs, refl);
}

abbrev pub binary_map : ChunkMap
binary_map = record {
  type_name = codes "NuccChunkBinary";
  file_path = codes "a.bin";
  name = codes "a";
}

abbrev pub binary_chunk : NuccChunk Bytes
binary_chunk = record {
  chunk_map = binary_map;
  extension = [];
  content = some (1 ∷ 2 ∷ 3 ∷ []);
  file_data = none;
  has_data = true;
  has_props = false;
  chunks = null_map ∷ binary_map ∷ [];
  props = none;
}

abbrev pub binary_ref : ChunkReference
binary_ref = record { name = codes "r"; chunk = binary_map }

abbrev pub binary_page : Page Bytes
binary_page = record { chunks = binary_chunk ∷ []; chunk_references = binary_ref ∷ [] }

abbrev pub page_bytes : Bytes
page_bytes =
    0 ∷ 0 ∷ 0 ∷ 0 ∷ 0 ∷ 0 ∷ 0 ∷ 0 ∷ 0 ∷ 121 ∷ 0 ∷ 0 ∷ 0 ∷ 0 ∷ 0 ∷ 3 ∷ 0 ∷ 0 ∷ 0 ∷ 1 ∷ 0 ∷ 121 ∷ 0
    ∷ 0 ∷ 1 ∷ 2 ∷ 3 ∷ 0 ∷ 0 ∷ 0 ∷ 8 ∷ 0 ∷ 0 ∷ 0 ∷ 2 ∷ 0 ∷ 121 ∷ 0 ∷ 0 ∷ 0 ∷ 0 ∷ 0 ∷ 4 ∷ 0 ∷ 0 ∷ 0
    ∷ 1 ∷ []

abbrev pub written : PageWritten
written = record {
  index_dict = record { items = (null_map, 0) ∷ (binary_map, 1) ∷ (page_map, 2) ∷ []; index = 3 };
  references = binary_ref ∷ [];
  bytes = page_bytes;
}

-- The bytes of the file with this page.
abbrev pub file_bytes : Bytes
file_bytes =
    78 ∷ 85 ∷ 67 ∷ 67 ∷ 0 ∷ 0 ∷ 0 ∷ 121 ∷ 0 ∷ 0 ∷ 0 ∷ 0 ∷ 0 ∷ 0 ∷ 0 ∷ 0 ∷ 0 ∷ 0 ∷ 0 ∷ 188 ∷ 0 ∷ 0
    ∷ 0 ∷ 3 ∷ 0 ∷ 121 ∷ 0 ∷ 0 ∷ 0 ∷ 0 ∷ 0 ∷ 4 ∷ 0 ∷ 0 ∷ 0 ∷ 59 ∷ 0 ∷ 0 ∷ 0 ∷ 2 ∷ 0 ∷ 0 ∷ 0 ∷ 7 ∷ 0
    ∷ 0 ∷ 0 ∷ 5 ∷ 0 ∷ 0 ∷ 0 ∷ 17 ∷ 0 ∷ 0 ∷ 0 ∷ 4 ∷ 0 ∷ 0 ∷ 0 ∷ 48 ∷ 0 ∷ 0 ∷ 0 ∷ 4 ∷ 0 ∷ 0 ∷ 0 ∷ 1
    ∷ 110 ∷ 117 ∷ 99 ∷ 99 ∷ 67 ∷ 104 ∷ 117 ∷ 110 ∷ 107 ∷ 78 ∷ 117 ∷ 108 ∷ 108 ∷ 0 ∷ 110 ∷ 117 ∷ 99
    ∷ 99 ∷ 67 ∷ 104 ∷ 117 ∷ 110 ∷ 107 ∷ 66 ∷ 105 ∷ 110 ∷ 97 ∷ 114 ∷ 121 ∷ 0 ∷ 110 ∷ 117 ∷ 99 ∷ 99
    ∷ 67 ∷ 104 ∷ 117 ∷ 110 ∷ 107 ∷ 80 ∷ 97 ∷ 103 ∷ 101 ∷ 0 ∷ 110 ∷ 117 ∷ 99 ∷ 99 ∷ 67 ∷ 104 ∷ 117
    ∷ 110 ∷ 107 ∷ 73 ∷ 110 ∷ 100 ∷ 101 ∷ 120 ∷ 0 ∷ 0 ∷ 97 ∷ 46 ∷ 98 ∷ 105 ∷ 110 ∷ 0 ∷ 0 ∷ 97 ∷ 0
    ∷ 80 ∷ 97 ∷ 103 ∷ 101 ∷ 48 ∷ 0 ∷ 105 ∷ 110 ∷ 100 ∷ 101 ∷ 120 ∷ 0 ∷ 114 ∷ 0 ∷ 0 ∷ 0 ∷ 0 ∷ 0 ∷ 0
    ∷ 0 ∷ 0 ∷ 0 ∷ 0 ∷ 0 ∷ 0 ∷ 0 ∷ 0 ∷ 0 ∷ 0 ∷ 0 ∷ 1 ∷ 0 ∷ 0 ∷ 0 ∷ 1 ∷ 0 ∷ 0 ∷ 0 ∷ 1 ∷ 0 ∷ 0 ∷ 0 ∷ 2
    ∷ 0 ∷ 0 ∷ 0 ∷ 0 ∷ 0 ∷ 0 ∷ 0 ∷ 2 ∷ 0 ∷ 0 ∷ 0 ∷ 3 ∷ 0 ∷ 0 ∷ 0 ∷ 0 ∷ 0 ∷ 0 ∷ 0 ∷ 3 ∷ 0 ∷ 0 ∷ 0 ∷ 4
    ∷ 0 ∷ 0 ∷ 0 ∷ 1 ∷ 0 ∷ 0 ∷ 0 ∷ 0 ∷ 0 ∷ 0 ∷ 0 ∷ 1 ∷ 0 ∷ 0 ∷ 0 ∷ 2 ∷ 0 ∷ 0 ∷ 0 ∷ 3 ∷ 0 ∷ 0 ∷ 0 ∷ 0
    ∷ 0 ∷ 0 ∷ 0 ∷ 0 ∷ 0 ∷ 121 ∷ 0 ∷ 0 ∷ 0 ∷ 0 ∷ 0 ∷ 0 ∷ 0 ∷ 0 ∷ 0 ∷ 0 ∷ 0 ∷ 121 ∷ 0 ∷ 0 ∷ 0 ∷ 0 ∷ 0
    ∷ 3 ∷ 0 ∷ 0 ∷ 0 ∷ 1 ∷ 0 ∷ 121 ∷ 0 ∷ 0 ∷ 1 ∷ 2 ∷ 3 ∷ 0 ∷ 0 ∷ 0 ∷ 8 ∷ 0 ∷ 0 ∷ 0 ∷ 2 ∷ 0 ∷ 121 ∷ 0
    ∷ 0 ∷ 0 ∷ 0 ∷ 0 ∷ 4 ∷ 0 ∷ 0 ∷ 0 ∷ 1 ∷ []

pub write_page_run : write_page big_endian plain binary_page ≡ ok written
unfolding write_page big_endian Dict.get_or_next lookup Dict.update_or_next Dict.init
    ChunkMap-discrete text_eq
write_page_run = refl

pub write_xfbin_run : write_xfbin big_endian plain (binary_page ∷ []) ≡ ok file_bytes
unfolding write_xfbin write_page big_endian Dict.get_or_next lookup Dict.update_or_next Dict.init
    ChunkMap-discrete text_eq write_table get_nucc_str_from_type index_of write_header
write_xfbin_run = refl

-- A text without zeros, by computation.
abbrev pub no_zero : Text → Bool
no_zero [] = true
no_zero (c ∷ s) = not (c == 0) && no_zero s

pub is_text : (s : Text) → no_zero s ≡ true → IsText s
is_text [] h = tt
is_text (c ∷ s) h = (ground arith, is_text s (ground arith))
