-- ===== src/Examples/Files.antt =====
-- The file with one page, written and read back.
use xfbin_lib.Base.{true, ◌+◌, ◌≡◌, refl, sym, ◌∙◌, List, [], ◌∷◌, ok, All, length, ok_injective}
use xfbin_lib.Binary.{Bytes, Decodes, DecodesAt}
use xfbin_lib.Binary.BigEndian.{big_endian}
use xfbin_lib.Dict
use xfbin_lib.Dict.{IterativeDict, keys, get_or_next}
use xfbin_lib.Dict.Numbering.{IsNumbered, init-IsNumbered, update_or_next-IsNumbered}
use xfbin_lib.Chunk.{
  ChunkMap, ChunkMap-discrete, codes, text_eq, Text-discrete, null_map, page_map, index_map,
  get_nucc_str_from_type,
}
use xfbin_lib.Dict.Growth.{index_of}
use xfbin_lib.Table.Types.{Props, props_of, BrChunkTable}
use xfbin_lib.Table.Write.{write_header, write_table}
use xfbin_lib.Table.Read.{read_header, read_table}
use xfbin_lib.Table.Strings.{IsText₃}
use xfbin_lib.Table.Maps.{HasText}
use xfbin_lib.Table.RoundTrip.{Describes, read_table-write_table}
use xfbin_lib.Table.Header.{read_header-write_header, length-write_header}
use xfbin_lib.Page.Write.{PageWritten, null_body, write_br_chunk, start_dict, is_leftover}
use xfbin_lib.Page.Frames.{Framed, null_body-Keeps, write_br_chunk-Framed}
use xfbin_lib.Page.Read.{chunk_map_at}
use xfbin_lib.Page.Written.{PageFrames, write_page-PageFrames}
use xfbin_lib.File.Write.{with_index}
use xfbin_lib.File.Read.{BrXfbin, read_br_xfbin}
use xfbin_lib.File.Reads.{CanRead}
use xfbin_lib.File.Resolve.{chunk_map_at-Describes}
use xfbin_lib.File.Parts.{FileRead}
use xfbin_lib.File.Extra.{StartsNull}
use xfbin_lib.File.RoundTrip.{read_br_xfbin-write_xfbin}
use xfbin_lib.Examples.Data.{
  plain, binary_map, binary_ref, binary_page, written, file_bytes, no_zero, write_page_run,
  write_xfbin_run, is_text,
}
use mathlib.Core.List.{lookup}
use mathlib.Core.Path.{subst}

has_text :
    (m : ChunkMap) (p : Props)
    → props_of m ≡ ok p
    → no_zero p.type_str ≡ true
    → no_zero p.file_path ≡ true
    → no_zero p.name ≡ true
    → HasText m
has_text m p h a b c q hq = subst IsText₃ (ok_injective (sym h ∙ hq)) (record {
  type_str = is_text p.type_str a;
  file_path = is_text p.file_path b;
  name = is_text p.name c;
})

null_HasText : HasText null_map
unfolding props_of get_nucc_str_from_type
null_HasText =
    has_text null_map
      (record { type_str = codes "nuccChunkNull"; file_path = codes ""; name = codes "" }) refl refl
      refl refl

binary_HasText : HasText binary_map
unfolding props_of get_nucc_str_from_type
binary_HasText =
    has_text binary_map
      (record { type_str = codes "nuccChunkBinary"; file_path = codes "a.bin"; name = codes "a" })
      refl refl refl refl

page_HasText : HasText page_map
unfolding props_of get_nucc_str_from_type
page_HasText =
    has_text page_map
      (record { type_str = codes "nuccChunkPage"; file_path = codes ""; name = codes "Page0" }) refl
      refl refl refl

index_HasText : HasText index_map
unfolding props_of get_nucc_str_from_type
index_HasText =
    has_text index_map
      (record { type_str = codes "nuccChunkIndex"; file_path = codes ""; name = codes "index" })
      refl refl refl refl

pub binary_page-CanRead : CanRead big_endian plain binary_page
unfolding get_or_next lookup ChunkMap-discrete text_eq is_leftover
binary_page-CanRead = record {
  class_names = (refl, tt);
  parses = ((λ d d' bs h. (bs, refl)), tt);
  texts = λ w h.
      subst (λ (v : PageWritten). All HasText (keys (with_index v)))
        (ok_injective (sym write_page_run ∙ h))
        (null_HasText, (binary_HasText, (page_HasText, (index_HasText, tt))));
  reference_texts = (is_text (codes "r") refl, tt);
  no_index = λ w h.
      subst (λ (v : PageWritten). length (keys (with_index v)) ≡ length (keys v.index_dict) + 1)
        (ok_injective (sym write_page_run ∙ h)) refl;
}

pub binary_page-StartsNull : StartsNull binary_page
unfolding start_dict get_or_next lookup ChunkMap-discrete Dict.update_or_next Dict.init
binary_page-StartsNull = refl

read_br_xfbin-write_xfbin_example :
    (x : BrXfbin Bytes) × (read_br_xfbin big_endian plain file_bytes ≡ ok x)
    × FileRead big_endian plain binary_page [] x
read_br_xfbin-write_xfbin_example =
    read_br_xfbin-write_xfbin big_endian plain binary_page [] file_bytes (binary_page-CanRead, tt)
      binary_page-StartsNull write_xfbin_run

write_page-PageFrames_example : PageFrames big_endian plain binary_page written
write_page-PageFrames_example =
    write_page-PageFrames big_endian plain binary_page written write_page_run

abbrev null_bytes : Bytes
null_bytes = 0 ∷ 0 ∷ 0 ∷ 0 ∷ 0 ∷ 0 ∷ 0 ∷ 0 ∷ 0 ∷ 121 ∷ 0 ∷ 0 ∷ []

abbrev maps : IterativeDict ChunkMap
maps = record { items = (null_map, 0) ∷ (binary_map, 1) ∷ []; index = 2 }

maps-IsNumbered : IsNumbered maps
unfolding Dict.init Dict.update_or_next get_or_next lookup ChunkMap-discrete
maps-IsNumbered =
    update_or_next-IsNumbered ChunkMap-discrete Dict.init (null_map ∷ binary_map ∷ [])
      init-IsNumbered

write_br_chunk-Framed_example : Framed big_endian null_map null_body maps (maps, null_bytes)
unfolding write_br_chunk get_or_next lookup ChunkMap-discrete big_endian
write_br_chunk-Framed_example =
    write_br_chunk-Framed big_endian null_map null_body maps (maps, null_bytes) null_body-Keeps
      maps-IsNumbered refl

read_header-write_header_example :
    Decodes (write_header big_endian 188) (read_header big_endian) 188
read_header-write_header_example = read_header-write_header big_endian 188

abbrev header : Bytes
header =
    78 ∷ 85 ∷ 67 ∷ 67 ∷ 0 ∷ 0 ∷ 0 ∷ 121 ∷ 0 ∷ 0 ∷ 0 ∷ 0 ∷ 0 ∷ 0 ∷ 0 ∷ 0 ∷ 0 ∷ 0 ∷ 0 ∷ 188 ∷ 0 ∷ 0
    ∷ 0 ∷ 3 ∷ 0 ∷ 121 ∷ 0 ∷ 0 ∷ []

length-write_header_example : length header ≡ 28
unfolding write_header big_endian
length-write_header_example = length-write_header big_endian 188 header refl

abbrev table_bytes : Bytes
table_bytes =
    0 ∷ 0 ∷ 0 ∷ 2 ∷ 0 ∷ 0 ∷ 0 ∷ 30 ∷ 0 ∷ 0 ∷ 0 ∷ 2 ∷ 0 ∷ 0 ∷ 0 ∷ 7 ∷ 0 ∷ 0 ∷ 0 ∷ 3 ∷ 0 ∷ 0 ∷ 0 ∷ 5
    ∷ 0 ∷ 0 ∷ 0 ∷ 2 ∷ 0 ∷ 0 ∷ 0 ∷ 24 ∷ 0 ∷ 0 ∷ 0 ∷ 2 ∷ 0 ∷ 0 ∷ 0 ∷ 1 ∷ 110 ∷ 117 ∷ 99 ∷ 99 ∷ 67
    ∷ 104 ∷ 117 ∷ 110 ∷ 107 ∷ 78 ∷ 117 ∷ 108 ∷ 108 ∷ 0 ∷ 110 ∷ 117 ∷ 99 ∷ 99 ∷ 67 ∷ 104 ∷ 117 ∷ 110
    ∷ 107 ∷ 66 ∷ 105 ∷ 110 ∷ 97 ∷ 114 ∷ 121 ∷ 0 ∷ 0 ∷ 97 ∷ 46 ∷ 98 ∷ 105 ∷ 110 ∷ 0 ∷ 0 ∷ 97 ∷ 0
    ∷ 114 ∷ 0 ∷ 0 ∷ 0 ∷ 0 ∷ 0 ∷ 0 ∷ 0 ∷ 0 ∷ 0 ∷ 0 ∷ 0 ∷ 0 ∷ 0 ∷ 0 ∷ 0 ∷ 0 ∷ 0 ∷ 0 ∷ 1 ∷ 0 ∷ 0 ∷ 0
    ∷ 1 ∷ 0 ∷ 0 ∷ 0 ∷ 1 ∷ 0 ∷ 0 ∷ 0 ∷ 2 ∷ 0 ∷ 0 ∷ 0 ∷ 1 ∷ 0 ∷ 0 ∷ 0 ∷ 1 ∷ 0 ∷ 0 ∷ 0 ∷ 0 ∷ []

abbrev table_chunks : List ChunkMap
table_chunks = binary_map ∷ null_map ∷ []

write_table_run : write_table big_endian maps (binary_ref ∷ []) table_chunks ≡ ok (table_bytes, 8)
unfolding write_table big_endian get_nucc_str_from_type get_or_next lookup Dict.init Text-discrete
    index_of Dict.update_or_next ChunkMap-discrete
write_table_run = refl

read_table-write_table_example :
    (t : BrChunkTable) × Describes (null_map ∷ binary_map ∷ []) (binary_ref ∷ []) table_chunks t
    × DecodesAt 28 (ok table_bytes) (read_table big_endian) t
read_table-write_table_example =
    read_table-write_table big_endian maps (binary_ref ∷ []) table_chunks 28 (table_bytes, 8)
      maps-IsNumbered (null_HasText, (binary_HasText, tt)) (is_text (codes "r") refl, tt) refl
      write_table_run

-- The table that was read, with what it says.
table_read :
    (t : BrChunkTable) × Describes (null_map ∷ binary_map ∷ []) (binary_ref ∷ []) table_chunks t
table_read =
    let (t, d, _) =
      read_table-write_table big_endian maps (binary_ref ∷ []) table_chunks 28 (table_bytes, 8)
        maps-IsNumbered (null_HasText, (binary_HasText, tt)) (is_text (codes "r") refl, tt) refl
        write_table_run in
    (t, d)

chunk_map_at-Describes_example : chunk_map_at table_read.0 1 ≡ ok null_map
chunk_map_at-Describes_example =
    chunk_map_at-Describes (null_map ∷ binary_map ∷ []) (binary_ref ∷ []) table_chunks table_read.0
      table_read.1 1 null_map refl refl
