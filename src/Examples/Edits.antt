-- ===== src/Examples/Edits.antt =====
-- Pages and files that are edited.
use xfbin_lib.Base.{ℕ, ◌≡◌, refl, false, true, List, [], ◌∷◌, none, some, ok}
use xfbin_lib.Binary.{Bytes}
use xfbin_lib.Binary.BigEndian.{big_endian}
use xfbin_lib.Chunk.{ChunkMap-discrete, NuccChunk, codes, null_map, text_eq}
use xfbin_lib.Page.Types.{Page}
use xfbin_lib.Page.Write.{PageDict, write_chunks}
use xfbin_lib.Xfbin.Chunks
use xfbin_lib.Xfbin.Chunks.{contains, add_chunk, cleanup}
use xfbin_lib.Xfbin.Pages.{add_chunk_page, get_chunks_by_type, get_type_chunk_dict}
use xfbin_lib.Xfbin.AddChunk.{find, put_chunk, add_chunk-put_chunk, find-add_chunk, contains-find}
use xfbin_lib.Xfbin.AddPage.{HasPage, single, add_chunk_page-HasPage}
use xfbin_lib.Xfbin.ByType.{
  type_chunks, get_type_chunk_dict-get_chunks_by_type, write_chunks-cleanup,
}
use xfbin_lib.Examples.Data.{plain, binary_map, binary_chunk, binary_page}

-- A new version of the chunk.
abbrev new_chunk : NuccChunk Bytes
new_chunk = record binary_chunk { content = some (4 ∷ []) }

abbrev null_chunk : NuccChunk Bytes
null_chunk = record binary_chunk { chunk_map = null_map }

add_chunk-put_chunk_example :
    add_chunk binary_page new_chunk
    ≡ ok (record binary_page { chunks = put_chunk new_chunk binary_page.chunks })
add_chunk-put_chunk_example = add_chunk-put_chunk binary_page new_chunk

find-add_chunk_example :
    (added : Page Bytes) × (add_chunk binary_page new_chunk ≡ ok added)
    × (find binary_map added.chunks ≡ (elim (ChunkMap-discrete new_chunk.chunk_map binary_map) [
      | yes _ ↦ some new_chunk
      | no _ ↦ find binary_map binary_page.chunks
    ]))
find-add_chunk_example = find-add_chunk binary_page new_chunk binary_map

contains-find_example :
    contains binary_page.chunks null_chunk
    ≡ (elim (find null_chunk.chunk_map binary_page.chunks) [ none ↦ false | some _ ↦ true ])
contains-find_example = contains-find binary_page.chunks null_chunk

add_chunk_page-HasPage_example :
    (updated : List (Page Bytes)) × (i : ℕ) × (add_chunk_page (binary_page ∷ []) new_chunk
      ≡ ok (updated, single new_chunk))
    × HasPage (binary_page ∷ []) updated new_chunk i
add_chunk_page-HasPage_example = add_chunk_page-HasPage (binary_page ∷ []) new_chunk

get_type_chunk_dict-get_chunks_by_type_example :
    get_chunks_by_type (binary_page ∷ []) (Chunks.class_of (codes "NuccChunkBinary"))
    ≡ ok (type_chunks (codes "NuccChunkBinary") (get_type_chunk_dict (binary_page ∷ [])))
unfolding text_eq
get_type_chunk_dict-get_chunks_by_type_example =
    get_type_chunk_dict-get_chunks_by_type (binary_page ∷ []) (codes "NuccChunkBinary") refl refl

abbrev null_page : Page Bytes
null_page = record { chunks = null_chunk ∷ binary_chunk ∷ []; chunk_references = [] }

abbrev no_dict : PageDict
no_dict = record { items = []; index = 0 }

write_chunks-cleanup_example :
    (write_chunks big_endian plain (cleanup null_page).chunks no_dict
      ≡ write_chunks big_endian plain null_page.chunks no_dict)
    × (cleanup (cleanup null_page) ≡ cleanup null_page)
write_chunks-cleanup_example = write_chunks-cleanup big_endian plain null_page no_dict
