-- ===== src/File/Extra.antt =====
-- What the writer does before the first page: the extra null chunk.
use xfbin_lib.Base.{
  ◌≡◌, sym, ap, ◌∙◌, [], ◌∷◌, append-nil, ok, >>=-ok_elim, ok_injective, some, get_elem?,
}
use xfbin_lib.Binary.{Bytes, BinaryReader}
use xfbin_lib.Binary.Rules.{Decodes_of_ok}
use xfbin_lib.Dict
use xfbin_lib.Dict.{IterativeDict, keys, get_or_next}
use xfbin_lib.Chunk.{ChunkMap, ChunkMap-discrete, null_map}
use xfbin_lib.Page.Types.{Page, ChunkClasses}
use xfbin_lib.Page.Write.{start_dict, write_frame, write_br_chunk}
use xfbin_lib.Page.Frames.{Frame, Stream, done, next, write_frame_reads, write_frame_size}
use xfbin_lib.File.Write.{Pages, start_pages}
use mathlib.Core.List.{lookup}
use mathlib.Core.Path.{subst}

-- The null chunk that the writer puts in front of the first page.
abbrev pub extra_frame : Frame
extra_frame = record { chunk_map = null_map; index = 0; payload = [] }

abbrev pub start_state : Bytes → Pages
start_state extra = record {
  chunk_map_dict = Dict.init;
  chunk_references = [];
  chunk_map_indices = [];
  bytes = extra;
}

-- The dictionary of the page begins with the null chunk.
abbrev pub StartsNull : {P : Type 0} → Page P → Type 0
StartsNull page =
    get_elem? (keys (get_or_next ChunkMap-discrete (start_dict page.chunks) null_map).0) 0
    ≡ some null_map

module _ {Float : Type 0} (io : BinaryReader Float) where
  pub start_pages-Stream :
      {P : Type 0} (classes : ChunkClasses P) (s : Pages)
      → start_pages io classes ≡ ok s
      → (extra : Bytes) × (s ≡ start_state extra) × Stream io (extra_frame ∷ []) extra
  unfolding start_pages write_br_chunk get_or_next Dict.init lookup
  start_pages-Stream classes s h =
      let Q = (extra : Bytes) × (s ≡ start_state extra) × Stream io (extra_frame ∷ []) extra in
      >>=-ok_elim Q (write_br_chunk io null_map (λ d. ok (d, [])) Dict.init) _ h λ r hr h₁.
        >>=-ok_elim Q (write_frame io 0 [])
          (λ bs. ok ((get_or_next ChunkMap-discrete Dict.init null_map).0, bs)) hr
          λ extra he h₂. (
            extra,
            sym (ok_injective h₁)
                ∙ ap (λ (q : IterativeDict ChunkMap × Bytes). start_state q.1)
                    (sym (ok_injective h₂)),
            subst (Stream io _) (append-nil extra) (
                next (Decodes_of_ok (write_frame_reads io 0 []) he)
                  (write_frame_size io 0 [] extra he) done),
          )
