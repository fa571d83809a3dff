-- ===== src/File/Pages.antt =====
-- The loop over the pages, as a list of written pages and the state that they add up to.
use xfbin_lib.Base.{
  ◌≡◌, sym, ◌∙◌, List, [], ◌∷◌, ◌++◌, append-nil, append_assoc, ok, >>=-ok_elim, ok_injective, All,
  Forall₂, nil, cons,
}
use xfbin_lib.Binary.{Bytes, BinaryReader}
use xfbin_lib.Dict.{keys}
use xfbin_lib.Dict.Numbering.{IsNumbered, update_or_next-IsNumbered}
use xfbin_lib.Dict.Growth.{All-update_or_next}
use xfbin_lib.Chunk.{ChunkMap, ChunkMap-discrete}
use xfbin_lib.Table.Types.{ChunkReference}
use xfbin_lib.Page.Types.{Page, ChunkClasses}
use xfbin_lib.Page.Write.{PageWritten, write_page}
use xfbin_lib.File.Write.{Pages, with_index, add_page, write_pages}

-- What all pages together hold.
abbrev pub all_keys : List PageWritten → List ChunkMap
all_keys [] = []
all_keys (w ∷ ws) = keys (with_index w) ++ all_keys ws

abbrev pub all_references : List PageWritten → List ChunkReference
all_references [] = []
all_references (w ∷ ws) = w.references ++ all_references ws

abbrev pub all_bytes : List PageWritten → Bytes
all_bytes [] = []
all_bytes (w ∷ ws) = w.bytes ++ all_bytes ws

abbrev pub add_pages : Pages → List PageWritten → Pages
add_pages s [] = s
add_pages s (w ∷ ws) = add_pages (add_page s w) ws

pub add_pages-indices :
    (s : Pages) (ws : List PageWritten)
    → (add_pages s ws).chunk_map_indices ≡ s.chunk_map_indices ++ all_keys ws
unfolding add_page
add_pages-indices s [] = sym (append-nil _)
add_pages-indices s (w ∷ ws) =
    add_pages-indices (add_page s w) ws ∙ append_assoc s.chunk_map_indices _ _

pub add_pages-references :
    (s : Pages) (ws : List PageWritten)
    → (add_pages s ws).chunk_references ≡ s.chunk_references ++ all_references ws
unfolding add_page
add_pages-references s [] = sym (append-nil _)
add_pages-references s (w ∷ ws) =
    add_pages-references (add_page s w) ws ∙ append_assoc s.chunk_references _ _

pub add_pages-bytes :
    (s : Pages) (ws : List PageWritten) → (add_pages s ws).bytes ≡ s.bytes ++ all_bytes ws
unfolding add_page
add_pages-bytes s [] = sym (append-nil _)
add_pages-bytes s (w ∷ ws) = add_pages-bytes (add_page s w) ws ∙ append_assoc s.bytes _ _

pub add_pages-IsNumbered :
    (s : Pages) (ws : List PageWritten)
    → IsNumbered s.chunk_map_dict
    → IsNumbered (add_pages s ws).chunk_map_dict
unfolding add_page
add_pages-IsNumbered s [] n = n
add_pages-IsNumbered s (w ∷ ws) n =
    add_pages-IsNumbered (add_page s w) ws
      (update_or_next-IsNumbered ChunkMap-discrete s.chunk_map_dict _ n)

-- A property of the chunks of every page holds of the chunks of the file.
pub All-add_pages {κ} :
    (Q : ChunkMap → Type κ) (s : Pages) (ws : List PageWritten)
    → All Q (keys s.chunk_map_dict)
    → All (λ w. All Q (keys (with_index w))) ws
    → All Q (keys (add_pages s ws).chunk_map_dict)
unfolding add_page
All-add_pages Q s [] h hs = h
All-add_pages Q s (w ∷ ws) h (hw, hs) =
    All-add_pages Q (add_page s w) ws
      (All-update_or_next ChunkMap-discrete Q s.chunk_map_dict _ h hw) hs

module _ {Float : Type 0} (io : BinaryReader Float) {P : Type 0} (classes : ChunkClasses P) where
  -- The loop writes every page, in order.
  pub write_pages-add_pages :
      (s r : Pages) (pages : List (Page P))
      → write_pages io classes s pages ≡ ok r
      → (ws : List PageWritten) × Forall₂ (λ page w. write_page io classes page ≡ ok w) pages ws
        × (r ≡ add_pages s ws)
  unfolding write_pages
  write_pages-add_pages s r [] h = ([], nil, sym (ok_injective h))
  write_pages-add_pages s r (page ∷ pages) h =
      >>=-ok_elim _ (write_page io classes page) _ h λ w hw h₁.
        let (ws, hs, e) = write_pages-add_pages (add_page s w) r pages h₁ in (w ∷ ws, cons hw hs, e)
