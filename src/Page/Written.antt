-- ===== src/Page/Written.antt =====
-- A whole page as BrPage writes it: the null chunk, the chunks that are kept, and the page chunk.
use xfbin_lib.Base.{
  ◌+◌, ◌≡◌, refl, sym, ap, not, List, [], ◌∷◌, ◌++◌, ok, >>=-ok_elim, ok_injective, length, All,
  All-append, Forall₂, Forall₂-imp, Bool-cases, inl, inr, if_true, if_false,
}
use xfbin_lib.Binary.{Bytes, BinaryReader}
use xfbin_lib.Dict
use xfbin_lib.Dict.{IterativeDict, keys, get_or_next, update_or_next}
use xfbin_lib.Dict.Numbering.{IsNumbered, init-IsNumbered, update_or_next-IsNumbered}
use xfbin_lib.Dict.Growth.{Grows, Grows-trans, get_elem?-Grows}
use xfbin_lib.Chunk.{ChunkMap-discrete, NuccChunk, null_map, page_map}
use xfbin_lib.Page.Types.{Page, ChunkClasses}
use xfbin_lib.Page.Write.{
  PageDict, PageWritten, null_body, page_body, write_page_sizes, start_dict, write_br_chunk,
  write_chunks, write_page,
}
use xfbin_lib.Page.Frames.{
  Frame, Stream, Stream-append, Framed, null_body-Keeps, write_br_chunk-Framed,
}
use xfbin_lib.Page.Chunks.{
  kept, FrameOf, FrameOf-Grows, Placed, ChunksWritten, page_body-Keeps, write_chunks-ChunksWritten,
}
use xfbin_lib.Table.Types.{ChunkReference}
use mathlib.Core.Path.{subst}

module _ {P : Type 0} where
  pub start_dict-IsNumbered : (cs : List (NuccChunk P)) → IsNumbered (start_dict cs)
  unfolding start_dict
  start_dict-IsNumbered [] = init-IsNumbered
  start_dict-IsNumbered (c ∷ cs) = elim (Bool-cases (not c.has_props)) [
    | inl e ↦
        subst IsNumbered (sym (if_true _ _ e))
          (update_or_next-IsNumbered ChunkMap-discrete Dict.init c.chunks init-IsNumbered)
    | inr e ↦ subst IsNumbered (sym (if_false _ _ e)) (start_dict-IsNumbered cs)
  ]

module _ {Float : Type 0} (io : BinaryReader Float) where
  page_body-sizes :
      (refs : List ChunkReference) (d d' : PageDict) (bs : Bytes)
      → page_body io refs d ≡ ok (d', bs)
      → write_page_sizes io (length (keys d') + 1) (length refs) ≡ ok bs
  unfolding page_body
  page_body-sizes refs d d' bs h =
      >>=-ok_elim _ (write_page_sizes io (length (keys d) + 1) (length refs)) _ h λ xs hx h₁.
        subst
          (λ (r : PageDict × Bytes).
            write_page_sizes io (length (keys r.0) + 1) (length refs) ≡ ok r.1)
          (ok_injective h₁) hx

  module _ {P : Type 0} (classes : ChunkClasses P) where
    pub record PageFrames (page : Page P) (w : PageWritten) : Type 0 where
      pub null_frame : Frame
      pub frames : List Frame
      pub page_frame : Frame
      pub is_null : null_frame.chunk_map ≡ null_map
      pub null_payload : null_frame.payload ≡ []
      pub of_chunks : Forall₂ (FrameOf io classes w.index_dict) (kept page.chunks) frames
      pub is_page : page_frame.chunk_map ≡ page_map
      pub page_payload :
          write_page_sizes io (length (keys w.index_dict) + 1) (length page.chunk_references)
          ≡ ok page_frame.payload
      pub numbered : IsNumbered w.index_dict
      pub placed : All (Placed io classes w.index_dict) (null_frame ∷ (frames ++ (page_frame ∷ [])))
      pub stream : Stream io (null_frame ∷ (frames ++ (page_frame ∷ []))) w.bytes
      pub references : w.references ≡ page.chunk_references
      pub starts :
          Grows (get_or_next ChunkMap-discrete (start_dict page.chunks) null_map).0 w.index_dict

    null_payload_of :
        (d : PageDict) (r : PageDict × Bytes) (bs : Bytes) → null_body d ≡ ok (r.0, bs) → bs ≡ []
    null_payload_of d r bs h = ap (λ (q : PageDict × Bytes). q.1) (sym (ok_injective h))

    page_of_parts :
        (page : Page P) (r₁ r₂ r₃ : PageDict × Bytes)
        → Framed io null_map null_body (start_dict page.chunks) r₁
        → ChunksWritten io classes page.chunks r₁.0 r₂
        → Framed io page_map (page_body io page.chunk_references) r₂.0 r₃
        → PageFrames page (record {
          index_dict = r₃.0;
          references = page.chunk_references;
          bytes = r₁.1 ++ (r₂.1 ++ r₃.1);
        })
    page_of_parts page r₁ r₂ r₃ n c p = record {
      null_frame = n.frame;
      frames = c.frames;
      page_frame = p.frame;
      is_null = n.is_chunk;
      null_payload = null_payload_of n.before r₁ n.frame.payload n.wrote;
      of_chunks = Forall₂-imp (FrameOf-Grows io classes p.grows) c.of_chunks;
      is_page = p.is_chunk;
      page_payload = page_body-sizes page.chunk_references p.before r₃.0 p.frame.payload p.wrote;
      numbered = p.numbered;
      placed = (
        get_elem?-Grows n.frame.index (Grows-trans c.grows p.grows) n.placed,
        All-append _ c.frames _ (placed_later c.frames c.placed) (p.placed, tt),
      );
      stream = Stream-append io n.stream (Stream-append io c.stream p.stream);
      references = refl;
      starts = Grows-trans n.has_chunk (Grows-trans c.grows p.grows);
    }
      where
        placed_later :
            (fs : List Frame) → All (Placed io classes r₂.0) fs → All (Placed io classes r₃.0) fs
        placed_later [] h = tt
        placed_later (f ∷ fs) (h, hs) = (get_elem?-Grows f.index p.grows h, placed_later fs hs)

    -- A page that is written without an error is a stream of frames: the null chunk with no data, then in order
    -- one for each chunk that is neither null nor page chunk, with the data that its class wrote, and the page
    -- chunk with the sizes of the dictionary (and one more) and of the references. Every frame's index is the
    -- place of its chunk among the keys of the final dictionary, which is numbered and begins with the
    -- dictionary that the null chunk was added to.
    pub write_page-PageFrames :
        (page : Page P) (w : PageWritten) → write_page io classes page ≡ ok w → PageFrames page w
    unfolding write_page
    write_page-PageFrames page w h =
        let d = start_dict page.chunks in
        >>=-ok_elim (PageFrames page w) (write_br_chunk io null_map null_body d) _ h λ r₁ h₁ k₁.
          let n =
            write_br_chunk-Framed io null_map null_body d r₁ null_body-Keeps
              (start_dict-IsNumbered page.chunks) h₁ in
          >>=-ok_elim (PageFrames page w) (write_chunks io classes page.chunks r₁.0) _ k₁
            λ r₂ h₂ k₂.
              let c = write_chunks-ChunksWritten io classes page.chunks r₁.0 r₂ n.numbered h₂ in
              >>=-ok_elim (PageFrames page w)
                (write_br_chunk io page_map (page_body io page.chunk_references) r₂.0) _ k₂
                λ r₃ h₃ k₃.
                  let p =
                    write_br_chunk-Framed io page_map (page_body io page.chunk_references) r₂.0 r₃
                      (page_body-Keeps io page.chunk_references) c.numbered h₃ in
                  subst (PageFrames page) (ok_injective k₃) (page_of_parts page r₁ r₂ r₃ n c p)
