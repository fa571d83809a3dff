-- ===== src/File/OnePage.antt =====
-- A page of the file reads back with its chunks, indices and references.
use xfbin_lib.Base.{All-Forall₂}
use xfbin_lib.Base.{
  ℕ, ◌+◌, ◌≤◌, ◌<◌, ◌≡◌, refl, sym, true, false, List, [], ◌∷◌, ◌++◌, append_assoc, ok, some,
  get_elem?, length, All, All-append, All-imp, Forall₂, Forall₂-take, Forall₂-drop, arith,
}
use xfbin_lib.Binary.{Bytes, BinaryReader, Decodes}
use xfbin_lib.Dict.{keys}
use xfbin_lib.Dict.Growth.{get_elem?-Grows, get_or_next-Grows}
use xfbin_lib.Chunk.{
  ChunkMap, ChunkMap-discrete, null_map, page_map, page_class, index_map, text_eq,
}
use xfbin_lib.Table.Types.{BrChunkTable, ChunkReference}
use xfbin_lib.Table.RoundTrip.{Describes, Indexed, Referenced}
use xfbin_lib.Page.Types.{Page, BrNuccChunk, BrPage, ChunkClasses}
use xfbin_lib.Page.Write.{PageWritten, write_page}
use xfbin_lib.Page.Read.{read_page_loop}
use xfbin_lib.Page.Frames.{Frame, Stream, Stream-append}
use xfbin_lib.Page.Written.{PageFrames, write_page-PageFrames}
use xfbin_lib.Page.Loop.{put_all, page_of}
use xfbin_lib.File.Write.{with_index}
use xfbin_lib.File.Reads.{
  EntryOf, CanRead, IsReadable, frames_read, null_IsReadable, all_frames, frames-IsReadable,
  frames_no_page,
}
use mathlib.Core.Path.{subst}

no_page_of_null :
    (fs : List Frame)
    → All (λ f. f.chunk_map ≡ null_map) fs
    → All (λ f. text_eq f.chunk_map.type_name page_class ≡ false) fs
unfolding text_eq
no_page_of_null [] h = tt
no_page_of_null (f ∷ fs) (h, hs) = (
  subst (λ (m : ChunkMap). text_eq m.type_name page_class ≡ false) (sym h) refl,
  no_page_of_null fs hs,
)

is_page_class : (m : ChunkMap) → m ≡ page_map → text_eq m.type_name page_class ≡ true
unfolding text_eq
is_page_class m h = subst (λ (x : ChunkMap). text_eq x.type_name page_class ≡ true) (sym h) refl

entry_placed :
    {P : Type 0} {classes : ChunkClasses P} (ks : List ChunkMap) (f : Frame) (e : ℕ × BrNuccChunk P)
    → EntryOf classes f e
    → get_elem? ks f.index ≡ some f.chunk_map
    → get_elem? ks e.0 ≡ some e.1.chunk_map
entry_placed ks f e o h = rw (o.key, o.is_chunk) h

module _ {Float : Type 0} (io : BinaryReader Float) {P : Type 0} (classes : ChunkClasses P) where
  pub eof_nonempty :
      (p : ℕ) (bs rest : Bytes)
      → 1 ≤ length bs
      → io.eof (record { pos = p; rest = bs ++ rest }) ≡ false
  eof_nonempty p [] rest h = absurd (omega arith)
  eof_nonempty p (x ∷ bs) rest h = io.not_eof p x (bs ++ rest)

  module _ (maps : List ChunkMap) (refs : List ChunkReference) (cs : List ChunkMap)
      (t : BrChunkTable) (described : Describes maps refs cs t) where
    -- The page `b` that is read, where `page` was written as `w`: its dictionary holds the frames of
    -- the page, behind those of `pre`, and its indices and references are those of the page.
    pub record PageRead (page : Page P) (w : PageWritten) (pre : List Frame) (b : BrPage P)
        : Type 0 where
      pub parts : PageFrames io classes page w
      pub entries : List (ℕ × BrNuccChunk P)
      pub entries_of : Forall₂ (EntryOf classes) (pre ++ all_frames io classes parts) entries
      pub placed : All (λ e. get_elem? (keys (with_index w)) e.0 ≡ some e.1.chunk_map) entries
      pub chunks_dict : b.chunks_dict ≡ put_all [] entries
      pub page_size : b.page_size ≡ length (keys (with_index w))
      pub reference_size : b.reference_size ≡ length page.chunk_references
      pub indices : Forall₂ (Indexed maps) (keys (with_index w)) b.page_chunk_indices
      pub references : Forall₂ (Referenced maps t) page.chunk_references b.page_chunk_references

    pub page_frames_read :
        (before after : List ChunkMap) (page : Page P) (w : PageWritten) (pre : List Frame)
        (xs : Bytes) (rbefore rafter : List ChunkReference) (fuel : ℕ)
        → write_page io classes page ≡ ok w
        → CanRead io classes page
        → cs ≡ before ++ (keys (with_index w) ++ after)
        → refs ≡ rbefore ++ (page.chunk_references ++ rafter)
        → Stream io pre xs
        → All (λ f. f.chunk_map ≡ null_map) pre
        → All (λ f. get_elem? (keys (with_index w)) f.index ≡ some f.chunk_map) pre
        → length (xs ++ w.bytes) < fuel
        → (b : BrPage P) × PageRead page w pre b
          × Decodes
              (ok (xs ++ w.bytes))
              (read_page_loop io classes t (length before) (length rbefore) fuel [])
              b
    page_frames_read before after page w pre xs rbefore rafter fuel hw r e er s nulls places
          enough =
        let f = write_page-PageFrames io classes page w hw in
        let fs = pre ++ (f.null_frame ∷ f.frames) in
        let same = append_assoc pre (f.null_frame ∷ f.frames) (f.page_frame ∷ []) in
        let InMid = λ (x : Frame). get_elem? (keys (with_index w)) x.index ≡ some x.chunk_map in
        let grown = get_or_next-Grows ChunkMap-discrete w.index_dict index_map in
        let placed =
          All-imp _ InMid (all_frames io classes f) (λ x h. get_elem?-Grows x.index grown h)
            f.placed in
        let (es, of_frames, d) =
          frames_read io classes maps refs cs t described before (keys (with_index w)) after e
            (length rbefore) fs f.page_frame (xs ++ w.bytes) (length (keys w.index_dict) + 1)
            (length page.chunk_references) fuel
            (subst (λ gs. Stream io gs (xs ++ w.bytes)) (sym same) (Stream-append io s f.stream))
            (subst (All InMid) (sym same) (All-append InMid pre _ places placed))
            (subst (All (IsReadable io classes)) (sym same) (
              All-append (IsReadable io classes) pre _
                (All-imp _ _ pre (null_IsReadable io classes) nulls)
                (frames-IsReadable io classes f r)))
            (All-append _ pre _ (no_page_of_null pre nulls) (
              (no_page_of_null (f.null_frame ∷ []) (f.is_null, tt)).0,
              frames_no_page io classes f,
            ))
            (is_page_class f.page_frame.chunk_map f.is_page) f.page_payload enough in
        (
          page_of io classes t (length before) (length rbefore) (put_all [] es)
              (length (keys w.index_dict) + 1) (length page.chunk_references),
          record {
            parts = f;
            entries = es;
            entries_of = subst (λ gs. Forall₂ (EntryOf classes) gs es) same of_frames;
            placed =
                All-Forall₂ (entry_placed (keys (with_index w))) of_frames
                  (subst (All InMid) (sym same) (All-append InMid pre _ places placed));
            chunks_dict = refl;
            page_size = sym (r.no_index w hw);
            reference_size = refl;
            indices = rw (← r.no_index w hw) (
                Forall₂-take (keys (with_index w)) after _ (
                  Forall₂-drop before _ _ (
                    subst (λ xs. Forall₂ (Indexed maps) xs t.chunk_map_indices) e
                      described.indices)));
            references = Forall₂-take page.chunk_references rafter _ (
                Forall₂-drop rbefore _ _ (
                  subst (λ xs. Forall₂ (Referenced maps t) xs t.chunk_map_references) er
                    described.references));
          },
          d,
        )
