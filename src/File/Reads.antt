-- ===== src/File/Reads.antt =====
-- One page of the file, read back with the table that describes it.
use xfbin_lib.Base.{>>=-ok_elim, ok_injective}
use xfbin_lib.Page.Types.{BrChunk}
use xfbin_lib.Page.Read.{get_br_nucc_chunk, chunk_map_at}
use xfbin_lib.Page.Frames.{raw}
use xfbin_lib.Base.{
  ℕ, ◌+◌, ◌<◌, ◌≡◌, refl, sym, true, false, List, [], ◌∷◌, ◌++◌, ok, some, get_elem?, length,
  length-append, All, Forall₂, All-append, All-both, All-split, All-Forall₂, Forall₂-append,
  Forall₂-imp, nil, cons, arith,
}
use xfbin_lib.Binary.{Bytes, IsText, BinaryReader, Decodes}
use xfbin_lib.Dict.{keys}
use xfbin_lib.Chunk.{ChunkMap, NuccChunk, null_map, page_map, page_class, text_eq}
use xfbin_lib.Chunk.TypeNames.{starts_lower}
use xfbin_lib.Table.Types.{BrChunkTable, ChunkReference}
use xfbin_lib.Table.RoundTrip.{Describes}
use xfbin_lib.Table.Maps.{HasText}
use xfbin_lib.Page.Types.{Page, BrNuccChunk, ChunkClasses}
use xfbin_lib.Page.Write.{PageDict, PageWritten, chunk_body, write_page, write_page_sizes}
use xfbin_lib.Page.Read.{read_page_loop}
use xfbin_lib.Page.Frames.{Frame, Stream, length-Stream}
use xfbin_lib.Page.Chunks.{kept, kept_no_page, FrameOf}
use xfbin_lib.Page.Written.{PageFrames}
use xfbin_lib.Page.Loop.{put_all, put_all-append, Loads, page_loop_reads, page_of}
use xfbin_lib.File.Write.{with_index}
use xfbin_lib.File.Resolve.{entry_of, frame-Loads}
use mathlib.Core.Path.{subst}

-- An entry of a page's dictionary is the frame's chunk and data, under the frame's index, with what the
-- class reads of the data.
pub record EntryOf {P : Type 0} (classes : ChunkClasses P) (f : Frame) (e : ℕ × BrNuccChunk P)
    : Type 0 where
  pub key : e.0 ≡ f.index
  pub is_chunk : e.1.chunk_map ≡ f.chunk_map
  pub has_payload : e.1.content ≡ f.payload
  pub parsed : classes.read_props e.1.chunk_map.type_name e.1.content ≡ ok e.1.props

module _ {Float : Type 0} (io : BinaryReader Float) {P : Type 0} (classes : ChunkClasses P) where
  -- A frame that the reader takes for what it is: the class name is one that `get_nucc_type_from_str`
  -- makes, and the class reads the data.
  pub record IsReadable (f : Frame) : Type 0 where
    pub upper : starts_lower f.chunk_map.type_name ≡ false
    pub props : P
    pub parses : classes.read_props f.chunk_map.type_name f.payload ≡ ok props

  module _ (maps : List ChunkMap) (refs : List ChunkReference) (cs : List ChunkMap)
      (t : BrChunkTable) (described : Describes maps refs cs t) (before mid after : List ChunkMap)
      (split : cs ≡ before ++ (mid ++ after)) where
    abbrev InMid : Frame → Type 0
    InMid f = get_elem? mid f.index ≡ some f.chunk_map

    -- The entries of the frames of a page.
    All-Loads :
        (fs : List Frame)
        → All InMid fs
        → All IsReadable fs
        → (es : List (ℕ × BrNuccChunk P)) × Forall₂ (Loads io classes t (length before)) fs es
    All-Loads [] h r = ([], nil)
    All-Loads (f ∷ fs) (h, hs) (r, rs) =
        let (es, ls) = All-Loads fs hs rs in
        (
          entry_of maps refs cs t described io classes f r.props ∷ es,
          cons
              (frame-Loads maps refs cs t described io classes before mid after f r.props split h
                r.upper r.parses)
              ls,
        )

    loaded-parsed :
        (c : BrChunk) (b : BrNuccChunk P)
        → get_br_nucc_chunk io classes t c (length before) ≡ ok b
        → classes.read_props b.chunk_map.type_name b.content ≡ ok b.props
    unfolding get_br_nucc_chunk
    loaded-parsed c b h =
        >>=-ok_elim _ (chunk_map_at t (length before + c.chunk_map_index)) _ h λ m hm h₁.
          >>=-ok_elim _ (classes.read_props m.type_name c.content) _ h₁ λ p hp h₂.
            subst
              (λ (x : BrNuccChunk P).
                classes.read_props x.chunk_map.type_name x.content ≡ ok x.props)
              (ok_injective h₂) hp

    Loads-EntryOf :
        (f : Frame) (e : ℕ × BrNuccChunk P)
        → Loads io classes t (length before) f e
        → EntryOf classes f e
    Loads-EntryOf f e l = record {
      key = l.key;
      is_chunk = l.is_chunk;
      has_payload = l.has_payload;
      parsed = loaded-parsed (raw f) e.1 l.loaded;
    }

    -- The frames `fs`, and then the page chunk `pf`, read to a page.
    pub frames_read :
        (reference_start : ℕ) (fs : List Frame) (pf : Frame) (bs : Bytes) (n r fuel : ℕ)
        → Stream io (fs ++ (pf ∷ [])) bs
        → All InMid (fs ++ (pf ∷ []))
        → All IsReadable (fs ++ (pf ∷ []))
        → All (λ f. text_eq f.chunk_map.type_name page_class ≡ false) fs
        → text_eq pf.chunk_map.type_name page_class ≡ true
        → write_page_sizes io n r ≡ ok pf.payload
        → length bs < fuel
        → (es : List (ℕ × BrNuccChunk P)) × Forall₂ (EntryOf classes) (fs ++ (pf ∷ [])) es
          × Decodes
              (ok bs)
              (read_page_loop io classes t (length before) reference_start fuel [])
              (page_of io classes t (length before) reference_start (put_all [] es) n r)
    frames_read reference_start fs pf bs n r fuel s h readable np ip sz enough =
        let (here, last) = All-split InMid fs (pf ∷ []) h in
        let (ok_here, ok_last) = All-split IsReadable fs (pf ∷ []) readable in
        let (es, ls) = All-Loads fs here ok_here in
        let pe = entry_of maps refs cs t described io classes pf ok_last.0.props in
        let lp =
          frame-Loads maps refs cs t described io classes before mid after pf ok_last.0.props split
            last.0 ok_last.0.upper ok_last.0.parses in
        (
          es ++ (pe ∷ []),
          Forall₂-append (Forall₂-imp Loads-EntryOf ls) (cons (Loads-EntryOf pf pe lp) nil),
          rw (put_all-append [] es pe.0 pe.1) (
              page_loop_reads io classes t (length before) reference_start fs es pf pe bs fuel [] n
                r s ls np lp ip sz (omega (arith, length-Stream io s, length-append fs (pf ∷ [])))),
        )

  -- What the reader needs of a page that the writer has accepted.
  pub record CanRead (page : Page P) : Type 0 where
    -- class names as `get_nucc_type_from_str` makes them
    pub class_names : All (λ c. starts_lower c.chunk_map.type_name ≡ false) (kept page.chunks)
    -- each class reads what it writes
    pub parses :
        All
          (λ c.
            (d d' : PageDict) (bs : Bytes)
            → chunk_body io classes c d ≡ ok (d', bs)
            → (q : P) × (classes.read_props c.chunk_map.type_name bs ≡ ok q))
          (kept page.chunks)
    -- no string has a zero
    pub texts :
        (w : PageWritten) → write_page io classes page ≡ ok w → All HasText (keys (with_index w))
    pub reference_texts : All (λ r. IsText r.name) page.chunk_references
    -- no chunk of the page is, or refers to, the NuccChunkIndex
    pub no_index :
        (w : PageWritten)
        → write_page io classes page ≡ ok w
        → length (keys (with_index w)) ≡ length (keys w.index_dict) + 1

  FrameOf-IsReadable :
      (last : PageDict) (c : NuccChunk P) (f : Frame)
      → FrameOf io classes last c f
      → (starts_lower c.chunk_map.type_name ≡ false)
        × ((d d' : PageDict) (bs : Bytes)
            → chunk_body io classes c d ≡ ok (d', bs)
            → (q : P) × (classes.read_props c.chunk_map.type_name bs ≡ ok q))
      → IsReadable f
  FrameOf-IsReadable last c f o (low, parses) =
      let (q, hq) = parses o.before o.after f.payload o.wrote in
      record {
        upper = rw o.is_chunk low;
        props = q;
        parses =
            subst (λ (m : ChunkMap). classes.read_props m.type_name f.payload ≡ ok q)
              (sym o.is_chunk) hq;
      }

  pub null_IsReadable : (f : Frame) → f.chunk_map ≡ null_map → IsReadable f
  null_IsReadable f e =
      let (q, hq) = classes.null_reads f.payload in
      record {
        upper = subst (λ (m : ChunkMap). starts_lower m.type_name ≡ false) (sym e) refl;
        props = q;
        parses =
            subst (λ (m : ChunkMap). classes.read_props m.type_name f.payload ≡ ok q) (sym e) hq;
      }

  page_IsReadable : (f : Frame) → f.chunk_map ≡ page_map → IsReadable f
  page_IsReadable f e =
      let (q, hq) = classes.page_reads f.payload in
      record {
        upper = subst (λ (m : ChunkMap). starts_lower m.type_name ≡ false) (sym e) refl;
        props = q;
        parses =
            subst (λ (m : ChunkMap). classes.read_props m.type_name f.payload ≡ ok q) (sym e) hq;
      }

  -- All frames of a page, in order.
  abbrev pub all_frames :
      {page : Page P} {w : PageWritten} → PageFrames io classes page w → List Frame
  all_frames f = f.null_frame ∷ (f.frames ++ (f.page_frame ∷ []))

  pub frames-IsReadable :
      {page : Page P} {w : PageWritten} (f : PageFrames io classes page w)
      → CanRead page
      → All IsReadable (all_frames f)
  frames-IsReadable {page} {w} f r = (
    null_IsReadable f.null_frame f.is_null,
    All-append IsReadable f.frames _
        (All-Forall₂ (FrameOf-IsReadable w.index_dict) f.of_chunks
          (All-both _ _ (kept page.chunks) r.class_names r.parses))
        (page_IsReadable f.page_frame f.is_page, tt),
  )

  pub frames_no_page :
      {page : Page P} {w : PageWritten} (f : PageFrames io classes page w)
      → All (λ x. text_eq x.chunk_map.type_name page_class ≡ false) f.frames
  frames_no_page {page} f =
      All-Forall₂
        (λ c x o e.
          subst (λ (m : ChunkMap). text_eq m.type_name page_class ≡ false) (sym o.is_chunk) e)
        f.of_chunks (kept_no_page page.chunks)
