-- ===== src/File/Objects/Page.antt =====
-- A page of a file that was written, made of the objects of the file, and the pages one after another.
use xfbin_lib.Base.{
  Error, raise, ◌⊎◌, inl, inr, ℕ, ◌≡◌, refl, sym, ◌∙◌, List, [], ◌∷◌, ◌++◌, All, ok, some,
  get_elem?, at_index_of_get_elem?, map_result, Forall₂, nil, cons,
}
use xfbin_lib.Binary.{Text, BinaryReader}
use xfbin_lib.Dict.{keys}
use xfbin_lib.Chunk.{ChunkMap, NuccChunk}
use xfbin_lib.Table.Types.{BrChunkReference, BrChunkTable, ChunkReference}
use xfbin_lib.Table.RoundTrip.{Describes, Indexed, Referenced}
use xfbin_lib.Page.Types.{Page, BrNuccChunk, BrPage, ChunkClasses}
use xfbin_lib.Page.Write.{PageWritten, write_page}
use xfbin_lib.Page.Frames.{Frame}
use xfbin_lib.Page.Written.{PageFrames}
use xfbin_lib.Page.Loop.{put_all}
use xfbin_lib.File.Write.{with_index}
use xfbin_lib.File.Reads.{EntryOf, all_frames}
use xfbin_lib.File.Sequence.{ReadsBack}
use xfbin_lib.File.Objects.{ObjectPage, maps_of, read_reference, InitData, init_page}
use xfbin_lib.File.Objects.Store.{get_elem?-maps_of, map_result-object_at}
use xfbin_lib.File.Objects.Reads.{
  IsObject, Filled, add_inits, Keeps, Stopped, All-put_all, init_entries_ends,
}
use mathlib.Core.Path.{subst}

abbrev pub IsReference : List ChunkMap → ChunkReference → Text × ℕ → Type 0
IsReference maps r q = (q.0 ≡ r.name) × (get_elem? maps q.1 ≡ some r.chunk)

module _ {Float : Type 0} (io : BinaryReader Float) {P : Type 0} (classes : ChunkClasses P)
    (init_data : InitData P) where
  references_read :
      (t : BrChunkTable) (store : List (NuccChunk P)) (rs : List ChunkReference)
      (bs : List BrChunkReference)
      → Forall₂ (Referenced (maps_of store) t) rs bs
      → (qs : List (Text × ℕ)) × (map_result (read_reference t store) bs ≡ ok qs)
        × Forall₂ (IsReference (maps_of store)) rs qs
  unfolding read_reference
  references_read t store _ _ nil = ([], refl, nil)
  references_read t store _ _ (cons {a = r} {b = b} {l₁ = rs} {l₂ = bs} (hn, hc) hs) =
      let (qs, run, is) = references_read t store rs bs hs in
      let (c, found, e) = get_elem?-maps_of store b.chunk_map_index r.chunk hc in
      (
        (r.name, b.chunk_map_index) ∷ qs,
        rw
            (
              at_index_of_get_elem? t.chunk_names b.chunk_name_index hn,
              at_index_of_get_elem? store b.chunk_map_index found,
              run,
            )
            refl,
        cons (refl, hc) is,
      )

  -- What the reader has of a page that was written: the dictionary of its frames, behind the frames `pre`, and
  -- its indices.
  pub record PageEntries (maps : List ChunkMap) (pre : List Frame) (page : Page P)
      (indices : List ℕ) (dict : List (ℕ × BrNuccChunk P)) : Type 0 where
    pub w : PageWritten
    pub written : write_page io classes page ≡ ok w
    pub parts : PageFrames io classes page w
    pub entries : List (ℕ × BrNuccChunk P)
    pub entries_of : Forall₂ (EntryOf classes) (pre ++ all_frames io classes parts) entries
    pub is_dict : dict ≡ put_all [] entries
    pub indexed : Forall₂ (Indexed maps) (keys (with_index w)) indices

  -- The page object: its chunks are, in order, objects with the type, path and name of the entries of the
  -- dictionary, and so are its initial chunks and references with those that were written.
  pub record PageMade (maps : List ChunkMap) (framed : List Frame × Page P)
      (made : ObjectPage × List (ℕ × BrNuccChunk P)) : Type 0 where
    pub has_entries : PageEntries maps framed.0 framed.1 made.0.initial_page_chunks made.1
    pub references : Forall₂ (IsReference maps) framed.1.chunk_references made.0.chunk_references
    pub chunks : Forall₂ (IsObject maps) made.1 made.0.chunks

  module _ (Shows : BrNuccChunk P → NuccChunk P → Type 0) where
    -- The page at which `init_data` raises, after the entries `us` of the pages before.
    pub record PageStopped (maps : List ChunkMap) (us : List (ℕ × BrNuccChunk P))
        (framed : List Frame × Page P) (error : Error) : Type 0 where
      pub indices : List ℕ
      pub dict : List (ℕ × BrNuccChunk P)
      pub has_entries : PageEntries maps framed.0 framed.1 indices dict
      pub stopped : Stopped Shows init_data maps indices us dict error

    module _ (keeps : Keeps Shows init_data) (maps : List ChunkMap) (refs : List ChunkReference)
        (cs : List ChunkMap) (t : BrChunkTable) (described : Describes maps refs cs t) where
      abbrev pub PageReturns :
          List (ℕ × BrNuccChunk P) → List Frame × Page P → BrPage P → List (NuccChunk P) → Type 0
      PageReturns us framed b store =
          (store' : List (NuccChunk P)) × (made : ObjectPage × List (ℕ × BrNuccChunk P))
          × (init_page init_data t store b ≡ ok (store', made.0))
          × (maps_of store' ≡ maps)
          × PageMade maps framed made
          × Filled Shows store' (add_inits us made.1 made.0.chunks)

      abbrev pub PageRaises :
          List (ℕ × BrNuccChunk P) → List Frame × Page P → BrPage P → List (NuccChunk P) → Type 0
      PageRaises us framed b store =
          (error : Error) × (init_page init_data t store b ≡ raise error)
          × PageStopped maps us framed error

      pub init_page_ends :
          (us : List (ℕ × BrNuccChunk P)) (framed : List Frame × Page P) (b : BrPage P)
          (store : List (NuccChunk P))
          → ReadsBack io classes maps refs cs t described framed.0 framed.1 b
          → maps_of store ≡ maps
          → Filled Shows store us
          → PageReturns us framed b store ⊎ PageRaises us framed b store
      unfolding init_page
      init_page_ends us (pre, page) b store (w, hw, back) same filled =
          let ks = keys (with_index w) in
          let is = b.page_chunk_indices in
          let indexed = subst (λ ms. Forall₂ (Indexed ms) ks is) (sym same) back.indices in
          let (qs, refs_run, refs_are) =
            references_read t store page.chunk_references b.page_chunk_references (
              subst (λ ms. Forall₂ (Referenced ms t) page.chunk_references b.page_chunk_references)
                (sym same) back.references) in
          let placed =
            subst (All (λ e. get_elem? ks e.0 ≡ some e.1.chunk_map)) (sym back.chunks_dict) (
              All-put_all (λ e. get_elem? ks e.0 ≡ some e.1.chunk_map) [] back.entries tt
                back.placed) in
          let initial = map_result-object_at store ks is indexed in
          let read : PageEntries maps pre page is b.chunks_dict = record {
            w = w;
            written = hw;
            parts = back.parts;
            entries = back.entries;
            entries_of = back.entries_of;
            is_dict = back.chunks_dict;
            indexed = back.indices;
          } in
          elim (init_entries_ends Shows init_data ks is us b.chunks_dict store keeps indexed placed
            filled) [
              | inl d ↦ inl (
                d.store',
                (
                  record { initial_page_chunks = is; chunk_references = qs; chunks = d.chunks },
                  b.chunks_dict,
                ),
                rw (initial, refs_run, d.runs) refl,
                d.same ∙ same,
                record {
                  has_entries = read;
                  references =
                      subst (λ ms. Forall₂ (IsReference ms) page.chunk_references qs) same refs_are;
                  chunks = subst (λ ms. Forall₂ (IsObject ms) b.chunks_dict d.chunks) same d.found;
                },
                d.filled,
              )
              | inr (error, fails, s) ↦ inr (
                error,
                rw (initial, refs_run, fails) refl,
                record {
                  indices = is;
                  dict = b.chunks_dict;
                  has_entries = read;
                  stopped =
                      subst (λ ms. Stopped Shows init_data ms is us b.chunks_dict error) same s;
                },
              )
            ]
