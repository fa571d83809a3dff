-- ===== src/File/Objects/RoundTrip.antt =====
-- `read_xfbin` on the bytes of `write_xfbin`: the objects of the file and its pages.
use xfbin_lib.Base.{
  ℕ, ◌≡◌, refl, sym, ap, ◌++◌, ◌⊎◌, inl, inr, Error, raise, List, [], ◌∷◌, map, All, ok, Forall₂,
  nil, cons,
}
use xfbin_lib.Binary.{Bytes, BinaryReader}
use xfbin_lib.Chunk.{ChunkMap, NuccChunk, init}
use xfbin_lib.Table.Types.{BrChunkTable, ChunkReference}
use xfbin_lib.Table.RoundTrip.{Describes}
use xfbin_lib.Page.Types.{Page, BrNuccChunk, BrPage, ChunkClasses}
use xfbin_lib.Page.Frames.{Frame}
use xfbin_lib.File.Write.{write_xfbin}
use xfbin_lib.File.Reads.{CanRead}
use xfbin_lib.File.Sequence.{ReadsBack}
use xfbin_lib.File.Extra.{extra_frame, StartsNull}
use xfbin_lib.File.Parts.{AreUpper}
use xfbin_lib.File.RoundTrip.{read_br_xfbin-write_xfbin}
use xfbin_lib.File.Objects.{ObjectPage, maps_of, InitData, init_pages, init_xfbin, read_xfbin}
use xfbin_lib.File.Objects.Store.{create_chunks-maps, maps_of-init}
use xfbin_lib.File.Objects.Reads.{Filled, add_inits, Keeps}
use xfbin_lib.File.Objects.Page.{PageMade, PageStopped, init_page_ends}
use mathlib.Core.Path.{subst}
use mathlib.Core.Option

-- The pages of a file, with the frames in front of their own: the first has the extra null chunk.
abbrev pub with_extra : {P : Type 0} → List (Page P) → List (List Frame × Page P)
with_extra [] = []
with_extra (first ∷ rest) = (extra_frame ∷ [], first) ∷ map (λ page. ([], page)) rest

-- The entries that the pages have read for their objects, behind `us`; the newest stand first.
abbrev pub add_page_inits :
    {P : Type 0}
    → List (ℕ × BrNuccChunk P)
    → List (ObjectPage × List (ℕ × BrNuccChunk P))
    → List (ℕ × BrNuccChunk P)
add_page_inits us [] = us
add_page_inits us (p ∷ ps) = add_page_inits (add_inits us p.1 p.0.chunks) ps

module _ {Float : Type 0} (io : BinaryReader Float) {P : Type 0} (classes : ChunkClasses P)
    (init_data : InitData P) (Shows : BrNuccChunk P → NuccChunk P → Type 0) where
  -- Where the `init_data` of a chunk raises: the pages before have been made.
  pub record PagesStopped (maps : List ChunkMap) (us : List (ℕ × BrNuccChunk P))
      (pages : List (List Frame × Page P)) (error : Error) : Type 0 where
    pub earlier : List (List Frame × Page P)
    pub page : List Frame × Page P
    pub later : List (List Frame × Page P)
    pub split : pages ≡ earlier ++ (page ∷ later)
    pub made : List (ObjectPage × List (ℕ × BrNuccChunk P))
    pub are_made : Forall₂ (PageMade io classes init_data maps) earlier made
    pub stopped : PageStopped io classes init_data Shows maps (add_page_inits us made) page error

  module _ (keeps : Keeps Shows init_data) where
    module _ (maps : List ChunkMap) (refs : List ChunkReference) (cs : List ChunkMap)
        (t : BrChunkTable) (described : Describes maps refs cs t) where
      abbrev PagesReturn :
          List (ℕ × BrNuccChunk P)
          → List (List Frame × Page P)
          → List (BrPage P)
          → List (NuccChunk P)
          → Type 0
      PagesReturn us pages bs store =
          (store' : List (NuccChunk P)) × (made : List (ObjectPage × List (ℕ × BrNuccChunk P)))
          × (init_pages init_data t store bs
              ≡ ok (record { store = store'; pages = map (λ p. p.0) made }))
          × (maps_of store' ≡ maps)
          × Forall₂ (PageMade io classes init_data maps) pages made
          × Filled Shows store' (add_page_inits us made)

      abbrev PagesRaise :
          List (ℕ × BrNuccChunk P)
          → List (List Frame × Page P)
          → List (BrPage P)
          → List (NuccChunk P)
          → Type 0
      PagesRaise us pages bs store =
          (error : Error) × (init_pages init_data t store bs ≡ raise error)
          × PagesStopped maps us pages error

      init_pages_ends :
          (us : List (ℕ × BrNuccChunk P)) (pages : List (List Frame × Page P))
          (bs : List (BrPage P)) (store : List (NuccChunk P))
          → Forall₂ (λ q. ReadsBack io classes maps refs cs t described q.0 q.1) pages bs
          → maps_of store ≡ maps
          → Filled Shows store us
          → PagesReturn us pages bs store ⊎ PagesRaise us pages bs store
      unfolding init_pages
      init_pages_ends us _ _ store nil same filled = inl (store, [], refl, same, nil, filled)
      init_pages_ends us _ _ store (cons {a = q} {b = b} {l₁ = pages} {l₂ = bs} h hs) same filled =
          elim (init_page_ends io classes init_data Shows keeps maps refs cs t described us q b
            store h same filled) [
              | inr (error, fails, s) ↦ inr (
                error,
                rw fails refl,
                record {
                  earlier = [];
                  page = q;
                  later = pages;
                  split = refl;
                  made = [];
                  are_made = nil;
                  stopped = s;
                },
              )
              | inl (store', made, run, same', is, filled') ↦
                  elim (init_pages_ends (add_inits us made.1 made.0.chunks) pages bs store' hs same'
                    filled') [
                      | inl (last, more, runs, same'', are, filled'') ↦
                          inl
                            (last, made ∷ more, rw (run, runs) refl, same'', cons is are, filled'')
                      | inr (error, fails, s) ↦ inr (
                        error,
                        rw (run, fails) refl,
                        record {
                          earlier = q ∷ s.earlier;
                          page = s.page;
                          later = s.later;
                          split = ap (◌∷◌ q) s.split;
                          made = made ∷ s.made;
                          are_made = cons is s.are_made;
                          stopped = s.stopped;
                        },
                      )
                    ]
            ]

      without_pre :
          (pages : List (Page P)) (bs : List (BrPage P))
          → Forall₂ (ReadsBack io classes maps refs cs t described []) pages bs
          → Forall₂
              (λ (q : List Frame × Page P). ReadsBack io classes maps refs cs t described q.0 q.1)
              (map (λ page. ([], page)) pages)
              bs
      without_pre _ _ nil = nil
      without_pre _ _ (cons {l₁ = pages} {l₂ = bs} h hs) = cons h (without_pre pages bs hs)

    -- What `read_xfbin` gives for the pages: their objects, with what was read for them.
    pub record FileMade (pages : List (Page P)) (file : Bytes) : Type 0 where
      pub store : List (NuccChunk P)
      pub made : List (ObjectPage × List (ℕ × BrNuccChunk P))
      pub returns :
          read_xfbin init_data io classes file
          ≡ ok (record { store = store; pages = map (λ p. p.0) made })
      pub are_made : Forall₂ (PageMade io classes init_data (maps_of store)) (with_extra pages) made
      pub filled : Filled Shows store (add_page_inits [] made)

    -- Where `read_xfbin` raises, the `init_data` of a chunk does.
    pub record FileStopped (pages : List (Page P)) (file : Bytes) : Type 0 where
      pub error : Error
      pub raises : read_xfbin init_data io classes file ≡ raise error
      pub maps : List ChunkMap
      pub stopped : PagesStopped maps [] (with_extra pages) error

    -- For a file of at least one page, where every page can be read (`CanRead`: class names as
    -- `get_nucc_type_from_str` makes them, each class reads what it writes, no text has a zero, no chunk is the
    -- NuccChunkIndex), every class name that a page numbers is as `get_nucc_type_from_str` makes it, and the
    -- dictionary of the first page begins with the null chunk; and where an `init_data` that returns keeps the type,
    -- path and name of all objects, makes its object show the entry that was read, and lets the others show what they
    -- showed: either `read_xfbin` of the bytes that `write_xfbin` returns gives the pages, in order, the initial chunks
    -- and references of each page being objects with the type, path and name that were written, and its chunks those
    -- of the dictionary of the frames that were written, the first page with the extra null chunk in front, and every
    -- object shows the entry that was read last for it; or `read_xfbin` raises, and it is the error of the `init_data`
    -- of a chunk of one of the pages, for which the pages before and the chunks before it have been read.
    pub read_xfbin-write_xfbin :
        (first : Page P) (rest : List (Page P)) (file : Bytes)
        → All (CanRead io classes) (first ∷ rest)
        → All (AreUpper io classes) (first ∷ rest)
        → StartsNull first
        → write_xfbin io classes (first ∷ rest) ≡ ok file
        → FileMade (first ∷ rest) file ⊎ FileStopped (first ∷ rest) file
    unfolding read_xfbin init_xfbin
    read_xfbin-write_xfbin first rest file r upper starts h =
        let (x, run, back) = read_br_xfbin-write_xfbin io classes first rest file r starts h in
        let created =
          create_chunks-maps {P = P} x.chunk_table back.maps (back.upper upper)
            back.described.chunk_maps in
        elim (init_pages_ends back.maps back.refs back.indices x.chunk_table back.described []
          (with_extra (first ∷ rest)) (back.first_page ∷ back.rest_pages) (map init back.maps)
          (cons back.first_reads (
            without_pre back.maps back.refs back.indices x.chunk_table back.described rest
              back.rest_pages back.rest_read))
          (maps_of-init P back.maps) (λ j b e. absurd (Option.none-ne-some _ e))) [
            | inl (store, made, go, same, are, filled) ↦ inl (record {
              store = store;
              made = made;
              returns = rw (run, created, back.pages, go) refl;
              are_made =
                  subst
                    (λ ms.
                      Forall₂ (PageMade io classes init_data ms) (with_extra (first ∷ rest)) made)
                    (sym same) are;
              filled = filled;
            })
            | inr (error, fails, s) ↦ inr (record {
              error = error;
              raises = rw (run, created, back.pages, fails) refl;
              maps = back.maps;
              stopped = s;
            })
          ]
