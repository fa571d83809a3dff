-- ===== src/File/Parts.antt =====
-- What reading a whole file gives, and how its parts are read one after another.
use xfbin_lib.Base.{
  ℕ, zero, suc, ◌+◌, ◌<◌, ◌≡◌, false, refl, sym, List, [], ◌∷◌, ◌++◌, append_assoc, ok, length,
  length-append, All, All-append, Forall₂, nil, cons, arith,
}
use xfbin_lib.Binary.{Bytes, Cursor, IsText, BinaryReader, ◌>>=◌, pure, DecodesAt}
use xfbin_lib.Binary.Rules.{Decodes_of_ok}
use xfbin_lib.Dict.{keys}
use xfbin_lib.Dict.Growth.{get_elem?-Grows, Grows-trans, get_or_next-Grows}
use xfbin_lib.Chunk.{ChunkMap, ChunkMap-discrete, index_map}
use xfbin_lib.Chunk.TypeNames.{starts_lower}
use xfbin_lib.Table.Types.{BrChunkTable, ChunkReference}
use xfbin_lib.Table.Write.{write_header}
use xfbin_lib.Table.Read.{read_table}
use xfbin_lib.Table.Maps.{HasText}
use xfbin_lib.Table.RoundTrip.{Describes}
use xfbin_lib.Table.Header.{read_header-write_header}
use xfbin_lib.Page.Types.{Page, BrPage, ChunkClasses}
use xfbin_lib.Page.Write.{PageWritten, write_page}
use xfbin_lib.Page.Frames.{Stream}
use xfbin_lib.Page.Written.{write_page-PageFrames}
use xfbin_lib.File.Write.{with_index}
use xfbin_lib.File.Read.{BrXfbin, read_pages, read_br_xfbin}
use xfbin_lib.File.Pages.{all_keys, all_references, all_bytes}
use xfbin_lib.File.OnePage.{page_frames_read}
use xfbin_lib.File.Reads.{CanRead}
use xfbin_lib.File.Sequence.{full_page, length-all_bytes, read_step, ReadsBack, pages_read}
use mathlib.Core.Path.{subst}
use native.Mathlib.Nat.{zero-add}
use xfbin_lib.File.Extra.{extra_frame, StartsNull}

module _ {Float : Type 0} (io : BinaryReader Float) where
  module _ {P : Type 0} (classes : ChunkClasses P) where
    abbrev pub Written : List (Page P) → List PageWritten → Type 0
    Written = Forall₂ (λ page w. write_page io classes page ≡ ok w)

    pub texts_of :
        (pages : List (Page P)) (ws : List PageWritten)
        → Written pages ws
        → All (CanRead io classes) pages
        → All (λ w. All HasText (keys (with_index w))) ws
          × All (λ r. IsText r.name) (all_references ws)
    texts_of _ _ nil r = (tt, tt)
    texts_of _ _ (cons {a = page} {b = w} {l₁ = pages} {l₂ = ws} h hs) (r, rs) =
        let (a, b) = texts_of pages ws hs rs in
        (
          (r.texts w h, a),
          All-append _ w.references _
              (subst (All (λ (x : ChunkReference). IsText x.name))
                (sym (write_page-PageFrames io classes page w h).references) r.reference_texts)
              b,
        )

    abbrev pub IsUpper : ChunkMap → Type 0
    IsUpper m = starts_lower m.type_name ≡ false

    abbrev pub AreUpper : Page P → Type 0
    AreUpper page =
        (w : PageWritten) → write_page io classes page ≡ ok w → All IsUpper (keys (with_index w))

    -- What reading the file of the pages `first ∷ rest` gives: a table that tells the type, path and name
    -- of every chunk, and the pages, the first with the extra null chunk in front.
    pub record FileRead (first : Page P) (rest : List (Page P)) (x : BrXfbin P) : Type 0 where
      pub maps : List ChunkMap
      pub refs : List ChunkReference
      pub indices : List ChunkMap
      pub described : Describes maps refs indices x.chunk_table
      pub upper : All AreUpper (first ∷ rest) → All IsUpper maps
      pub first_page : BrPage P
      pub rest_pages : List (BrPage P)
      pub pages : x.pages ≡ first_page ∷ rest_pages
      pub first_reads :
          ReadsBack io classes maps refs indices x.chunk_table described
            (extra_frame ∷ [])
            first
            first_page
      pub rest_read :
          Forall₂
            (ReadsBack io classes maps refs indices x.chunk_table described [])
            rest
            rest_pages

    -- The pages behind the table.
    pub body_reads :
        (maps : List ChunkMap) (t : BrChunkTable) (first : Page P) (w : PageWritten)
        (rest : List (Page P)) (ws : List PageWritten) (extra : Bytes) (size fuel p : ℕ)
        → (described : Describes maps (all_references (w ∷ ws)) (all_keys (w ∷ ws)) t)
        → write_page io classes first ≡ ok w
        → Written rest ws
        → All (CanRead io classes) (first ∷ rest)
        → StartsNull first
        → Stream io (extra_frame ∷ []) extra
        → length (extra ++ all_bytes (w ∷ ws)) < size
        → length (extra ++ all_bytes (w ∷ ws)) < fuel
        → (b : BrPage P) × (bs : List (BrPage P)) × (c : Cursor) × ReadsBack io classes maps
            (all_references (w ∷ ws))
            (all_keys (w ∷ ws))
            t
            described
            (extra_frame ∷ [])
            first
            b
          × Forall₂
              (ReadsBack io classes maps
                (all_references (w ∷ ws))
                (all_keys (w ∷ ws))
                t
                described
                [])
              rest
              bs
          × (read_pages io classes t size 0 0 fuel
                (record { pos = p; rest = extra ++ all_bytes (w ∷ ws) })
              ≡ ok (b ∷ bs, c))
    body_reads maps t first w rest ws extra size zero p described hw hs r starts s big enough =
        absurd (omega arith)
    body_reads maps t first w rest ws extra size (suc fuel) p described hw hs (r, rs) starts s big
          enough =
        let refs = all_references (w ∷ ws) in
        let cs = all_keys (w ∷ ws) in
        let f = write_page-PageFrames io classes first w hw in
        let ks = keys (with_index w) in
        let er : refs ≡ first.chunk_references ++ all_references ws = rw (← f.references) refl in
        let place =
          get_elem?-Grows 0
            (Grows-trans f.starts (get_or_next-Grows ChunkMap-discrete w.index_dict index_map))
            starts in
        let sizes = length-append extra (all_bytes (w ∷ ws)) in
        let sizes' = length-append w.bytes (all_bytes ws) in
        let first_size = length-append extra w.bytes in
        let (b, back, d) =
          page_frames_read io classes maps refs cs t described [] (all_keys ws) first w
            (extra_frame ∷ []) extra [] (all_references ws) size hw r refl er s (refl, tt)
            (place, tt) (omega arith) in
        let (bs, c, backs, run) =
          pages_read io classes maps refs cs t described rest ws ks first.chunk_references size fuel
            (p + length (extra ++ w.bytes)) hs rs refl er (omega arith)
            (omega
              (arith, full_page io classes first w hw, length-all_bytes io classes rest ws hs)) in
        (
          b,
          bs,
          c,
          (w, hw, back),
          backs,
          subst
              (λ xs.
                read_pages io classes t size 0 0 (suc fuel) (record { pos = p; rest = xs })
                ≡ ok (b ∷ bs, c))
              (append_assoc extra w.bytes (all_bytes ws))
              (read_step io classes maps refs cs t described 0 0 size fuel p (extra ++ w.bytes)
                (all_bytes ws) b bs c (omega (arith, full_page io classes first w hw)) d
                (rw
                  (
                    back.page_size,
                    back.reference_size,
                    zero-add (length ks),
                    zero-add (length first.chunk_references),
                  )
                  run)),
        )

    -- The three parts of a file, read one after another.
    pub file_reads :
        (header table body : Bytes) (n : ℕ) (t : BrChunkTable) (bs : List (BrPage P)) (c : Cursor)
        → length header ≡ 28
        → write_header io n ≡ ok header
        → DecodesAt 28 (ok table) (read_table io) t
        → (let size = suc (length (header ++ (table ++ body))) in
            read_pages io classes t size 0 0 size (record { pos = 28 + length table; rest = body })
            ≡ ok (bs, c))
        → read_br_xfbin io classes (header ++ (table ++ body))
          ≡ ok (record { chunk_table = t; pages = bs })
    unfolding read_br_xfbin ◌>>=◌ pure
    file_reads header table body n t bs c size h d go =
        rw
          (
            ((Decodes_of_ok (read_header-write_header io n) h).at_pos 0).run header (table ++ body)
                refl,
            size,
            d.run table body refl,
            go,
          )
          refl
