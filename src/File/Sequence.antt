-- ===== src/File/Sequence.antt =====
-- A file that the writer has made reads back: the table, and every page with its chunks.
use xfbin_lib.Base.{
  ℕ, zero, suc, ◌+◌, ◌≤◌, ◌<◌, ◌≡◌, refl, sym, ◌∙◌, List, [], ◌∷◌, ◌++◌, append_assoc, ok, length,
  length-append, All, Forall₂, nil, cons, arith,
}
use xfbin_lib.Binary.{Bytes, Cursor, BinaryReader, ◌>>=◌, pure, Decodes}
use xfbin_lib.Dict.{keys}
use xfbin_lib.Chunk.{ChunkMap}
use xfbin_lib.Table.Types.{BrChunkTable, ChunkReference}
use xfbin_lib.Table.RoundTrip.{Describes}
use xfbin_lib.Page.Types.{Page, BrPage, ChunkClasses}
use xfbin_lib.Page.Write.{PageWritten, write_page}
use xfbin_lib.Page.Read.{read_page_loop}
use xfbin_lib.Page.Frames.{Frame, done, length-Stream}
use xfbin_lib.Page.Written.{write_page-PageFrames}
use xfbin_lib.File.Write.{with_index}
use xfbin_lib.File.Read.{read_pages}
use xfbin_lib.File.Pages.{all_keys, all_references, all_bytes}
use xfbin_lib.File.OnePage.{PageRead, eof_nonempty, page_frames_read}
use xfbin_lib.File.Reads.{CanRead}

module _ {Float : Type 0} (io : BinaryReader Float) {P : Type 0} (classes : ChunkClasses P) where
  pub full_page :
      (page : Page P) (w : PageWritten) → write_page io classes page ≡ ok w → 1 ≤ length w.bytes
  full_page page w h =
      let f = write_page-PageFrames io classes page w h in omega (arith, length-Stream io f.stream)

  -- Every page takes a byte at least.
  pub length-all_bytes :
      (pages : List (Page P)) (ws : List PageWritten)
      → Forall₂ (λ page w. write_page io classes page ≡ ok w) pages ws
      → length ws ≤ length (all_bytes ws)
  length-all_bytes _ _ nil = omega arith
  length-all_bytes _ _ (cons {a = page} {b = w} {l₁ = pages} {l₂ = ws} h hs) = omega (
    arith,
    full_page page w h,
    length-all_bytes pages ws hs,
    length-append w.bytes (all_bytes ws),
  )

  module _ (maps : List ChunkMap) (refs : List ChunkReference) (cs : List ChunkMap)
      (t : BrChunkTable) (described : Describes maps refs cs t) where
    -- A page, and then the pages behind it.
    pub read_step :
        (page_start reference_start size fuel p : ℕ) (bs rest : Bytes) (b : BrPage P)
        (more : List (BrPage P)) (c : Cursor)
        → 1 ≤ length bs
        → Decodes (ok bs) (read_page_loop io classes t page_start reference_start size []) b
        → read_pages io classes t size
            (page_start + b.page_size)
            (reference_start + b.reference_size)
            fuel
            (record { pos = p + length bs; rest = rest })
          ≡ ok (more, c)
        → read_pages io classes t size page_start reference_start
            (suc fuel)
            (record { pos = p; rest = bs ++ rest })
          ≡ ok (b ∷ more, c)
    unfolding read_pages ◌>>=◌ pure
    read_step page_start reference_start size fuel p bs rest b more c full d h =
        rw (eof_nonempty io classes p bs rest full, read_pages)
          (rw ((d.at_pos p).run bs rest refl) (rw h))

    -- A page that reads back, behind the frames of `pre`.
    abbrev pub ReadsBack : List Frame → Page P → BrPage P → Type 0
    ReadsBack pre page b =
        (w : PageWritten) × (write_page io classes page ≡ ok w)
        × PageRead io classes maps refs cs t described page w pre b

    pub pages_read :
        (pages : List (Page P)) (ws : List PageWritten) (before : List ChunkMap)
        (rbefore : List ChunkReference) (size fuel p : ℕ)
        → Forall₂ (λ page w. write_page io classes page ≡ ok w) pages ws
        → All (CanRead io classes) pages
        → cs ≡ before ++ all_keys ws
        → refs ≡ rbefore ++ all_references ws
        → length (all_bytes ws) < size
        → length ws < fuel
        → (bs : List (BrPage P)) × (c : Cursor) × Forall₂ (ReadsBack []) pages bs
          × (read_pages io classes t size
                (length before)
                (length rbefore)
                fuel
                (record { pos = p; rest = all_bytes ws })
              ≡ ok (bs, c))
    unfolding read_pages pure
    pages_read pages ws before rbefore size zero p hs r e er big enough = absurd (omega arith)
    pages_read _ _ before rbefore size (suc fuel) p nil r e er big enough =
        ([], record { pos = p; rest = [] }, nil, rw (io.eof_at_end p, read_pages))
    pages_read _ _ before rbefore size (suc fuel) p
          (cons {a = page} {b = w} {l₁ = pages} {l₂ = ws} h hs) (r, rs) e er big enough =
        let ks = keys (with_index w) in
        let f = write_page-PageFrames io classes page w h in
        let er' : refs ≡ rbefore ++ (page.chunk_references ++ all_references ws) =
          rw (← f.references) er in
        let (b, back, d) =
          page_frames_read io classes maps refs cs t described before (all_keys ws) page w [] []
            rbefore (all_references ws) size h r e er' done tt tt
            (omega (arith, length-append w.bytes (all_bytes ws))) in
        let (bs, c, backs, run) =
          pages_read pages ws (before ++ ks) (rbefore ++ page.chunk_references) size fuel
            (p + length w.bytes) hs rs (e ∙ sym (append_assoc before ks (all_keys ws)))
            (er' ∙ sym (append_assoc rbefore page.chunk_references (all_references ws)))
            (omega (arith, length-append w.bytes (all_bytes ws))) (omega arith) in
        (
          b ∷ bs,
          c,
          cons (w, h, back) backs,
          read_step (length before) (length rbefore) size fuel p w.bytes (all_bytes ws) b bs c
              (full_page page w h) d
              (rw
                (
                  back.page_size,
                  back.reference_size,
                  ← length-append before ks,
                  ← length-append rbefore page.chunk_references,
                )
                run),
        )
