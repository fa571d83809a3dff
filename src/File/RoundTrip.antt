-- ===== src/File/RoundTrip.antt =====
-- BrXfbin as a whole: `read_br_xfbin` on the bytes of `write_xfbin`.
use xfbin_lib.Base.{
  ℕ, suc, ◌+◌, ◌-◌, ◌<◌, ◌≡◌, refl, sym, ap, ◌∙◌, List, [], ◌∷◌, ◌++◌, ok, >>=-ok_elim,
  ok_injective, length, length-append, All, All-Forall₂, cons, arith,
}
use xfbin_lib.Binary.{Bytes, BinaryReader}
use xfbin_lib.Dict
use xfbin_lib.Dict.{IterativeDict, keys, get_or_next}
use xfbin_lib.Dict.Numbering.{IsNumbered, init-IsNumbered}
use xfbin_lib.Table.Write.{write_header, write_table}
use xfbin_lib.Table.Maps.{HasText}
use xfbin_lib.Table.RoundTrip.{read_table-write_table}
use xfbin_lib.Table.Header.{length-write_header}
use xfbin_lib.Page.Types.{Page, ChunkClasses}
use xfbin_lib.Page.Write.{PageWritten}
use xfbin_lib.Page.Frames.{Stream}
use xfbin_lib.File.Write.{with_index, Pages, write_pages, start_pages, write_xfbin}
use xfbin_lib.File.Read.{BrXfbin, read_br_xfbin}
use xfbin_lib.File.Pages.{
  all_keys, all_references, all_bytes, add_pages, add_pages-indices, add_pages-references,
  add_pages-bytes, add_pages-IsNumbered, All-add_pages, write_pages-add_pages,
}
use xfbin_lib.File.Reads.{CanRead}
use mathlib.Core.Path.{subst}
use xfbin_lib.File.Extra.{extra_frame, start_state, StartsNull, start_pages-Stream}
use xfbin_lib.File.Parts.{IsUpper, AreUpper, Written, texts_of, FileRead, body_reads, file_reads}

module _ {Float : Type 0} (io : BinaryReader Float) where
  module _ {P : Type 0} (classes : ChunkClasses P) where
    -- The table, and then the pages, for the state that the loop over the pages leaves.
    state_reads :
        (first : Page P) (rest : List (Page P)) (ws : List PageWritten) (extra header : Bytes)
        (s : Pages) (table : Bytes × ℕ)
        → s ≡ add_pages (start_state extra) ws
        → Written io classes (first ∷ rest) ws
        → All (CanRead io classes) (first ∷ rest)
        → StartsNull first
        → Stream io (extra_frame ∷ []) extra
        → write_table io s.chunk_map_dict s.chunk_references s.chunk_map_indices ≡ ok table
        → write_header io (length table.0 - table.1) ≡ ok header
        → (x : BrXfbin P) × (read_br_xfbin io classes (header ++ (table.0 ++ s.bytes)) ≡ ok x)
          × FileRead io classes first rest x
    unfolding Dict.init
    state_reads first rest _ extra header s (table, n) e (cons {b = w} {l₂ = ws} hw hs) r starts
          stream ht hh =
        let s₀ = start_state extra in
        let all = w ∷ ws in
        let (texts, ref_texts) = texts_of io classes (first ∷ rest) all (cons hw hs) r in
        let numbered =
          subst (λ (q : Pages). IsNumbered q.chunk_map_dict) (sym e)
            (add_pages-IsNumbered s₀ all init-IsNumbered) in
        let map_texts =
          subst (λ (q : Pages). All HasText (keys q.chunk_map_dict)) (sym e)
            (All-add_pages HasText s₀ all tt texts) in
        let er : s.chunk_references ≡ all_references all =
          ap (λ (q : Pages). q.chunk_references) e ∙ add_pages-references s₀ all in
        let ei : s.chunk_map_indices ≡ all_keys all =
          ap (λ (q : Pages). q.chunk_map_indices) e ∙ add_pages-indices s₀ all in
        let eb : s.bytes ≡ extra ++ all_bytes all =
          ap (λ (q : Pages). q.bytes) e ∙ add_pages-bytes s₀ all in
        let (t, described, d) =
          read_table-write_table io s.chunk_map_dict (all_references all) (all_keys all) 28
            (table, n) numbered map_texts ref_texts (omega arith) (rw (← er, ← ei) ht) in
        let size = suc (length (header ++ (table ++ (extra ++ all_bytes all)))) in
        let enough : length (extra ++ all_bytes all) < size = omega (
          arith,
          length-append header (table ++ (extra ++ all_bytes all)),
          length-append table (extra ++ all_bytes all),
        ) in
        let (b, bs, c, back, backs, run) =
          body_reads io classes (keys s.chunk_map_dict) t first w rest ws extra size size
            (28 + length table) described hw hs r starts stream enough enough in
        (
          record { chunk_table = t; pages = b ∷ bs },
          rw eb (
              file_reads io classes header table (extra ++ all_bytes all) (length table - n) t
                (b ∷ bs) c (length-write_header io (length table - n) header hh) hh d run),
          record {
            maps = keys s.chunk_map_dict;
            refs = all_references all;
            indices = all_keys all;
            described = described;
            upper = λ up.
                subst (λ (q : Pages). All (IsUpper io classes) (keys q.chunk_map_dict)) (sym e)
                  (All-add_pages (IsUpper io classes) s₀ all tt (
                    All-Forall₂ {P = AreUpper io classes}
                      {Q = λ w. All (IsUpper io classes) (keys (with_index w))}
                      (λ page w h ups. ups w h) (cons hw hs) up));
            first_page = b;
            rest_pages = bs;
            pages = refl;
            first_reads = back;
            rest_read = backs;
          },
        )

    -- For a file of at least one page, where every page can be read (`CanRead`: class names as
    -- `get_nucc_type_from_str` makes them, each class reads what it writes, no text has a zero, no chunk is the
    -- NuccChunkIndex) and the dictionary of the first page begins with the null chunk: the bytes that
    -- `write_xfbin` returns are read without an error, the table describes the chunks, references and indices,
    -- and every page reads back with its chunks, data, indices and references, the first with the extra null
    -- chunk in front.
    pub read_br_xfbin-write_xfbin :
        (first : Page P) (rest : List (Page P)) (file : Bytes)
        → All (CanRead io classes) (first ∷ rest)
        → StartsNull first
        → write_xfbin io classes (first ∷ rest) ≡ ok file
        → (x : BrXfbin P) × (read_br_xfbin io classes file ≡ ok x)
          × FileRead io classes first rest x
    unfolding write_xfbin
    read_br_xfbin-write_xfbin first rest file r starts h =
        let Q =
          (x : BrXfbin P) × (read_br_xfbin io classes file ≡ ok x)
          × FileRead io classes first rest x in
        >>=-ok_elim Q (start_pages io classes) _ h λ s₀ h₀ k₀.
          >>=-ok_elim Q (write_pages io classes s₀ (first ∷ rest)) _ k₀ λ s h₁ k₁.
            >>=-ok_elim Q (write_table io s.chunk_map_dict s.chunk_references s.chunk_map_indices) _
              k₁
              λ table h₂ k₂.
                >>=-ok_elim Q (write_header io (length table.0 - table.1)) _ k₂ λ header h₃ k₃.
                  let (extra, e, stream) = start_pages-Stream io classes s₀ h₀ in
                  let (ws, hs, es) = write_pages-add_pages io classes s₀ s (first ∷ rest) h₁ in
                  subst
                    (λ bs.
                      (x : BrXfbin P) × (read_br_xfbin io classes bs ≡ ok x)
                      × FileRead io classes first rest x)
                    (ok_injective k₃)
                    (state_reads first rest ws extra header s table
                      (subst (λ q. s ≡ add_pages q ws) e es) hs r starts stream h₂ h₃)
