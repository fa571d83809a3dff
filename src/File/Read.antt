-- ===== src/File/Read.antt =====
-- BrXfbin.__br_read__: the header, the table, and the pages up to the end of the file.
use xfbin_lib.Base.{
  ℕ, zero, suc, ◌+◌, Bool, true, false, List, [], ◌∷◌, ◌++◌, Result, ok, raise, stuck, length,
}
use xfbin_lib.Base
use xfbin_lib.Binary.{Bytes, Reader, ◌>>=◌, pure, fail, open_buffer, BinaryReader}
use xfbin_lib.Table.Types.{BrChunkTable}
use xfbin_lib.Table.Read.{read_header, read_table}
use xfbin_lib.Page.Types.{BrPage, ChunkClasses}
use xfbin_lib.Page.Read.{read_page_loop}

pub record BrXfbin (P : Type 0) : Type 0 where
  pub chunk_table : BrChunkTable
  pub pages : List (BrPage P)

module _ {Float : Type 0} (io : BinaryReader Float) {P : Type 0} (classes : ChunkClasses P) where
  -- `while not br.eof()`: one page a round, from the page and reference index that the pages before
  -- it leave. Every round takes bytes, so the number of bytes in the file is fuel enough.
  unfoldable pub read_pages : BrChunkTable → ℕ → ℕ → ℕ → ℕ → Reader (List (BrPage P))
  read_pages table size page_start reference_start zero c = fail stuck c
  read_pages table size page_start reference_start (suc fuel) c = elim (io.eof c) [
    | true ↦ pure [] c
    | false ↦
        (do
          page ← read_page_loop io classes table page_start reference_start size []
          pages ←
              read_pages table size (page_start + page.page_size)
                (reference_start + page.reference_size) fuel
          pure (page ∷ pages))
          c
  ]

  unfoldable pub read_br_xfbin : Bytes → Result (BrXfbin P)
  unfolding read_pages
  read_br_xfbin file =
      Base.◌>>=◌
        ((do
          _ ← read_header io
          table ← read_table io
          pages ← read_pages table (suc (length file)) 0 0 (suc (length file))
          pure (record { chunk_table = table; pages = pages }))
          (open_buffer file))
        (λ r. ok r.0)
