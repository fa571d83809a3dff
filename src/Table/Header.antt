-- ===== src/Table/Header.antt =====
-- BrNuccHeader reads back what it wrote, and rejects every other magic.
use xfbin_lib.Base.{ℕ, ◌+◌, ◌≡◌, refl, ◌++◌, ok, length, arith}
use xfbin_lib.Binary.{Bytes, pure, BinaryReader, Decodes}
use xfbin_lib.Binary.Rules.{
  Decodes-bind, Decodes-pure, Decodes-then, Decodes-check, HasSize-<+>, HasSize-nil,
}
use xfbin_lib.Chunk.{codes, text_eq}
use xfbin_lib.Table.Write.{write_header}
use xfbin_lib.Table.Read.{check_magic, read_header}
use mathlib.Core.Path.{subst}

module _ {Float : Type 0} (io : BinaryReader Float) where
  open io use {
    chars_read, uint32_reads, uint16_reads, uint64_size, uint32_size, uint16_size, chars_size,
    skips, write_uint64, write_uint32, write_uint16, write_chars, skip,
  }

  skip_reads : (n : ℕ) → Decodes (write_uint64 n) (skip 8) tt
  skip_reads n = record {
    at_pos = λ p. record {
      run = λ bs rest h.
          subst
            (λ k.
              skip k (record { pos = p; rest = bs ++ rest })
              ≡ ok (tt, record { pos = p + length bs; rest = rest }))
            (uint64_size n bs h) (((skips bs).at_pos p).run bs rest refl);
    };
  }

  -- The header that is written for a table size reads back, at every position, as that size.
  pub read_header-write_header : (n : ℕ) → Decodes (write_header io n) (read_header io) n
  unfolding write_header read_header text_eq pure
  read_header-write_header n =
      Decodes-bind _ (codes "NUCC") (chars_read _ (omega arith) (omega arith)) (
        Decodes-check (check_magic io (codes "NUCC")) (λ c. refl)
          (Decodes-bind _ _ (uint32_reads _) (
            Decodes-then (skip_reads 0) (
              Decodes-bind _ n (uint32_reads n) (
                Decodes-bind _ _ (uint32_reads _) (
                  Decodes-bind _ _ (uint16_reads _)
                    (Decodes-bind _ _ (uint16_reads _) (Decodes-pure n))))))))

  -- A header that is written takes 28 bytes, whatever the table size.
  pub length-write_header : (n : ℕ) (bs : Bytes) → write_header io n ≡ ok bs → length bs ≡ 28
  unfolding write_header
  length-write_header n bs h =
      HasSize-<+> _ _ 4 24 (λ xs e. chars_size (codes "NUCC") xs (omega arith) e)
        (HasSize-<+> _ _ 4 20 (uint32_size _) (
          HasSize-<+> _ _ 8 12 (uint64_size _) (
            HasSize-<+> _ _ 4 8 (uint32_size _) (
              HasSize-<+> _ _ 4 4 (uint32_size _) (
                HasSize-<+> _ _ 2 2 (uint16_size _)
                  (HasSize-<+> _ _ 2 0 (uint16_size _) HasSize-nil))))))
        bs h
