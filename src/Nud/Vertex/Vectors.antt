-- ===== src/Nud/Vertex/Vectors.antt =====
-- Lists of floats, and of floats that fit 16 bits.
use xfbin_lib.Base.{ℕ, ◌≡◌, true, List, length, All, All-imp, Option, none, some}
use xfbin_lib.Binary.{BinaryReader, Decodes}
use xfbin_lib.Binary.Sequence.{write_each, read_n, Decodes-length, Decodes-count}

-- The attribute is there, and `P` holds of it.
abbrev pub Has : {A : Type 0} → (A → Type 0) → Option A → Type 0
Has P none = ⊥
Has P (some x) = P x

module _ {Float : Type 0} (io : BinaryReader Float) where
  open io use {
    write_uint8, write_uint16, write_uint32, write_float, write_half_float, read_uint8, read_uint16,
    read_uint32, read_float, read_half_float, is_half, uint8_reads, uint16_reads, uint32_reads,
    float_reads, half_float_reads,
  }

  abbrev pub AreHalves : ℕ → List Float → Type 0
  AreHalves n xs = (length xs ≡ n) × All (λ x. is_half x ≡ true) xs

  abbrev pub IsOneHalf : Float → Type 0
  IsOneHalf x = is_half x ≡ true

  pub floats_read :
      (n : ℕ) (xs : List Float)
      → length xs ≡ n
      → Decodes (write_each write_float xs) (read_n n read_float) xs
  floats_read n xs e = Decodes-count write_float read_float n xs float_reads e

  pub halves_read :
      (n : ℕ) (xs : List Float)
      → AreHalves n xs
      → Decodes (write_each write_half_float xs) (read_n n read_half_float) xs
  halves_read n xs (e, hs) =
      Decodes-length write_half_float read_half_float n xs (All-imp _ _ xs half_float_reads hs) e
