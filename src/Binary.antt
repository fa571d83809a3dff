-- ===== src/Binary.antt =====
-- What the program uses of PyBinaryReader (xfbin/util/binary_reader, a git submodule): an interface.
-- A reader is a cursor: its position and the bytes from there to the end of its buffer. A writer
-- always stands at the end of its buffer, so a write is the bytes that it appends, or an exception.
pub mod Rules
pub mod BigEndian
pub mod Sequence
use xfbin_lib.Base.{
  ℕ, zero, suc, ◌+◌, ◌-◌, ◌%◌, ◌<◌, ◌^◌, ◌≡◌, ◌≢◌, Bool, true, false, List, [], ◌∷◌, ◌++◌, Result,
  ok, raise, length, All,
}
use xfbin_lib.Base.Int.{ℤ, pos}
use xfbin_lib.Base

-- The code points of a Python `str`.
abbrev pub Text : Type 0
Text = List ℕ

abbrev pub Bytes : Type 0
Bytes = List ℕ

pub record Cursor : Type 0 where
  pub pos : ℕ
  pub rest : Bytes

-- `BinaryReader(buffer)`: a reader at the start of a buffer.
abbrev pub open_buffer : Bytes → Cursor
open_buffer bs = record { pos = 0; rest = bs }

abbrev pub Reader {ℓ} : Type ℓ → Type ℓ
Reader A = Cursor → Result (A × Cursor)

infixl 5 ◌>>=◌ ◌>>◌
unfoldable pub ◌>>=◌ {ℓ κ} : {A : Type ℓ} {B : Type κ} → Reader A → (A → Reader B) → Reader B
◌>>=◌ m f c = Base.◌>>=◌ (m c) (λ r. f r.0 r.1)

abbrev pub ◌>>◌ {ℓ} : {B : Type ℓ} → Reader (Unit {0}) → Reader B → Reader B
m >> k = m >>= λ _. k

unfoldable pub pure {ℓ} : {A : Type ℓ} → A → Reader A
pure a c = ok (a, c)

unfoldable pub fail {ℓ} : {A : Type ℓ} → Base.Error → Reader A
fail e c = raise e

-- A computation without reads.
unfoldable pub lift {ℓ} : {A : Type ℓ} → Result A → Reader A
lift r c = Base.◌>>=◌ r (λ a. ok (a, c))

-- One write after another.
infixr 6 ◌<+>◌
abbrev pub ◌<+>◌ : Result Bytes → Result Bytes → Result Bytes
w <+> v = Base.◌>>=◌ w (λ a. Base.◌>>=◌ v (λ b. ok (a ++ b)))

-- Where `w` wrote from position `p` on, `m` reads `a` and stops behind the last byte of `w`.
pub record DecodesAt {ℓ} {A : Type ℓ} (p : ℕ) (w : Result Bytes) (m : Reader A) (a : A)
    : Type ℓ where
  pub run :
      (bs rest : Bytes)
      → w ≡ ok bs
      → m (record { pos = p; rest = bs ++ rest })
        ≡ ok (a, record { pos = p + length bs; rest = rest })

-- The same at every position.
pub record Decodes {ℓ} {A : Type ℓ} (w : Result Bytes) (m : Reader A) (a : A) : Type ℓ where
  pub at_pos : (p : ℕ) → DecodesAt p w m a

-- No character is the terminator that `write_str(s, True)` puts behind the text.
abbrev pub IsText : Text → Type 0
IsText = All (λ c. c ≢ 0)

abbrev pub IsAscii : Text → Type 0
IsAscii = All (λ c. c < 128)

-- `align(n)` and `align_pos(n)` pass over this many bytes at size or position `s`.
abbrev pub pad_size : ℕ → ℕ → ℕ
pad_size n s = (n - s % n) % n

-- The operations that the program calls, in big-endian mode, and what it relies on. `Float` is the
-- type of the numbers that a 32-bit float can hold.
pub record BinaryReader (Float : Type 0) : Type 0 where
  pub write_uint8 : ℕ → Result Bytes
  pub write_uint16 : ℕ → Result Bytes
  pub write_uint32 : ℕ → Result Bytes
  pub write_uint64 : ℕ → Result Bytes
  pub write_int16 : ℤ → Result Bytes
  pub write_int32 : ℤ → Result Bytes
  pub write_float : Float → Result Bytes
  pub write_half_float : Float → Result Bytes
  -- `write_str(s)` and `write_str(s, True)`
  pub write_chars : Text → Result Bytes
  pub write_str : Text → Result Bytes
  -- the bytes that `align(n)` appends to a buffer of `s` bytes
  pub padding : ℕ → ℕ → Bytes
  pub read_uint8 : Reader ℕ
  pub read_uint16 : Reader ℕ
  pub read_uint32 : Reader ℕ
  pub read_int16 : Reader ℤ
  pub read_int32 : Reader ℤ
  pub read_float : Reader Float
  pub read_half_float : Reader Float
  -- whether a number is one of those that a 16-bit float can hold
  pub is_half : Float → Bool
  -- `read_uint32(-1 - n)`, a negative count
  pub read_uint32_negative : ℕ → Reader (List ℕ)
  -- `read_str(n)` and `read_str()`
  pub read_chars : ℕ → Reader Text
  pub read_str : Reader Text
  pub read_bytes : ℕ → Reader Bytes
  -- `seek(n, Whence.CUR)`
  pub skip : ℕ → Reader (Unit {0})
  pub align_pos : ℕ → Reader (Unit {0})
  pub eof : Cursor → Bool
  -- A value reads back as it was written, where the write did not raise.
  pub uint8_reads : (n : ℕ) → Decodes (write_uint8 n) read_uint8 n
  pub uint16_reads : (n : ℕ) → Decodes (write_uint16 n) read_uint16 n
  pub uint32_reads : (n : ℕ) → Decodes (write_uint32 n) read_uint32 n
  pub int16_reads : (n : ℤ) → Decodes (write_int16 n) read_int16 n
  pub int32_reads : (n : ℤ) → Decodes (write_int32 n) read_int32 n
  pub float_reads : (x : Float) → Decodes (write_float x) read_float x
  pub half_float_reads :
      (x : Float) → is_half x ≡ true → Decodes (write_half_float x) read_half_float x
  -- The sign bit of a small number is not set.
  pub uint16_reads_signed : (n : ℕ) → n < 0x8000 → Decodes (write_uint16 n) read_int16 (pos n)
  pub str_reads : (s : Text) → IsText s → Decodes (write_str s) read_str s
  pub chars_read :
      (s : Text) → IsText s → IsAscii s → Decodes (write_chars s) (read_chars (length s)) s
  -- Sizes.
  pub uint32_size : (n : ℕ) (bs : Bytes) → write_uint32 n ≡ ok bs → length bs ≡ 4
  pub uint16_size : (n : ℕ) (bs : Bytes) → write_uint16 n ≡ ok bs → length bs ≡ 2
  pub int16_size : (n : ℤ) (bs : Bytes) → write_int16 n ≡ ok bs → length bs ≡ 2
  pub uint8_size : (n : ℕ) (bs : Bytes) → write_uint8 n ≡ ok bs → length bs ≡ 1
  pub uint64_size : (n : ℕ) (bs : Bytes) → write_uint64 n ≡ ok bs → length bs ≡ 8
  pub chars_size :
      (s : Text) (bs : Bytes) → IsAscii s → write_chars s ≡ ok bs → length bs ≡ length s
  pub padding_size : (n s : ℕ) → length (padding n s) ≡ pad_size n s
  -- Raw bytes, moves and the end.
  pub bytes_read : (bs : Bytes) → Decodes (ok bs) (read_bytes (length bs)) bs
  pub skips : (bs : Bytes) → Decodes (ok bs) (skip (length bs)) tt
  pub aligns :
      (n p : ℕ) (bs : Bytes) → length bs ≡ pad_size n p → DecodesAt p (ok bs) (align_pos n) tt
  pub eof_at_end : (p : ℕ) → eof (record { pos = p; rest = [] }) ≡ true
  pub not_eof : (p b : ℕ) (bs : Bytes) → eof (record { pos = p; rest = b ∷ bs }) ≡ false
