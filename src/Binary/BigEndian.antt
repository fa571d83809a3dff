-- ===== src/Binary/BigEndian.antt =====
-- A concrete reader and writer of big-endian bytes, which shows that the interface can be met. A
-- float is its bit pattern, and a text is stored with one byte for a character.
use xfbin_lib.Base.{
  ℕ, zero, suc, ◌+◌, ◌-◌, ◌*◌, ◌/◌, ◌%◌, ◌<◌, ◌≡◌, refl, List, Bool, true, false, [], ◌∷◌, ◌++◌,
  Result, ok, raise, value_error, read_error, length, length-append, arith, ltb, if◌then◌else◌,
  take, drop, take-append, drop-append,
}
use xfbin_lib.Base.Int.{ℤ, pos, negsuc}
use xfbin_lib.Binary.{
  Bytes, Text, Cursor, Reader, BinaryReader, DecodesAt, Decodes, IsText, IsAscii, pad_size,
}

write_8 : ℕ → Result Bytes
write_8 n = if ltb n 0x100 then ok (n ∷ []) else raise value_error

write_16 : ℕ → Result Bytes
write_16 n = if ltb n 0x1_0000 then ok (n / 0x100 ∷ n % 0x100 ∷ []) else raise value_error

write_32 : ℕ → Result Bytes
write_32 n =
    if ltb n 0x1_0000_0000
    then ok (n / 0x100_0000 ∷ n / 0x1_0000 % 0x100 ∷ n / 0x100 % 0x100 ∷ n % 0x100 ∷ [])
    else raise value_error

write_64 : ℕ → Result Bytes
write_64 n =
    if ltb n 0x1_0000_0000
    then ok
        (0 ∷ 0 ∷ 0 ∷ 0 ∷ n / 0x100_0000 ∷ n / 0x1_0000 % 0x100 ∷ n / 0x100 % 0x100 ∷ n % 0x100 ∷ [])
    else raise value_error

-- A signed number in two's complement; `half` is 2 ^ (w - 1).
write_signed : ℕ → (ℕ → Result Bytes) → ℤ → Result Bytes
write_signed half write (pos n) = if ltb n half then write n else raise value_error
write_signed half write (negsuc n) =
    if ltb n half then write (half + (half - 1 - n)) else raise value_error

to_signed : ℕ → ℕ → ℤ
to_signed half n = if ltb n half then pos n else negsuc (half - 1 - (n - half))

-- `k` bytes become the number that `f` makes of them.
moved : Cursor → ℕ → Bytes → Cursor
moved c k bs = record { pos = c.pos + k; rest = bs }

number_8 : Cursor → Bytes → Result (ℕ × Cursor)
unfolding moved
number_8 c (a ∷ bs) = ok (a, moved c 1 bs)
number_8 c _ = raise read_error

number_16 : Cursor → Bytes → Result (ℕ × Cursor)
unfolding moved
number_16 c (a ∷ b ∷ bs) = ok (a * 0x100 + b, moved c 2 bs)
number_16 c _ = raise read_error

number_32 : Cursor → Bytes → Result (ℕ × Cursor)
unfolding moved
number_32 c (a ∷ b ∷ x ∷ y ∷ bs) = ok (a * 0x100_0000 + b * 0x1_0000 + x * 0x100 + y, moved c 4 bs)
number_32 c _ = raise read_error

read_8 : Reader ℕ
unfolding number_8
read_8 c = number_8 c c.rest

read_16 : Reader ℕ
unfolding number_16
read_16 c = number_16 c c.rest

read_32 : Reader ℕ
unfolding number_32
read_32 c = number_32 c c.rest

read_signed : ℕ → Reader ℕ → Reader ℤ
unfolding to_signed
read_signed half read c = elim (read c) [
  | ok (n, c') ↦ ok (to_signed half n, c')
  | raise e ↦ raise e
]

write_8_reads : (n : ℕ) → Decodes (write_8 n) read_8 n
unfolding write_8 read_8
write_8_reads n = record { at_pos = λ p. record { run = λ bs rest h. ground arith } }

write_16_reads : (n : ℕ) → Decodes (write_16 n) read_16 n
unfolding write_16 read_16
write_16_reads n = record { at_pos = λ p. record { run = λ bs rest h. ground arith } }

write_32_reads : (n : ℕ) → Decodes (write_32 n) read_32 n
unfolding write_32 read_32
write_32_reads n = record { at_pos = λ p. record { run = λ bs rest h. ground arith } }

-- Two's complement reads back, for any half range and any unsigned encoding.
write_signed_reads :
    (half : ℕ) (write : ℕ → Result Bytes) (read : Reader ℕ)
    → ((n : ℕ) → Decodes (write n) read n)
    → (n : ℤ) → Decodes (write_signed half write n) (read_signed half read) n
unfolding write_signed read_signed
write_signed_reads half write read h (pos n) = record {
  at_pos = λ p. record { run = λ bs rest e. ground (arith, ((h n).at_pos p).run bs rest) };
}
write_signed_reads half write read h (negsuc n) = record {
  at_pos = λ p. record {
    run = λ bs rest e. ground (arith, ((h (half + (half - 1 - n))).at_pos p).run bs rest);
  };
}

write_text : Text → Result Bytes
write_text s = ok (s ++ (0 ∷ []))

-- The text up to the first zero byte, and the bytes behind it.
split_text : Bytes → Result (Text × Bytes)
split_text [] = raise read_error
split_text (zero ∷ bs) = ok ([], bs)
split_text (suc c ∷ bs) = elim (split_text bs) [
  | ok (s, rest) ↦ ok (suc c ∷ s, rest)
  | raise e ↦ raise e
]

read_text : Reader Text
unfolding split_text moved
read_text c = elim (split_text c.rest) [
  | ok (s, rest) ↦ ok (s, moved c (length s + 1) rest)
  | raise e ↦ raise e
]

split_text-write :
    (s : Text) (rest : Bytes) → IsText s → split_text ((s ++ (0 ∷ [])) ++ rest) ≡ ok (s, rest)
unfolding split_text
split_text-write [] rest h = refl
split_text-write (zero ∷ s) rest (h, hs) = absurd (h refl)
split_text-write (suc c ∷ s) rest (h, hs) = rw (split_text-write s rest hs)

write_text_reads : (s : Text) → IsText s → Decodes (write_text s) read_text s
unfolding write_text read_text
write_text_reads s h = record {
  at_pos = λ p. record {
    run = λ bs rest e. ground (arith, split_text-write s rest h, length-append s (0 ∷ []));
  };
}

read_block : ℕ → Reader Bytes
unfolding moved
read_block n c =
    if ltb (length c.rest) n
    then raise read_error
    else ok (take n c.rest, moved c n (drop n c.rest))

read_block_reads : (bs : Bytes) → Decodes (ok bs) (read_block (length bs)) bs
unfolding read_block
read_block_reads bs = record {
  at_pos = λ p. record {
    run = λ xs rest e.
        ground (arith, take-append bs rest, drop-append bs rest, length-append bs rest);
  };
}

skip_bytes : ℕ → Reader (Unit {0})
unfolding moved
skip_bytes n c = ok (tt, moved c n (drop n c.rest))

skip_bytes_reads : (bs : Bytes) → Decodes (ok bs) (skip_bytes (length bs)) tt
unfolding skip_bytes
skip_bytes_reads bs = record {
  at_pos = λ p. record { run = λ xs rest e. ground (arith, drop-append bs rest) };
}

zeros : ℕ → Bytes
zeros zero = []
zeros (suc n) = 0 ∷ zeros n

length-zeros : (n : ℕ) → length (zeros n) ≡ n
unfolding zeros
length-zeros zero = refl
length-zeros (suc n) = omega (arith, length-zeros n)

align_bytes : ℕ → Reader (Unit {0})
unfolding skip_bytes
align_bytes n c = skip_bytes (pad_size n c.pos) c

align_bytes_reads :
    (n p : ℕ) (bs : Bytes) → length bs ≡ pad_size n p → DecodesAt p (ok bs) (align_bytes n) tt
unfolding align_bytes
align_bytes_reads n p bs e = record {
  run = λ xs rest h. rw (← e) (((skip_bytes_reads bs).at_pos p).run xs rest h);
}

at_end : Cursor → Bool
at_end c = elim c.rest [ [] ↦ true | b ∷ bs ↦ false ]

write_32_size : (n : ℕ) (bs : Bytes) → write_32 n ≡ ok bs → length bs ≡ 4
unfolding write_32
write_32_size n bs h = ground arith

write_16_size : (n : ℕ) (bs : Bytes) → write_16 n ≡ ok bs → length bs ≡ 2
unfolding write_16
write_16_size n bs h = ground arith

write_64_size : (n : ℕ) (bs : Bytes) → write_64 n ≡ ok bs → length bs ≡ 8
unfolding write_64
write_64_size n bs h = ground arith

write_chars_size :
    (s : Text) (bs : Bytes)
    → IsAscii s
    → ◌≡◌ {A = Result Bytes} (ok s) (ok bs)
    → length bs ≡ length s
write_chars_size s bs a h = ground arith

write_8_size : (n : ℕ) (bs : Bytes) → write_8 n ≡ ok bs → length bs ≡ 1
unfolding write_8
write_8_size n bs h = ground arith

write_signed_size : (n : ℤ) (bs : Bytes) → write_signed 0x8000 write_16 n ≡ ok bs → length bs ≡ 2
unfolding write_signed write_16
write_signed_size (pos n) bs h = ground arith
write_signed_size (negsuc n) bs h = ground arith

write_16_reads_signed :
    (n : ℕ) → n < 0x8000 → Decodes (write_16 n) (read_signed 0x8000 read_16) (pos n)
unfolding write_16 read_16 read_signed
write_16_reads_signed n s = record { at_pos = λ p. record { run = λ bs rest h. ground arith } }

no_list : ℕ → Reader (List ℕ)
no_list n c = raise read_error

unfoldable pub big_endian : BinaryReader ℕ
unfolding write_8 write_16 write_32 write_64 write_signed write_text zeros read_8 read_16 read_32
    read_signed read_text read_block skip_bytes align_bytes at_end write_8_reads write_16_reads
    write_32_reads write_signed_reads write_text_reads split_text-write read_block_reads
    write_32_size write_16_size write_64_size write_chars_size length-zeros skip_bytes_reads
    align_bytes_reads write_8_size write_signed_size write_16_reads_signed no_list
big_endian = record {
  write_uint8 = write_8;
  write_uint16 = write_16;
  write_uint32 = write_32;
  write_uint64 = write_64;
  write_int16 = write_signed 0x8000 write_16;
  write_int32 = write_signed 0x8000_0000 write_32;
  write_float = write_32;
  write_half_float = write_16;
  write_chars = ok;
  write_str = write_text;
  padding = λ n s. zeros (pad_size n s);
  read_uint8 = read_8;
  read_uint16 = read_16;
  read_uint32 = read_32;
  read_int16 = read_signed 0x8000 read_16;
  read_int32 = read_signed 0x8000_0000 read_32;
  read_float = read_32;
  read_half_float = read_16;
  is_half = λ x. true;
  read_uint32_negative = no_list;
  read_chars = read_block;
  read_str = read_text;
  read_bytes = read_block;
  skip = skip_bytes;
  align_pos = align_bytes;
  eof = at_end;
  uint8_reads = write_8_reads;
  uint16_reads = write_16_reads;
  uint32_reads = write_32_reads;
  int16_reads = write_signed_reads 0x8000 write_16 read_16 write_16_reads;
  int32_reads = write_signed_reads 0x8000_0000 write_32 read_32 write_32_reads;
  float_reads = write_32_reads;
  half_float_reads = λ x _. write_16_reads x;
  uint16_reads_signed = write_16_reads_signed;
  str_reads = write_text_reads;
  chars_read = λ s _ _. read_block_reads s;
  uint32_size = write_32_size;
  uint16_size = write_16_size;
  int16_size = write_signed_size;
  uint8_size = write_8_size;
  uint64_size = write_64_size;
  chars_size = write_chars_size;
  padding_size = λ n s. length-zeros (pad_size n s);
  bytes_read = read_block_reads;
  skips = skip_bytes_reads;
  aligns = align_bytes_reads;
  eof_at_end = λ p. refl;
  not_eof = λ p b bs. refl;
}
