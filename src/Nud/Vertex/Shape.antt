-- ===== src/Nud/Vertex/Shape.antt =====
-- The normals and tangents of a vertex read back as they were written.
use xfbin_lib.Base.{
  ℕ, ◌≡◌, refl, List, [], ◌∷◌, ◌++◌, length, length-append, take, All-append, All-imp,
  every_element, Option, none, some, arith,
}
use xfbin_lib.Binary.{◌<+>◌, BinaryReader, Decodes}
use xfbin_lib.Binary.Rules.{Decodes-bind, Decodes-bind_parts, Decodes-map}
use xfbin_lib.Binary.Sequence.{write_each, read_n, Decodes-last}
use xfbin_lib.Nud.Vertex.{
  NudVertexType, no_normals, normals_float, unknown, normals_tan_bi_tan_float, normals_half_float,
  normals_tan_bi_tan_half_float, Normals, write_some, ones, or_zeros, write_normals, read_normals,
}
use xfbin_lib.Nud.Vertex.Vectors.{Has, AreHalves, IsOneHalf, floats_read, halves_read}

module _ {Float : Type 0} (io : BinaryReader Float) (one zero_float : Float) (from_byte : ℕ → Float)
    (to_byte : Float → Float) where
  open io use {
    write_uint8, write_uint16, write_uint32, write_float, write_half_float, read_uint8, read_uint16,
    read_uint32, read_float, read_half_float, is_half, uint8_reads, uint16_reads, uint32_reads,
    float_reads, half_float_reads,
  }

  -- What the vertex type asks of the vectors.
  abbrev pub NormalsFit : NudVertexType → Normals Float → Type 0
  NormalsFit no_normals v = Unit {0}
  NormalsFit normals_float v = Has (λ xs. length xs ≡ 3) v.normals
  NormalsFit unknown v = Has (λ xs. length xs ≡ 3) v.normals
  NormalsFit normals_tan_bi_tan_float v =
      (length (or_zeros zero_float (λ xs. xs) v.normals) ≡ 3)
      × (length (or_zeros zero_float (take 3) v.bi_tangents) ≡ 3)
      × (length (or_zeros zero_float (take 3) v.tangents) ≡ 3)
  NormalsFit normals_half_float v = Has (AreHalves io 3) v.normals × IsOneHalf io one
  NormalsFit normals_tan_bi_tan_half_float v =
      Has (AreHalves io 3) v.normals
      × Has (λ xs. AreHalves io 3 (take 3 xs)) v.bi_tangents
      × Has (λ xs. AreHalves io 3 (take 3 xs)) v.tangents
      × IsOneHalf io one
      × IsOneHalf io zero_float

  -- `x[:3]` and the zero that is written behind it.
  abbrev pub with_zero : Option (List Float) → Option (List Float)
  with_zero none = none
  with_zero (some xs) = some (take 3 xs ++ (zero_float ∷ []))

  -- What is read of them.
  abbrev pub normals_read : NudVertexType → Normals Float → Normals Float
  normals_read no_normals v = record { normals = none; bi_tangents = none; tangents = none }
  normals_read normals_float v = record { normals = v.normals; bi_tangents = none; tangents = none }
  normals_read unknown v = record { normals = v.normals; bi_tangents = none; tangents = none }
  normals_read normals_tan_bi_tan_float v = record {
    normals = some (or_zeros zero_float (λ xs. xs) v.normals);
    bi_tangents = some (or_zeros zero_float (take 3) v.bi_tangents ++ (zero_float ∷ []));
    tangents = some (or_zeros zero_float (take 3) v.tangents ++ (zero_float ∷ []));
  }
  normals_read normals_half_float v = record {
    normals = v.normals;
    bi_tangents = none;
    tangents = none;
  }
  normals_read normals_tan_bi_tan_half_float v = record {
    normals = v.normals;
    bi_tangents = with_zero v.bi_tangents;
    tangents = with_zero v.tangents;
  }

  ones_read :
      Decodes
        (write_each write_float (one ∷ one ∷ one ∷ []))
        (read_n 3 read_float)
        (one ∷ one ∷ one ∷ [])
  ones_read = floats_read io 3 (one ∷ one ∷ one ∷ []) refl

  -- Three floats and a zero behind them are read as four.
  four_floats_read :
      (xs : List Float)
      → length xs ≡ 3
      → Decodes
          (write_each write_float xs <+> write_float zero_float)
          (read_n 4 read_float)
          (xs ++ (zero_float ∷ []))
  four_floats_read xs e =
      Decodes-last write_float read_float 4 xs zero_float (every_element float_reads _)
        (omega (arith, e, length-append xs (zero_float ∷ [])))

  four_halves_read :
      (xs : List Float)
      → AreHalves io 3 xs
      → IsOneHalf io zero_float
      → Decodes
          (write_each write_half_float xs <+> write_half_float zero_float)
          (read_n 4 read_half_float)
          (xs ++ (zero_float ∷ []))
  four_halves_read xs (e, hs) z =
      Decodes-last write_half_float read_half_float 4 xs zero_float
        (All-imp _ _ (xs ++ (zero_float ∷ [])) half_float_reads
          (All-append _ xs (zero_float ∷ []) hs (z, tt)))
        (omega (arith, e, length-append xs (zero_float ∷ [])))

  -- The vectors that may be None, one by one.
  float_normals_read :
      (n : Option (List Float))
      → Has (λ xs. length xs ≡ 3) n
      → Decodes
          (write_float one <+> write_some (write_each write_float) n <+> write_float one)
          (read_normals io one zero_float from_byte to_byte normals_float)
          (record { normals = n; bi_tangents = none; tangents = none })
  unfolding read_normals
  float_normals_read none h = absurd h
  float_normals_read (some xs) h =
      Decodes-bind _ one (float_reads _)
        (Decodes-bind _ xs (floats_read io 3 xs h) (Decodes-map _ one (float_reads _)))

  unknown_normals_read :
      (n : Option (List Float))
      → Has (λ xs. length xs ≡ 3) n
      → Decodes
          (write_some (write_each write_float) n
            <+> write_float one
            <+> ones io one zero_float from_byte to_byte
            <+> ones io one zero_float from_byte to_byte
            <+> ones io one zero_float from_byte to_byte)
          (read_normals io one zero_float from_byte to_byte unknown)
          (record { normals = n; bi_tangents = none; tangents = none })
  unfolding read_normals
  unknown_normals_read none h = absurd h
  unknown_normals_read (some xs) h = Decodes-bind _ xs (floats_read io 3 xs h) (
      Decodes-bind _ one (float_reads _)
        (Decodes-bind _ _ ones_read (Decodes-bind _ _ ones_read (Decodes-map _ _ ones_read))))

  half_normals_read :
      (n : Option (List Float))
      → Has (AreHalves io 3) n
      → IsOneHalf io one
      → Decodes
          (write_some (write_each write_half_float) n <+> write_half_float one)
          (read_normals io one zero_float from_byte to_byte normals_half_float)
          (record { normals = n; bi_tangents = none; tangents = none })
  unfolding read_normals
  half_normals_read none h o = absurd h
  half_normals_read (some xs) h o =
      Decodes-bind _ xs (halves_read io 3 xs h) (Decodes-map _ one (half_float_reads one o))

  tangent_floats_read :
      (n b t : List Float)
      → length n ≡ 3
      → length b ≡ 3
      → length t ≡ 3
      → Decodes
          (write_float one
            <+> write_each write_float n
            <+> write_float one
            <+> write_each write_float b
            <+> write_float zero_float
            <+> write_each write_float t
            <+> write_float zero_float)
          (read_normals io one zero_float from_byte to_byte normals_tan_bi_tan_float)
          (record {
            normals = some n;
            bi_tangents = some (b ++ (zero_float ∷ []));
            tangents = some (t ++ (zero_float ∷ []));
          })
  unfolding read_normals
  tangent_floats_read n b t hn hb ht = Decodes-bind _ one (float_reads _) (
      Decodes-bind _ n (floats_read io 3 n hn) (
        Decodes-bind _ one (float_reads _) (
          Decodes-bind_parts (write_each write_float b) (write_float zero_float) _ _
            (four_floats_read b hb) (Decodes-map _ _ (four_floats_read t ht)))))

  tangent_halves_read :
      (n b t : Option (List Float))
      → Has (AreHalves io 3) n
      → Has (λ xs. AreHalves io 3 (take 3 xs)) b
      → Has (λ xs. AreHalves io 3 (take 3 xs)) t
      → IsOneHalf io one
      → IsOneHalf io zero_float
      → Decodes
          (write_some (write_each write_half_float) n
            <+> write_half_float one
            <+> write_some (λ xs. write_each write_half_float (take 3 xs)) b
            <+> write_half_float zero_float
            <+> write_some (λ xs. write_each write_half_float (take 3 xs)) t
            <+> write_half_float zero_float)
          (read_normals io one zero_float from_byte to_byte normals_tan_bi_tan_half_float)
          (record { normals = n; bi_tangents = with_zero b; tangents = with_zero t })
  unfolding read_normals
  tangent_halves_read none b t hn hb ht o z = absurd hn
  tangent_halves_read (some n) none t hn hb ht o z = absurd hb
  tangent_halves_read (some n) (some b) none hn hb ht o z = absurd ht
  tangent_halves_read (some n) (some b) (some t) hn hb ht o z =
      Decodes-bind _ n (halves_read io 3 n hn) (
        Decodes-bind _ one (half_float_reads one o) (
          Decodes-bind_parts (write_each write_half_float (take 3 b)) (write_half_float zero_float)
            _ _ (four_halves_read (take 3 b) hb z)
            (Decodes-map _ _ (four_halves_read (take 3 t) ht z))))

  pub read_normals-write_normals :
      (t : NudVertexType) (v : Normals Float)
      → NormalsFit t v
      → Decodes
          (write_normals io one zero_float from_byte to_byte t v)
          (read_normals io one zero_float from_byte to_byte t)
          (normals_read t v)
  unfolding write_normals read_normals
  read_normals-write_normals no_normals v h = Decodes-map _ one (float_reads _)
  read_normals-write_normals normals_float v h = float_normals_read v.normals h
  read_normals-write_normals unknown v h = unknown_normals_read v.normals h
  read_normals-write_normals normals_tan_bi_tan_float v (hn, hb, ht) =
      tangent_floats_read (or_zeros zero_float (λ xs. xs) v.normals)
        (or_zeros zero_float (take 3) v.bi_tangents) (or_zeros zero_float (take 3) v.tangents) hn hb
        ht
  read_normals-write_normals normals_half_float v (hn, o) = half_normals_read v.normals hn o
  read_normals-write_normals normals_tan_bi_tan_half_float v (hn, hb, ht, o, z) =
      tangent_halves_read v.normals v.bi_tangents v.tangents hn hb ht o z
