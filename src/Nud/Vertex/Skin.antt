-- ===== src/Nud/Vertex/Skin.antt =====
-- The color, the uvs and the bones of a vertex read back as they were written.
use xfbin_lib.Base.{
  ℕ, ◌/◌, ◌≡◌, ◌==◌, leb, true, false, ◌⊎◌, inl, inr, if◌then◌else◌, List, [], length, All, All-imp,
  Option, none, some, ok,
}
use xfbin_lib.Binary.{◌<+>◌, BinaryReader, Decodes}
use xfbin_lib.Binary.Rules.{Decodes-bind, Decodes-map, Decodes-pure}
use xfbin_lib.Binary.Sequence.{write_each, read_n, Decodes-length, Decodes-count}
use xfbin_lib.Nud.Vertex.{
  NudBoneType, no_bones, float, half_float, byte, Weights, write_some, write_weights, read_weights,
  read_color,
}
use xfbin_lib.Nud.Vertex.Vectors.{Has, AreHalves, floats_read, halves_read}

module _ {Float : Type 0} (io : BinaryReader Float) (one zero_float : Float) (from_byte : ℕ → Float)
    (to_byte : Float → Float) where
  open io use {
    write_uint8, write_uint16, write_uint32, write_float, write_half_float, read_uint8, read_uint16,
    read_uint32, read_float, read_half_float, is_half, uint8_reads, uint16_reads, uint32_reads,
    float_reads, half_float_reads,
  }

  -- The color is written exactly where it is read: the type of the uvs is 0 and their size below 18, or
  -- neither.
  abbrev pub ColorFits : ℕ → ℕ → Option (List ℕ) → Type 0
  ColorFits uv_type uv_size color =
      (((uv_type == 0) ≡ true) × (leb 18 uv_size ≡ false))
      ⊎ (((uv_type == 0) ≡ false) × (leb 18 uv_size ≡ true) × Has (λ xs. length xs ≡ 4) color)

  -- What the bone type asks of the other attributes. What `byte` writes is not what it reads.
  abbrev pub WeightsFit : NudBoneType → ℕ → ℕ → Weights Float → Type 0
  WeightsFit no_bones uv_type uv_size v =
      ColorFits uv_type uv_size v.color
      × Has (λ us. (length us ≡ uv_size / 16) × All (AreHalves io 2) us) v.uv
  WeightsFit float uv_type uv_size v =
      Has (λ xs. length xs ≡ 4) v.bone_ids × Has (λ xs. length xs ≡ 4) v.bone_weights
  WeightsFit half_float uv_type uv_size v =
      Has (λ xs. length xs ≡ 4) v.bone_ids × Has (AreHalves io 4) v.bone_weights
  WeightsFit byte uv_type uv_size v = ⊥

  abbrev pub weights_read : NudBoneType → ℕ → Weights Float → Weights Float
  weights_read no_bones uv_type v = record {
    color = if uv_type == 0 then none else v.color;
    uv = v.uv;
    bone_ids = none;
    bone_weights = none;
  }
  weights_read _ uv_type v = record {
    color = none;
    uv = none;
    bone_ids = v.bone_ids;
    bone_weights = v.bone_weights;
  }

  color_read :
      (uv_type uv_size : ℕ) (color : Option (List ℕ))
      → ColorFits uv_type uv_size color
      → Decodes
          (if uv_type == 0 then ok [] else write_some (write_each write_uint8) color)
          (read_color io one zero_float from_byte to_byte uv_size)
          (if uv_type == 0 then none else color)
  unfolding read_color
  color_read uv_type uv_size color (inl (a, b)) = rw (a, b) (Decodes-pure none)
  color_read uv_type uv_size none (inr (a, b, h)) = absurd h
  color_read uv_type uv_size (some xs) (inr (a, b, h)) =
      rw (a, b) (Decodes-map some xs (Decodes-count write_uint8 read_uint8 4 xs uint8_reads h))

  uvs_read :
      (us : List (List Float))
      → All (AreHalves io 2) us
      → All (λ u. Decodes (write_each write_half_float u) (read_n 2 read_half_float) u) us
  uvs_read us hs = All-imp _ _ us (halves_read io 2) hs

  flat_read :
      (uv_type uv_size : ℕ) (color : Option (List ℕ)) (uv : Option (List (List Float)))
      → ColorFits uv_type uv_size color
      → Has (λ us. (length us ≡ uv_size / 16) × All (AreHalves io 2) us) uv
      → Decodes
          ((if uv_type == 0 then ok [] else write_some (write_each write_uint8) color)
            <+> write_some (write_each (write_each write_half_float)) uv)
          (read_weights io one zero_float from_byte to_byte no_bones uv_size)
          (record {
            color = if uv_type == 0 then none else color;
            uv = uv;
            bone_ids = none;
            bone_weights = none;
          })
  unfolding read_weights
  flat_read uv_type uv_size color none c h = absurd h
  flat_read uv_type uv_size color (some us) c (e, hs) =
      Decodes-bind _ _ (color_read uv_type uv_size color c) (
        Decodes-map _ us (
          Decodes-length (write_each write_half_float) (read_n 2 read_half_float) (uv_size / 16) us
            (uvs_read us hs) e))

  bones_read :
      (ids : Option (List ℕ)) (weights : Option (List Float))
      → Has (λ xs. length xs ≡ 4) ids
      → Has (λ xs. length xs ≡ 4) weights
      → (uv_size : ℕ)
      → Decodes
          (write_some (write_each write_uint32) ids <+> write_some (write_each write_float) weights)
          (read_weights io one zero_float from_byte to_byte float uv_size)
          (record { color = none; uv = none; bone_ids = ids; bone_weights = weights })
  unfolding read_weights
  bones_read none weights hi hw uv_size = absurd hi
  bones_read (some is) none hi hw uv_size = absurd hw
  bones_read (some is) (some ws) hi hw uv_size =
      Decodes-bind _ is (Decodes-count write_uint32 read_uint32 4 is uint32_reads hi)
        (Decodes-map _ ws (floats_read io 4 ws hw))

  half_bones_read :
      (ids : Option (List ℕ)) (weights : Option (List Float))
      → Has (λ xs. length xs ≡ 4) ids
      → Has (AreHalves io 4) weights
      → (uv_size : ℕ)
      → Decodes
          (write_some (write_each write_uint16) ids
            <+> write_some (write_each write_half_float) weights)
          (read_weights io one zero_float from_byte to_byte half_float uv_size)
          (record { color = none; uv = none; bone_ids = ids; bone_weights = weights })
  unfolding read_weights
  half_bones_read none weights hi hw uv_size = absurd hi
  half_bones_read (some is) none hi hw uv_size = absurd hw
  half_bones_read (some is) (some ws) hi hw uv_size =
      Decodes-bind _ is (Decodes-count write_uint16 read_uint16 4 is uint16_reads hi)
        (Decodes-map _ ws (halves_read io 4 ws hw))

  pub read_weights-write_weights :
      (t : NudBoneType) (uv_type uv_size : ℕ) (v : Weights Float)
      → WeightsFit t uv_type uv_size v
      → Decodes
          (write_weights io one zero_float from_byte to_byte t uv_type v)
          (read_weights io one zero_float from_byte to_byte t uv_size)
          (weights_read t uv_type v)
  unfolding write_weights
  read_weights-write_weights no_bones uv_type uv_size v (c, u) =
      flat_read uv_type uv_size v.color v.uv c u
  read_weights-write_weights float uv_type uv_size v (i, w) =
      bones_read v.bone_ids v.bone_weights i w uv_size
  read_weights-write_weights half_float uv_type uv_size v (i, w) =
      half_bones_read v.bone_ids v.bone_weights i w uv_size
  read_weights-write_weights byte uv_type uv_size v h = absurd h
