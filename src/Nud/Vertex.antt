-- ===== src/Nud/Vertex.antt =====
-- BrNudVertex (xfbin/structure/br/br_nud.py). The vertex and bone types are numbers; their names are those of
-- NudVertexType and NudBoneType.
pub mod Vectors
pub mod Shape
pub mod Skin
pub mod Reads
use xfbin_lib.Base.{
  ℕ, ◌/◌, ◌==◌, leb, if◌then◌else◌, List, [], ◌∷◌, map, take, Option, none, some, Result, ok, raise,
  wrong_type, unsupported_vertex_type, unsupported_bone_type,
}
use xfbin_lib.Binary.{Bytes, Reader, ◌>>=◌, pure, fail, ◌<+>◌, BinaryReader}
use xfbin_lib.Binary.Sequence.{write_each, read_n}
use xfbin_lib.Nud.Types.{BrNudVertex, NudVertex}

pub data NudVertexType : Type 0 where
  no_normals normals_float unknown normals_tan_bi_tan_float : NudVertexType
  normals_half_float normals_tan_bi_tan_half_float : NudVertexType

pub data NudBoneType : Type 0 where
  no_bones float half_float byte : NudBoneType

-- The type that a number is equal to.
abbrev pub vertex_type_of : ℕ → Option NudVertexType
vertex_type_of n =
    if n == 0
    then some no_normals
    else if n == 1
    then some normals_float
    else if n == 2
    then some unknown
    else if n == 3
    then some normals_tan_bi_tan_float
    else if n == 6
    then some normals_half_float
    else if n == 7
    then some normals_tan_bi_tan_half_float
    else none

abbrev pub bone_type_of : ℕ → Option NudBoneType
bone_type_of n =
    if n == 0
    then some no_bones
    else if n == 0x10
    then some float
    else if n == 0x20
    then some half_float
    else if n == 0x40
    then some byte
    else none

-- `normals`, `biTangents` and `tangents`.
pub record Normals (F : Type 0) : Type 0 where
  pub normals : Option (List F)
  pub bi_tangents : Option (List F)
  pub tangents : Option (List F)

-- `color`, `uv`, `boneIds` and `boneWeights`.
pub record Weights (F : Type 0) : Type 0 where
  pub color : Option (List ℕ)
  pub uv : Option (List (List F))
  pub bone_ids : Option (List ℕ)
  pub bone_weights : Option (List F)

-- A vertex, with its uv coordinates as lists.
pub record Vertex (F : Type 0) : Type 0 where
  pub position : List F
  pub shape : Normals F
  pub skin : Weights F

-- Writing an attribute that may be None raises where it is.
abbrev pub write_some : {A : Type 0} → (A → Result Bytes) → Option A → Result Bytes
write_some write none = raise wrong_type
write_some write (some x) = write x

-- `cut(x) if x else [0] * 3`
abbrev pub or_zeros : {F : Type 0} → F → (List F → List F) → Option (List F) → List F
or_zeros zero_float cut none = zero_float ∷ zero_float ∷ zero_float ∷ []
or_zeros zero_float cut (some []) = zero_float ∷ zero_float ∷ zero_float ∷ []
or_zeros zero_float cut (some (x ∷ xs)) = cut (x ∷ xs)

-- `one` and `zero_float` are the floats 1.0 and 0.0; `from_byte` is `float(x) / 255` and `to_byte` the float
-- that `int(x * 255)` is written as.
module _ {Float : Type 0} (io : BinaryReader Float) (one zero_float : Float) (from_byte : ℕ → Float)
    (to_byte : Float → Float) where
  open io use {
    write_uint8, write_uint16, write_uint32, write_float, write_half_float, read_uint8, read_uint16,
    read_uint32, read_float, read_half_float,
  }

  abbrev pub floats : List Float → Result Bytes
  floats xs = write_each write_float xs

  abbrev pub half_floats : List Float → Result Bytes
  half_floats xs = write_each write_half_float xs

  abbrev pub ones : Result Bytes
  ones = floats (one ∷ one ∷ one ∷ [])

  -- The branches on `vertexType` in BrNudVertex.__br_write__.
  unfoldable pub write_normals : NudVertexType → Normals Float → Result Bytes
  write_normals no_normals v = write_float one
  write_normals normals_float v =
      write_float one <+> write_some floats v.normals <+> write_float one
  write_normals unknown v =
      write_some floats v.normals <+> write_float one <+> ones <+> ones <+> ones
  write_normals normals_tan_bi_tan_float v =
      write_float one
      <+> floats (or_zeros zero_float (λ xs. xs) v.normals)
      <+> write_float one
      <+> floats (or_zeros zero_float (take 3) v.bi_tangents)
      <+> write_float zero_float
      <+> floats (or_zeros zero_float (take 3) v.tangents)
      <+> write_float zero_float
  write_normals normals_half_float v = write_some half_floats v.normals <+> write_half_float one
  write_normals normals_tan_bi_tan_half_float v =
      write_some half_floats v.normals
      <+> write_half_float one
      <+> write_some (λ xs. half_floats (take 3 xs)) v.bi_tangents
      <+> write_half_float zero_float
      <+> write_some (λ xs. half_floats (take 3 xs)) v.tangents
      <+> write_half_float zero_float

  -- The branches on `vertexType` in BrNudVertex.__br_read__.
  unfoldable pub read_normals : NudVertexType → Reader (Normals Float)
  read_normals no_normals = do
    w ← read_float
    pure (record { normals = none; bi_tangents = none; tangents = none })
  read_normals normals_float = do
    w ← read_float
    normals ← read_n 3 read_float
    u ← read_float
    pure (record { normals = some normals; bi_tangents = none; tangents = none })
  read_normals unknown = do
    normals ← read_n 3 read_float
    w ← read_float
    a ← read_n 3 read_float
    b ← read_n 3 read_float
    c ← read_n 3 read_float
    pure (record { normals = some normals; bi_tangents = none; tangents = none })
  read_normals normals_tan_bi_tan_float = do
    w ← read_float
    normals ← read_n 3 read_float
    u ← read_float
    bi_tangents ← read_n 4 read_float
    tangents ← read_n 4 read_float
    pure (record {
      normals = some normals;
      bi_tangents = some bi_tangents;
      tangents = some tangents;
    })
  read_normals normals_half_float = do
    normals ← read_n 3 read_half_float
    w ← read_half_float
    pure (record { normals = some normals; bi_tangents = none; tangents = none })
  read_normals normals_tan_bi_tan_half_float = do
    normals ← read_n 3 read_half_float
    w ← read_half_float
    bi_tangents ← read_n 4 read_half_float
    tangents ← read_n 4 read_half_float
    pure (record {
      normals = some normals;
      bi_tangents = some bi_tangents;
      tangents = some tangents;
    })

  -- The branches on `boneType` in BrNudVertex.__br_write__; `uv_type` is 0 where there are no colors.
  unfoldable pub write_weights : NudBoneType → ℕ → Weights Float → Result Bytes
  write_weights no_bones uv_type v =
      (if uv_type == 0 then ok [] else write_some (write_each write_uint8) v.color)
      <+> write_some (write_each half_floats) v.uv
  write_weights float uv_type v =
      write_some (write_each write_uint32) v.bone_ids <+> write_some floats v.bone_weights
  write_weights half_float uv_type v =
      write_some (write_each write_uint16) v.bone_ids <+> write_some half_floats v.bone_weights
  write_weights byte uv_type v =
      write_some (write_each write_uint8) v.bone_ids
      <+> write_some (λ xs. floats (map to_byte xs)) v.bone_weights

  -- `if uvSize >= 18: self.color = br.read_uint8(4)`
  unfoldable pub read_color : ℕ → Reader (Option (List ℕ))
  read_color uv_size =
      if leb 18 uv_size then (read_n 4 read_uint8 >>= λ color. pure (some color)) else pure none

  -- The branches on `boneType` in BrNudVertex.__br_read__.
  unfoldable pub read_weights : NudBoneType → ℕ → Reader (Weights Float)
  unfolding read_color
  read_weights no_bones uv_size = do
    color ← read_color uv_size
    uv ← read_n (uv_size / 16) (read_n 2 read_half_float)
    pure (record { color = color; uv = some uv; bone_ids = none; bone_weights = none })
  read_weights float uv_size = do
    bone_ids ← read_n 4 read_uint32
    bone_weights ← read_n 4 read_float
    pure (record {
      color = none;
      uv = none;
      bone_ids = some bone_ids;
      bone_weights = some bone_weights;
    })
  read_weights half_float uv_size = do
    bone_ids ← read_n 4 read_uint16
    bone_weights ← read_n 4 read_half_float
    pure (record {
      color = none;
      uv = none;
      bone_ids = some bone_ids;
      bone_weights = some bone_weights;
    })
  read_weights byte uv_size = do
    bone_ids ← read_n 4 read_uint8
    weights ← read_n 4 read_uint8
    pure (record {
      color = none;
      uv = none;
      bone_ids = some bone_ids;
      bone_weights = some (map from_byte weights);
    })

  -- A vertex type that is none of the six raises; a bone type that is none of the four writes nothing.
  unfoldable pub write_vertex : ℕ → ℕ → ℕ → Vertex Float → Result Bytes
  unfolding write_normals write_weights
  write_vertex vertex_type bone_type uv_type v =
      floats v.position
      <+> elim (vertex_type_of vertex_type) [
        | none ↦ raise unsupported_vertex_type
        | some t ↦ write_normals t v.shape
      ]
      <+> elim (bone_type_of bone_type) [ none ↦ ok [] | some t ↦ write_weights t uv_type v.skin ]

  unfoldable pub read_vertex : ℕ → ℕ → ℕ → Reader (Vertex Float)
  unfolding read_normals read_weights
  read_vertex vertex_type bone_type uv_size = do
    position ← read_n 3 read_float
    shape ← elim (vertex_type_of vertex_type) [
      | none ↦ fail unsupported_vertex_type
      | some t ↦ read_normals t
    ]
    skin ← elim (bone_type_of bone_type) [
      | none ↦ fail unsupported_bone_type
      | some t ↦ read_weights t uv_size
    ]
    pure (record { position = position; shape = shape; skin = skin })
