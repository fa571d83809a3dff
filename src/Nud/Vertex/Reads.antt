-- ===== src/Nud/Vertex/Reads.antt =====
-- A vertex reads back as it was written, for every vertex type and every bone type but `byte`.
use xfbin_lib.Base.{ℕ, ◌≡◌, length, some}
use xfbin_lib.Binary.{BinaryReader, Decodes}
use xfbin_lib.Binary.Rules.{Decodes-bind, Decodes-map}
use xfbin_lib.Nud.Vertex.{
  NudVertexType, NudBoneType, vertex_type_of, bone_type_of, Vertex, write_vertex, read_vertex,
}
use xfbin_lib.Nud.Vertex.Vectors.{floats_read}
use xfbin_lib.Nud.Vertex.Shape.{NormalsFit, normals_read, read_normals-write_normals}
use xfbin_lib.Nud.Vertex.Skin.{WeightsFit, weights_read, read_weights-write_weights}

module _ {Float : Type 0} (io : BinaryReader Float) (one zero_float : Float) (from_byte : ℕ → Float)
    (to_byte : Float → Float) where
  -- Where the vertex type and the bone type are among those of the format, and not Byte, the vectors have the
  -- sizes that the types ask for, the numbers of half floats fit 16 bits, and a color is there and written
  -- exactly where the size of the uvs says that it is read: the vertex reads back from any position, the
  -- attributes that its types do not store as None, and each tangent as three numbers and a zero.
  pub read_vertex-write_vertex :
      (vertex_type bone_type uv_type uv_size : ℕ) (t : NudVertexType) (b : NudBoneType)
      (v : Vertex Float)
      → vertex_type_of vertex_type ≡ some t
      → bone_type_of bone_type ≡ some b
      → length v.position ≡ 3
      → NormalsFit io one zero_float from_byte to_byte t v.shape
      → WeightsFit io one zero_float from_byte to_byte b uv_type uv_size v.skin
      → Decodes
          (write_vertex io one zero_float from_byte to_byte vertex_type bone_type uv_type v)
          (read_vertex io one zero_float from_byte to_byte vertex_type bone_type uv_size)
          (record {
            position = v.position;
            shape = normals_read io one zero_float from_byte to_byte t v.shape;
            skin = weights_read io one zero_float from_byte to_byte b uv_type v.skin;
          })
  unfolding write_vertex read_vertex
  read_vertex-write_vertex vertex_type bone_type uv_type uv_size t b v et eb p n w =
      rw (et, eb)
        (Decodes-bind _ v.position (floats_read io 3 v.position p) (
          Decodes-bind _ _
            (read_normals-write_normals io one zero_float from_byte to_byte t v.shape n)
            (Decodes-map _ _ (
              read_weights-write_weights io one zero_float from_byte to_byte b uv_type uv_size
                v.skin w))))
