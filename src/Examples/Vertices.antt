-- ===== src/Examples/Vertices.antt =====
-- A vertex with tangents and bones, and two faces.
use xfbin_lib.Base.{ℕ, ◌≡◌, refl, List, [], ◌∷◌, none, some, Result, ok, raise}
use xfbin_lib.Base.Int.{ℤ, pos}
use xfbin_lib.Binary.{Bytes, Decodes}
use xfbin_lib.Binary.Sequence.{read_n}
use xfbin_lib.Binary.BigEndian.{big_endian}
use xfbin_lib.Nud.Types.{Face}
use xfbin_lib.Nud.Faces.{add_faces}
use xfbin_lib.Nud.FaceEntries.{face_count, write_faces, add_faces-write_faces}
use xfbin_lib.Nud.Vertex.{
  Vertex, write_vertex, read_vertex, half_float, normals_tan_bi_tan_half_float,
}
use xfbin_lib.Nud.Vertex.Reads.{read_vertex-write_vertex}

abbrev faces : List Face
faces = (pos 0, (pos 1, pos 2)) ∷ (pos 2, (pos 3, pos 0)) ∷ []

abbrev bytes_of : Result Bytes → Bytes
bytes_of (ok bs) = bs
bytes_of (raise e) = []

abbrev face_bytes : Bytes
face_bytes = bytes_of (write_faces big_endian faces)

write_faces_run : write_faces big_endian faces ≡ ok face_bytes
unfolding write_faces big_endian
write_faces_run = refl

add_faces-write_faces_example :
    (entries : List ℤ) × Decodes
      (ok face_bytes)
      (read_n (face_count faces) (big_endian.read_int16))
      entries
    × (add_faces entries 0 ≡ ok faces)
add_faces-write_faces_example =
    add_faces-write_faces big_endian faces face_bytes
      (
        record { ends_apart = refl; starts_apart = refl; goes_on = refl },
        (record { ends_apart = refl; starts_apart = refl; goes_on = refl }, tt),
      )
      write_faces_run

abbrev corner : Vertex ℕ
corner = record {
  position = 1 ∷ 2 ∷ 3 ∷ [];
  shape = record {
    normals = some (4 ∷ 5 ∷ 6 ∷ []);
    bi_tangents = some (7 ∷ 8 ∷ 9 ∷ 10 ∷ []);
    tangents = some (11 ∷ 12 ∷ 13 ∷ 14 ∷ []);
  };
  skin = record {
    color = none;
    uv = none;
    bone_ids = some (1 ∷ 2 ∷ 3 ∷ 4 ∷ []);
    bone_weights = some (5 ∷ 6 ∷ 7 ∷ 8 ∷ []);
  };
}

read_vertex-write_vertex_example :
    Decodes
      (write_vertex big_endian 1 0 (λ n. n) (λ x. x) 7 0x20 0 corner)
      (read_vertex big_endian 1 0 (λ n. n) (λ x. x) 7 0x20 0)
      (record {
        position = 1 ∷ 2 ∷ 3 ∷ [];
        shape = record {
          normals = some (4 ∷ 5 ∷ 6 ∷ []);
          bi_tangents = some (7 ∷ 8 ∷ 9 ∷ 0 ∷ []);
          tangents = some (11 ∷ 12 ∷ 13 ∷ 0 ∷ []);
        };
        skin = corner.skin;
      })
unfolding big_endian
read_vertex-write_vertex_example =
    read_vertex-write_vertex big_endian 1 0 (λ n. n) (λ x. x) 7 0x20 0 0
      normals_tan_bi_tan_half_float half_float corner refl refl refl
      (
        (refl, (refl, (refl, (refl, tt)))),
        (refl, (refl, (refl, (refl, tt)))),
        (refl, (refl, (refl, (refl, tt)))),
        refl,
        refl,
      )
      (refl, (refl, (refl, (refl, (refl, (refl, tt))))))
