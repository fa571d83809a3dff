-- ===== src/Examples/Meshes.antt =====
-- A strip of five entries, and a mesh with one vertex.
use xfbin_lib.Base.{ℕ, ◌≡◌, refl, List, [], ◌∷◌, none, some, ok, All, arith}
use xfbin_lib.Base.Int.{ℤ, pos, negsuc}
use xfbin_lib.Nud.Types.{Face, NudVertex, NudMesh, NudMeshGroup, Nud}
use xfbin_lib.Nud.Faces.{add_faces}
use xfbin_lib.Nud.Strips.{Window, add_faces-Window}
use xfbin_lib.Nud.BoneRange.{get_bone_range, MeshInRange, get_bone_range-MeshInRange}

abbrev strip : List ℤ
strip = pos 0 ∷ pos 1 ∷ pos 2 ∷ pos 1 ∷ negsuc 0 ∷ pos 4 ∷ pos 5 ∷ pos 6 ∷ []

add_faces-Window_example :
    (faces : List Face) × (add_faces strip 0 ≡ ok faces) × All (Window strip) faces
add_faces-Window_example = add_faces-Window strip 0 refl (omega arith)

abbrev vertex : NudVertex ℕ
vertex = record {
  position = 1 ∷ 2 ∷ 3 ∷ [];
  normal = none;
  bitangent = none;
  tangent = none;
  color = none;
  uv = none;
  bone_ids = some (7 ∷ 3 ∷ 9 ∷ 3 ∷ []);
  bone_weights = none;
}

abbrev mesh : NudMesh ℕ
mesh = record {
  vertices = vertex ∷ [];
  faces = [];
  materials = [];
  vertex_type = 0;
  bone_type = 0x10;
  uv_type = 0;
  face_flag = 0;
}

abbrev group : NudMeshGroup ℕ
group = record { name = []; bone_flags = 0; bounding_sphere = []; meshes = mesh ∷ [] }

abbrev nud : Nud ℕ
nud = record { name = []; bounding_sphere = []; mesh_groups = group ∷ [] }

get_bone_range-MeshInRange_example : All (MeshInRange (3, 9)) group.meshes
unfolding get_bone_range
get_bone_range-MeshInRange_example =
    get_bone_range-MeshInRange nud group [] mesh [] (3, 9) refl refl refl refl
