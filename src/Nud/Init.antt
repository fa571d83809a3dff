-- ===== src/Nud/Init.antt =====
-- The methods `init_data` of xfbin/structure/nud.py, and the queries of NudMesh.
use xfbin_lib.Base.{
  ℕ, Bool, true, false, List, [], ◌∷◌, Option, none, some, Result, ok, ◌>>=◌, map_result, bit_and,
  length,
}
use xfbin_lib.Binary.{Text}
use xfbin_lib.Nud.Types.{
  BrNudVertex, NudVertex, NudMaterialProperty, NudMaterial, BrNudMesh, NudMesh, BrNudMeshGroup,
  NudMeshGroup, BrNud, Nud,
}
use xfbin_lib.Nud.Faces.{add_faces}

-- `xs if xs else None`
abbrev pub or_none {ℓ} : {A : Type ℓ} → Option (List A) → Option (List A)
or_none none = none
or_none (some []) = none
or_none (some (x ∷ xs)) = some (x ∷ xs)

-- Whether an optional list is there and not empty.
abbrev pub is_filled {ℓ} : {A : Type ℓ} → Option (List A) → Bool
is_filled none = false
is_filled (some []) = false
is_filled (some (x ∷ xs)) = true

module _ {F : Type 0} where
  -- NudVertex.init_data
  unfoldable pub init_vertex : BrNudVertex F → NudVertex F
  init_vertex v = record {
    position = v.position;
    normal = v.normals;
    bitangent = or_none v.bi_tangents;
    tangent = or_none v.tangents;
    color = or_none v.color;
    uv = v.uv;
    bone_ids = v.bone_ids;
    bone_weights = v.bone_weights;
  }

  -- `[p for p in material.properties if p.name]`
  unfoldable pub named_properties : List (NudMaterialProperty F) → List (NudMaterialProperty F)
  named_properties [] = []
  named_properties (p ∷ ps) =
      let rest = named_properties ps in elim p.name [ [] ↦ rest | ◌∷◌ _ _ ↦ p ∷ rest ]

  -- NudMaterial.init_data
  unfoldable pub init_material : NudMaterial F → NudMaterial F
  unfolding named_properties
  init_material m = record m { properties = named_properties m.properties }

  -- NudMesh.add_vertices
  unfoldable pub init_vertices : List (BrNudVertex F) → List (NudVertex F)
  unfolding init_vertex
  init_vertices [] = []
  init_vertices (v ∷ vs) = init_vertex v ∷ init_vertices vs

  -- NudMesh.add_materials
  unfoldable pub init_materials : List (NudMaterial F) → List (NudMaterial F)
  unfolding init_material
  init_materials [] = []
  init_materials (m ∷ ms) = init_material m ∷ init_materials ms

  -- NudMesh.init_data
  unfoldable pub init_mesh : BrNudMesh F → Result (NudMesh F)
  unfolding init_vertices init_materials add_faces
  init_mesh m = do
    faces ← add_faces m.faces m.face_size
    ok (record {
      vertices = init_vertices m.vertices;
      faces = faces;
      materials = init_materials m.materials;
      vertex_type = bit_and m.vertex_size 0x0F;
      bone_type = bit_and m.vertex_size 0xF0;
      uv_type = bit_and m.uv_size 0x0F;
      face_flag = m.face_flag;
    })

  -- NudMeshGroup.init_data
  unfoldable pub init_mesh_group : BrNudMeshGroup F → Result (NudMeshGroup F)
  unfolding init_mesh
  init_mesh_group g = do
    meshes ← map_result init_mesh g.meshes
    ok (record {
      name = g.name;
      bone_flags = g.bone_flags;
      bounding_sphere = g.bounding_sphere;
      meshes = meshes;
    })

  -- Nud.init_data
  unfoldable pub init_nud : Text → BrNud F → Result (Nud F)
  unfolding init_mesh_group
  init_nud name n = do
    groups ← map_result init_mesh_group n.mesh_groups
    ok (record { name = name; bounding_sphere = n.bounding_sphere; mesh_groups = groups })

  unfoldable pub has_bones : NudMesh F → Bool
  has_bones m = elim m.vertices [ [] ↦ false | ◌∷◌ v _ ↦ is_filled v.bone_ids ]

  unfoldable pub has_color : NudMesh F → Bool
  has_color m = elim m.vertices [ [] ↦ false | ◌∷◌ v _ ↦ is_filled v.color ]

  unfoldable pub get_uv_channel_count : NudMesh F → ℕ
  get_uv_channel_count m = elim m.vertices [
    | [] ↦ 0
    | ◌∷◌ v _ ↦ elim v.uv [ none ↦ 0 | some uv ↦ length uv ]
  ]
