-- ===== src/Nud/Types.antt =====
-- The objects of xfbin/structure/nud.py, and the fields that they take from those of
-- xfbin/structure/br/br_nud.py. `F` is the type of floats; None is `none`.
use xfbin_lib.Base.{ℕ, List, Option}
use xfbin_lib.Base.Int.{ℤ}
use xfbin_lib.Binary.{Text}

pub record BrNudVertex (F : Type 0) : Type 0 where
  pub position : List F
  pub normals : Option (List F)
  pub bi_tangents : Option (List F)
  pub tangents : Option (List F)
  pub color : Option (List ℕ)
  pub uv : Option (List (F × F))
  pub bone_ids : Option (List ℕ)
  pub bone_weights : Option (List F)

pub record NudVertex (F : Type 0) : Type 0 where
  pub position : List F
  pub normal : Option (List F)
  pub bitangent : Option (List F)
  pub tangent : Option (List F)
  pub color : Option (List ℕ)
  pub uv : Option (List (F × F))
  pub bone_ids : Option (List ℕ)
  pub bone_weights : Option (List F)

-- `unk0` to `unk2` of a texture, in the order of the source; the same fields are read and kept.
pub record NudMaterialTexture : Type 0 where
  pub unk0 : ℤ
  pub map_mode : ℕ
  pub wrap_mode_s : ℕ
  pub wrap_mode_t : ℕ
  pub min_filter : ℕ
  pub mag_filter : ℕ
  pub mip_detail : ℕ
  pub unk1 : ℕ
  pub unk2 : ℤ

pub record NudMaterialProperty (F : Type 0) : Type 0 where
  pub name : Text
  pub values : List F

pub record NudMaterial (F : Type 0) : Type 0 where
  pub flags : ℕ
  pub source_factor : ℕ
  pub dest_factor : ℕ
  pub alpha_test : ℕ
  pub alpha_function : ℕ
  pub ref_alpha : ℕ
  pub cull_mode : ℕ
  pub unk1 : F
  pub unk2 : F
  pub z_buffer_offset : ℤ
  pub textures : List NudMaterialTexture
  pub properties : List (NudMaterialProperty F)

-- A BrNudMesh; its materials have the fields of a NudMaterial.
pub record BrNudMesh (F : Type 0) : Type 0 where
  pub vertices : List (BrNudVertex F)
  pub faces : List ℤ
  pub materials : List (NudMaterial F)
  pub vertex_size : ℕ
  pub uv_size : ℕ
  pub face_size : ℕ
  pub face_flag : ℕ

abbrev pub Face : Type 0
Face = ℤ × (ℤ × ℤ)

pub record NudMesh (F : Type 0) : Type 0 where
  pub vertices : List (NudVertex F)
  pub faces : List Face
  pub materials : List (NudMaterial F)
  pub vertex_type : ℕ
  pub bone_type : ℕ
  pub uv_type : ℕ
  pub face_flag : ℕ

pub record BrNudMeshGroup (F : Type 0) : Type 0 where
  pub name : Text
  pub bone_flags : ℕ
  pub bounding_sphere : List F
  pub meshes : List (BrNudMesh F)

pub record NudMeshGroup (F : Type 0) : Type 0 where
  pub name : Text
  pub bone_flags : ℕ
  pub bounding_sphere : List F
  pub meshes : List (NudMesh F)

pub record BrNud (F : Type 0) : Type 0 where
  pub bounding_sphere : List F
  pub mesh_groups : List (BrNudMeshGroup F)

pub record Nud (F : Type 0) : Type 0 where
  pub name : Text
  pub bounding_sphere : List F
  pub mesh_groups : List (NudMeshGroup F)
