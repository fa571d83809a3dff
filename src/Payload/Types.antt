-- ===== src/Payload/Types.antt =====
-- The objects of xfbin/structure/nucc.py, with the chunks that they refer to, and the structs of
-- xfbin/structure/br/br_nucc.py, with indices in place of chunks. `F` is the type of floats.
use xfbin_lib.Base.{ℕ, Bool, List, Option}
use xfbin_lib.Base.Int.{ℤ}
use xfbin_lib.Chunk.{ChunkMap, ClassName, codes}

-- BrNuccChunkCoord, and the fields of a CoordNode that are read from it.
pub record Coord (F : Type 0) : Type 0 where
  pub position : List F
  pub rotation : List F
  pub scale : List F
  pub unk_float : F
  pub unk_short : ℕ

-- A MaterialTextureGroup holds chunks, a BrMaterialTextureGroup their indices.
pub record TextureGroup (C : Type 0) : Type 0 where
  pub unk : ℤ
  pub textures : List C

-- NuccChunkMaterial at chunks, BrNuccChunkMaterial at indices.
pub record Material (F C : Type 0) : Type 0 where
  pub field02 : ℕ
  pub field04 : F
  pub format : ℕ
  pub floats : List F
  pub texture_groups : List (TextureGroup C)

-- Dynamics1, with the shorts of its own.
pub record Dynamics1 (F : Type 0) : Type 0 where
  pub floats : List F
  pub coord_index : ℕ
  pub shorts : List ℕ

-- BrDynamics1, with the count of its shorts.
pub record BrDynamics1 (F : Type 0) : Type 0 where
  pub floats : List F
  pub coord_index : ℕ
  pub unk_count : ℕ

-- Dynamics2, and BrDynamics2.
pub record Dynamics2 (F : Type 0) : Type 0 where
  pub floats : List F
  pub coord_index : ℕ
  pub negative_unk : ℤ
  pub unk_short_tuples : List (List ℕ)

pub record Dynamics (F : Type 0) : Type 0 where
  pub clump_chunk : ChunkMap
  pub section1 : List (Dynamics1 F)
  pub section2 : List (Dynamics2 F)

pub record BrDynamics (F : Type 0) : Type 0 where
  pub clump_chunk_index : ℕ
  pub section1 : List (BrDynamics1 F)
  pub section2 : List (Dynamics2 F)
  pub section1_shorts : List ℕ

-- A ClumpModelGroup; a model may be None.
pub record ModelGroup (C : Type 0) : Type 0 where
  pub flag0 : ℕ
  pub flag1 : ℕ
  pub unk : ℤ
  pub models : List C

-- What BrClumpModelGroup reads: the count, and the rest of the group where it was there.
pub record BrModelGroup : Type 0 where
  pub model_count : ℤ
  pub fields : Option (ModelGroup ℤ)

-- A coord chunk of a clump, and the chunk of its node's parent. The node belongs to the chunk: a chunk
-- that stands twice among the coords has the parent that it got last.
pub record ClumpCoord : Type 0 where
  pub chunk : ChunkMap
  pub parent : Option ChunkMap

pub record Clump : Type 0 where
  pub field00 : ℕ
  pub coord_flag0 : ℕ
  pub coord_flag1 : ℕ
  pub model_flag0 : ℕ
  pub model_flag1 : ℕ
  pub coords : List ClumpCoord
  pub models : List ChunkMap
  pub model_groups : List (ModelGroup (Option ChunkMap))

pub record BrClump : Type 0 where
  pub field00 : ℕ
  pub coord_flag0 : ℕ
  pub coord_flag1 : ℕ
  pub model_flag0 : ℕ
  pub model_flag1 : ℕ
  pub coord_parents : List ℤ
  pub coord_indices : List ℕ
  pub model_indices : List ℕ
  pub model_groups : List BrModelGroup

-- What `init_data` of a clump looks up on other objects: whether there is a `node`, and `coord_index`; an object
-- that has not been read yet, or is of another class, has no such attribute.
pub record View : Type 0 where
  pub has_node : Bool
  pub coord_index : Option ℤ

-- An object, by its type, path and name and these attributes.
abbrev pub Seen : Type 0
Seen = ChunkMap × View

abbrev pub model_class : ClassName
model_class = codes "NuccChunkModel"
