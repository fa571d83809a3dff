-- ===== src/Payload/Classes.antt =====
-- The chunk classes together: which class writes what, and what `init_data` makes of what was read.
pub mod Reads
use xfbin_lib.Base
use xfbin_lib.Base.{
  ℕ, Bool, true, false, if◌then◌else◌, List, map, Option, some, none, Result, ok, raise, wrong_type,
  attribute_error, map_ok,
}
use xfbin_lib.Binary.{Bytes, Reader, BinaryReader, open_buffer}
use xfbin_lib.Dict.{IterativeDict}
use xfbin_lib.Chunk.{ChunkMap, ClassName, NuccChunk, text_eq, codes, null_class, page_class}
use xfbin_lib.Payload.Types.{Coord, Material, Dynamics, BrDynamics, Clump, BrClump, Seen}
use xfbin_lib.Payload.Coord.{write_coord, read_coord}
use xfbin_lib.Payload.Material.{write_material, read_material, init_material}
use xfbin_lib.Payload.Dynamics.{write_dynamics, read_dynamics, init_dynamics}
use xfbin_lib.Payload.Clump.{write_clump, read_clump}
use xfbin_lib.Payload.Clump.Init.{init_clump}
use xfbin_lib.Payload.Texture.{Texture, BrTexture, write_texture, read_texture, init_texture}

-- The attributes of a chunk, by its class.
pub data Payload (F : Type 0) : Type 0 where
  texture : Texture → Payload F
  dynamics : Dynamics F → Payload F
  clump : Clump → Payload F
  material : Material F ChunkMap → Payload F
  coord : Coord F → Payload F

-- What the Br class of a chunk reads.
pub data BrPayload (F : Type 0) : Type 0 where
  br_texture : BrTexture → BrPayload F
  br_dynamics : BrDynamics F → BrPayload F
  br_clump : BrClump → BrPayload F
  br_material : Material F ℕ → BrPayload F
  br_coord : Coord F → BrPayload F

abbrev pub texture_class : ClassName
texture_class = codes "NuccChunkTexture"

abbrev pub dynamics_class : ClassName
dynamics_class = codes "NuccChunkDynamics"

abbrev pub clump_class : ClassName
clump_class = codes "NuccChunkClump"

abbrev pub material_class : ClassName
material_class = codes "NuccChunkMaterial"

abbrev pub coord_class : ClassName
coord_class = codes "NuccChunkCoord"

-- The class that holds the attributes.
abbrev pub payload_class : {F : Type 0} → Payload F → ClassName
payload_class (texture t) = texture_class
payload_class (dynamics y) = dynamics_class
payload_class (clump c) = clump_class
payload_class (material m) = material_class
payload_class (coord c) = coord_class

-- `init_data` of the classes that override it; only that of a clump looks at attributes of other objects.
unfoldable pub init_payload : {F : Type 0} → List Seen → List ℕ → BrPayload F → Result (Payload F)
unfolding init_texture init_dynamics init_clump init_material
init_payload chunk_list chunk_indices (br_texture b) = ok (texture (init_texture b))
init_payload chunk_list chunk_indices (br_dynamics b) =
    map_ok dynamics (init_dynamics (map (λ s. s.0) chunk_list) chunk_indices b)
init_payload chunk_list chunk_indices (br_clump b) =
    map_ok clump (init_clump chunk_list chunk_indices b)
init_payload chunk_list chunk_indices (br_material b) =
    map_ok material (init_material (map (λ s. s.0) chunk_list) chunk_indices b)
init_payload chunk_list chunk_indices (br_coord b) = ok (coord b)

module _ {Float : Type 0} (io : BinaryReader Float) where
  -- A whole buffer read by a class.
  abbrev pub read_buffer : {A : Type 0} → Reader A → Bytes → Result A
  read_buffer read bytes = map_ok (λ r. r.0) (read (open_buffer bytes))

  -- `__br_write__` of the class.
  unfoldable pub write_payload :
      IterativeDict ChunkMap → Payload Float → Result (IterativeDict ChunkMap × Bytes)
  unfolding write_texture write_dynamics write_clump write_material write_coord
  write_payload d (texture t) = map_ok (λ bs. (d, bs)) (write_texture io t)
  write_payload d (dynamics y) = write_dynamics io d y
  write_payload d (clump c) = write_clump io d c
  write_payload d (material m) = write_material io d m
  write_payload d (coord c) = map_ok (λ bs. (d, bs)) (write_coord io c)

  -- `create_from_nucc_type` on one of the five classes; none on every other.
  unfoldable pub read_payload : ClassName → Bytes → Option (Result (BrPayload Float))
  unfolding read_texture read_dynamics read_clump read_material read_coord
  read_payload cls bytes =
      if text_eq cls texture_class
      then some (map_ok br_texture (read_buffer (read_texture io) bytes))
      else if text_eq cls dynamics_class
      then some (map_ok br_dynamics (read_buffer (read_dynamics io) bytes))
      else if text_eq cls clump_class
      then some (map_ok br_clump (read_buffer (read_clump io) bytes))
      else if text_eq cls material_class
      then some (map_ok br_material (read_buffer (read_material io) bytes))
      else if text_eq cls coord_class
      then some (map_ok br_coord (read_buffer (read_coord io) bytes))
      else none
