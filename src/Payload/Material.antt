-- ===== src/Payload/Material.antt =====
-- BrNuccChunkMaterial and BrMaterialTextureGroup (xfbin/structure/br/br_nucc.py), NuccChunkMaterial and
-- MaterialTextureGroup (xfbin/structure/nucc.py).
pub mod Reads
use xfbin_lib.Base.{
  ℕ, zero, suc, ◌+◌, ◌<◌, ◌≡◌, ◌==◌, bit_and, Bool, true, false, if◌then◌else◌, List, [], ◌∷◌,
  length, take, All, Result, map_ok, map_result,
}
use xfbin_lib.Base.Int.{ℤ, pos, negsuc}
use xfbin_lib.Binary.{Bytes, Reader, ◌>>=◌, pure, ◌<+>◌, BinaryReader}
use xfbin_lib.Binary.Sequence.{write_each, read_n}
use xfbin_lib.Dict.{IterativeDict}
use xfbin_lib.Chunk.{ChunkMap}
use xfbin_lib.Payload.Types.{TextureGroup, Material}
use xfbin_lib.Payload.References.{get_or_next_each, chunk_of}

-- `if format & mask: count += n`
abbrev counted : ℕ → ℕ → ℕ → ℕ
counted format mask n = if bit_and format mask == 0 then 0 else n

unfoldable pub float_count : ℕ → ℕ
float_count format =
    counted format 0x40 1
    + counted format 0x20 1
    + counted format 0x10 2
    + counted format 0x08 4
    + counted format 0x04 4
    + counted format 0x02 4
    + counted format 0x01 4

-- `self.nuccChunk.format if self.nuccChunk.floats else 0`
abbrev pub written_format : {F C : Type 0} → Material F C → ℕ
written_format m = elim m.floats [ [] ↦ 0 | ◌∷◌ _ _ ↦ m.format ]

-- The texture groups with the indices of their chunks.
unfoldable pub index_groups :
    IterativeDict ChunkMap
    → List (TextureGroup ChunkMap)
    → IterativeDict ChunkMap × List (TextureGroup ℕ)
index_groups d [] = (d, [])
index_groups d (g ∷ gs) =
    let r = get_or_next_each d g.textures in
    let s = index_groups r.0 gs in (s.0, record { unk = g.unk; textures = r.1 } ∷ s.1)

-- MaterialTextureGroup.init_data
unfoldable pub init_group : List ChunkMap → List ℕ → TextureGroup ℕ → Result (TextureGroup ChunkMap)
init_group chunk_list chunk_indices g =
    map_ok (λ textures. record { unk = g.unk; textures = textures })
      (map_result (chunk_of chunk_list chunk_indices) g.textures)

module _ {F : Type 0} where
  -- The chunks of a material get their indices in order.
  unfoldable pub index_material :
      IterativeDict ChunkMap → Material F ChunkMap → IterativeDict ChunkMap × Material F ℕ
  unfolding index_groups
  index_material d m =
      let r = index_groups d m.texture_groups in
      (
        r.0,
        record {
          field02 = m.field02;
          field04 = m.field04;
          format = m.format;
          floats = m.floats;
          texture_groups = r.1;
        },
      )

  -- NuccChunkMaterial.init_data
  unfoldable pub init_material :
      List ChunkMap → List ℕ → Material F ℕ → Result (Material F ChunkMap)
  unfolding init_group
  init_material chunk_list chunk_indices m =
      map_ok
        (λ groups. record {
          field02 = m.field02;
          field04 = m.field04;
          format = m.format;
          floats = m.floats;
          texture_groups = groups;
        })
        (map_result (init_group chunk_list chunk_indices) m.texture_groups)

module _ {Float : Type 0} (io : BinaryReader Float) where
  open io use {
    write_uint8, write_uint16, write_uint32, write_int32, write_float, read_uint8, read_uint16,
    read_uint32, read_int16, read_int32, read_float, read_uint32_negative,
  }

  -- BrMaterialTextureGroup.__br_write__
  unfoldable pub write_group : TextureGroup ℕ → Result Bytes
  write_group g =
      write_uint16 (length g.textures)
      <+> write_uint16 0
      <+> write_int32 g.unk
      <+> write_each write_uint32 g.textures

  -- `br.read_uint32(n)` for a signed count.
  unfoldable pub read_indices : ℤ → Reader (List ℕ)
  read_indices (pos n) = read_n n read_uint32
  read_indices (negsuc n) = read_uint32_negative n

  -- BrMaterialTextureGroup.__br_read__
  unfoldable pub read_group : Reader (TextureGroup ℕ)
  unfolding read_indices
  read_group = do
    texture_count ← read_int16
    zeros ← read_uint16
    unk ← read_int32
    textures ← read_indices texture_count
    pure (record { unk = unk; textures = textures })

  -- BrNuccChunkMaterial.__br_write__, behind its calls of get_or_next.
  unfoldable pub write_br_material : Material Float ℕ → Result Bytes
  unfolding write_group float_count
  write_br_material m =
      write_uint16 (length m.texture_groups)
      <+> write_uint8 m.field02
      <+> write_uint8 0
      <+> write_float m.field04
      <+> write_each write_uint8 (0 ∷ 0 ∷ 0 ∷ [])
      <+> write_uint8 (written_format m)
      <+> write_each write_float (take (float_count m.format) m.floats)
      <+> write_each write_group m.texture_groups

  -- BrNuccChunkMaterial.__br_write__
  unfoldable pub write_material :
      IterativeDict ChunkMap → Material Float ChunkMap → Result (IterativeDict ChunkMap × Bytes)
  unfolding index_material write_br_material
  write_material d m =
      let r = index_material d m in map_ok (λ bs. (r.0, bs)) (write_br_material r.1)

  -- BrNuccChunkMaterial.init_data
  unfoldable pub read_material : Reader (Material Float ℕ)
  unfolding read_group float_count
  read_material = do
    group_count ← read_uint16
    field02 ← read_uint8
    zeros ← read_uint8
    field04 ← read_float
    padding ← read_n 3 read_uint8
    format ← read_uint8
    floats ← read_n (float_count format) read_float
    groups ← read_n group_count read_group
    pure (record {
      field02 = field02;
      field04 = field04;
      format = format;
      floats = floats;
      texture_groups = groups;
    })
