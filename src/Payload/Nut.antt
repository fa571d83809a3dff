-- ===== src/Payload/Nut.antt =====
-- BrNut and BrNutTexture (xfbin/structure/br/br_nut.py).
use xfbin_lib.Base.{
  ℕ, ◌+◌, ◌==◌, ltb, bit_and, not, Bool, true, false, if◌then◌else◌, List, at_index, Option, none,
  some, invalid_magic,
}
use xfbin_lib.Binary.{Text, Reader, ◌>>=◌, ◌>>◌, pure, fail, lift, BinaryReader}
use xfbin_lib.Binary.Sequence.{read_n}
use xfbin_lib.Chunk.{text_eq, codes}

pub record NutTexture : Type 0 where
  pub total_size : ℕ
  pub data_size : ℕ
  pub header_size : ℕ
  pub mipmap_count : ℕ
  pub pixel_format : ℕ
  pub width : ℕ
  pub height : ℕ
  pub cube_map_format : ℕ
  pub is_cubemap : Bool
  pub data_offset : ℕ
  -- `cubemapSize1` and `cubemapSize2`, which only a cubemap has
  pub cubemap_sizes : Option (ℕ × ℕ)
  -- only there with two mipmaps or more
  pub mipmap_sizes : Option (List ℕ)
  pub hash_id : ℕ

pub record Nut : Type 0 where
  pub magic : Text
  pub version : ℕ
  pub texture_count : ℕ
  pub textures : List NutTexture

module _ {Float : Type 0} (io : BinaryReader Float) where
  open io use {read_uint8, read_uint16, read_uint32, read_chars, align_pos, skip}

  -- `self.dataOffset`, by the version of the NUT.
  unfoldable pub read_data_offset : ℕ → ℕ → Reader ℕ
  read_data_offset version header_size = do
    words ← read_n 4 read_uint32
    if ltb version 0x200 then pure (0x10 + header_size) else lift (at_index words 0)

  unfoldable pub read_cubemap_sizes : Bool → Reader (Option (ℕ × ℕ))
  read_cubemap_sizes false = pure none
  read_cubemap_sizes true = do
    size1 ← read_uint32
    size2 ← read_uint32
    words ← read_n 2 read_uint32
    pure (some (size1, size2))

  -- The statements under `if self.mipmapCount > 1`.
  unfoldable pub read_mipmap_sizes : ℕ → Reader (Option (List ℕ))
  read_mipmap_sizes mipmap_count =
      if ltb 1 mipmap_count
      then (read_n mipmap_count read_uint32 >>= λ sizes. align_pos 0x10 >> pure (some sizes))
      else pure none

  unfoldable pub read_nut_texture : ℕ → Reader NutTexture
  unfolding read_data_offset read_cubemap_sizes read_mipmap_sizes
  read_nut_texture version = do
    total_size ← read_uint32
    unk04 ← read_uint32
    data_size ← read_uint32
    header_size ← read_uint16
    unk0e ← read_uint16
    unk10 ← read_uint8
    mipmap_count ← read_uint8
    unk12 ← read_uint8
    pixel_format ← read_uint8
    width ← read_uint16
    height ← read_uint16
    unk18 ← read_uint32
    cube_map_format ← read_uint32
    let is_cubemap = not (bit_and cube_map_format 0x200 == 0)
    data_offset ← read_data_offset version header_size
    cubemap_sizes ← read_cubemap_sizes is_cubemap
    mipmap_sizes ← read_mipmap_sizes mipmap_count
    skip 0x18
    hash_id ← read_uint32
    unk ← read_uint32
    pure (record {
      total_size = total_size;
      data_size = data_size;
      header_size = header_size;
      mipmap_count = mipmap_count;
      pixel_format = pixel_format;
      width = width;
      height = height;
      cube_map_format = cube_map_format;
      is_cubemap = is_cubemap;
      data_offset = data_offset;
      cubemap_sizes = cubemap_sizes;
      mipmap_sizes = mipmap_sizes;
      hash_id = hash_id;
    })

  unfoldable pub check_nut_magic : Text → Reader (Unit {0})
  check_nut_magic magic = if text_eq magic (codes "NTP3") then pure tt else fail invalid_magic

  unfoldable pub read_nut : Reader Nut
  unfolding check_nut_magic read_nut_texture
  read_nut = do
    magic ← read_chars 4
    check_nut_magic magic
    version ← read_uint16
    texture_count ← read_uint16
    words ← read_n 2 read_uint32
    textures ← read_n texture_count (read_nut_texture version)
    pure (record {
      magic = magic;
      version = version;
      texture_count = texture_count;
      textures = textures;
    })
