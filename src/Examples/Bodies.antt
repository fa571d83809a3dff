-- ===== src/Examples/Bodies.antt =====
-- The groups of a clump, and a texture.
use xfbin_lib.Base.{◌≡◌, refl, [], ◌∷◌, ok, some, arith}
use xfbin_lib.Base.Int.{pos, negsuc}
use xfbin_lib.Binary
use xfbin_lib.Binary.Sequence.{read_n}
use xfbin_lib.Binary.{Bytes, Decodes}
use xfbin_lib.Binary.BigEndian.{big_endian}
use xfbin_lib.Dict
use xfbin_lib.Dict.{IterativeDict, keys}
use xfbin_lib.Dict.Numbering.{keys-update_or_next}
use xfbin_lib.Chunk.{ChunkMap, ChunkMap-discrete, Text-discrete, null_map, text_eq}
use xfbin_lib.Payload.Types.{ModelGroup}
use xfbin_lib.Payload.Clump.{read_groups}
use xfbin_lib.Payload.Clump.Groups.{write_groups, read_groups-write_groups}
use xfbin_lib.Payload.Clump.Indices.{br_group}
use xfbin_lib.Examples.Data.{binary_map}
use xfbin_lib.Base.{map_ok, ap, length}
use mathlib.Core.HLevel.{⊥_prop}
use mathlib.Core.Logic.Or
use xfbin_lib.Base.Int.{ℤ}
use xfbin_lib.Payload.Nut.{Nut, NutTexture, check_nut_magic}
use xfbin_lib.Payload.Texture.{
  Texture, BrTexture, first_or_zero, parse_nut, write_texture, read_texture, init_texture,
  read_texture-write_texture,
}
use mathlib.Core.List.{Mem, Nodup, Nodup-cons, Nodup-nil, not-mem-nil, eq-or-mem_of_mem-cons}
use xfbin_lib.Examples.Payloads.{before, bytes_of}

abbrev br_model_group : ModelGroup ℤ
br_model_group = record { flag0 = 1; flag1 = 2; unk = negsuc 4; models = negsuc 0 ∷ pos 7 ∷ [] }

read_groups-write_groups_example :
    Decodes
      (write_groups big_endian (br_model_group ∷ br_model_group ∷ []))
      (read_groups big_endian)
      (br_group br_model_group ∷ br_group br_model_group ∷ [])
read_groups-write_groups_example =
    read_groups-write_groups big_endian (br_model_group ∷ br_model_group ∷ [])
      (omega arith, (omega arith, tt))

-- A NUT with one texture, eight wide and four high.
abbrev small_nut : Bytes
small_nut =
    78 ∷ 84 ∷ 80 ∷ 51 ∷ 1 ∷ 0 ∷ 0 ∷ 1 ∷ 0 ∷ 0 ∷ 0 ∷ 0 ∷ 0 ∷ 0 ∷ 0 ∷ 0 ∷ 0 ∷ 0 ∷ 0 ∷ 96 ∷ 0 ∷ 0 ∷ 0
    ∷ 0 ∷ 0 ∷ 0 ∷ 0 ∷ 16 ∷ 0 ∷ 80 ∷ 0 ∷ 0 ∷ 0 ∷ 1 ∷ 0 ∷ 0 ∷ 0 ∷ 8 ∷ 0 ∷ 4 ∷ 0 ∷ 0 ∷ 0 ∷ 0 ∷ 0 ∷ 0
    ∷ 0 ∷ 0 ∷ 0 ∷ 0 ∷ 0 ∷ 0 ∷ 0 ∷ 0 ∷ 0 ∷ 0 ∷ 0 ∷ 0 ∷ 0 ∷ 0 ∷ 0 ∷ 0 ∷ 0 ∷ 0 ∷ 0 ∷ 0 ∷ 0 ∷ 0 ∷ 0 ∷ 0
    ∷ 0 ∷ 0 ∷ 0 ∷ 0 ∷ 0 ∷ 0 ∷ 0 ∷ 0 ∷ 0 ∷ 0 ∷ 0 ∷ 0 ∷ 0 ∷ 0 ∷ 0 ∷ 0 ∷ 0 ∷ 0 ∷ 0 ∷ 0 ∷ 0 ∷ 9 ∷ 0 ∷ 0
    ∷ 0 ∷ 0 ∷ []

abbrev picture : Texture
picture = record { width = 8; height = 4; file_data = small_nut }

abbrev picture_bytes : Bytes
picture_bytes = bytes_of (map_ok (λ bs. (before, bs)) (write_texture big_endian picture))

picture_run : write_texture big_endian picture ≡ ok picture_bytes
unfolding write_texture big_endian Text-discrete check_nut_magic Binary.◌>>=◌ text_eq Binary.pure
    read_n
picture_run = refl

read_texture-write_texture_example :
    (nut : Nut) × (b : BrTexture) × (parse_nut big_endian small_nut ≡ ok nut)
    × Decodes (ok picture_bytes) (read_texture big_endian) b
    × (b.br_nut ≡ some nut)
    × (b.height ≡ first_or_zero (λ (x : NutTexture). x.height) nut.textures)
    × (init_texture b ≡ record {
      width = first_or_zero (λ (x : NutTexture). x.width) nut.textures;
      height = first_or_zero (λ (x : NutTexture). x.width) nut.textures;
      file_data = small_nut;
    })
read_texture-write_texture_example =
    read_texture-write_texture big_endian picture picture_bytes picture_run

apart : ¬ Mem null_map (binary_map ∷ [])
apart m =
    Or.elim ⊥_prop (eq-or-mem_of_mem-cons m)
      (λ e. omega (arith, ap (λ (c : ChunkMap). length c.name) e)) not-mem-nil

maps_Nodup : Nodup (null_map ∷ binary_map ∷ [])
maps_Nodup = Nodup-cons.1 (apart, Nodup-cons.1 (not-mem-nil, Nodup-nil))

keys-update_or_next_example :
    keys (Dict.update_or_next ChunkMap-discrete before (binary_map ∷ []))
    ≡ null_map ∷ binary_map ∷ []
keys-update_or_next_example =
    keys-update_or_next ChunkMap-discrete before (binary_map ∷ []) maps_Nodup
