-- ===== src/Examples/Payloads.antt =====
-- The payloads of a coord, a material and a dynamics chunk.
use xfbin_lib.Base.{◌≡◌, refl, List, [], ◌∷◌, ok, inr, cons, nil, arith, ℕ}
use xfbin_lib.Base.Int.{pos, negsuc}
use xfbin_lib.Binary.{Bytes, Decodes}
use xfbin_lib.Binary.BigEndian.{big_endian}
use xfbin_lib.Dict
use xfbin_lib.Dict.{IterativeDict, keys}
use xfbin_lib.Dict.Numbering.{IsNumbered, init-IsNumbered, get_or_next-IsNumbered}
use xfbin_lib.Chunk.{ChunkMap, ChunkMap-discrete, Text-discrete, null_map}
use xfbin_lib.Payload.Types.{Coord, Material, Dynamics, BrDynamics}
use xfbin_lib.Payload.References.{Resolves, Forall₂-Resolves}
use xfbin_lib.Payload.Coord.{write_coord, read_coord, read_coord-write_coord}
use xfbin_lib.Payload.Material.{write_material, read_material, init_material, float_count}
use xfbin_lib.Payload.Material.Reads.{as_written, read_material-write_material}
use xfbin_lib.Payload.Dynamics.{write_dynamics, read_dynamics, init_dynamics}
use xfbin_lib.Payload.Dynamics.Reads.{read_dynamics-write_dynamics}
use xfbin_lib.Examples.Data.{binary_map}
use xfbin_lib.Base.{Result, raise}
use xfbin_lib.Payload.References.{get_or_next_each}
use xfbin_lib.Payload.Material.Reads.{Covers}
use mathlib.Core.List.{lookup}

abbrev node : Coord ℕ
node = record {
  position = 1 ∷ 2 ∷ 3 ∷ [];
  rotation = 4 ∷ 5 ∷ 6 ∷ [];
  scale = 7 ∷ 8 ∷ 9 ∷ [];
  unk_float = 10;
  unk_short = 11;
}

read_coord-write_coord_example : Decodes (write_coord big_endian node) (read_coord big_endian) node
read_coord-write_coord_example =
    read_coord-write_coord big_endian node
      (record { position_size = refl; rotation_size = refl; scale_size = refl })

-- The dictionary before a payload is written, and the chunks that the page ends up with.
abbrev pub before : IterativeDict ChunkMap
before = record { items = (null_map, 0) ∷ []; index = 1 }

abbrev pub after : IterativeDict ChunkMap
after = record { items = (null_map, 0) ∷ (binary_map, 1) ∷ []; index = 2 }

pub before-IsNumbered : IsNumbered before
unfolding Dict.init Dict.get_or_next lookup
before-IsNumbered = get_or_next-IsNumbered ChunkMap-discrete Dict.init null_map init-IsNumbered

abbrev pub chunk_list : List ChunkMap
chunk_list = binary_map ∷ null_map ∷ []

pub after-Resolves : Resolves after chunk_list (1 ∷ 0 ∷ [])
after-Resolves = Forall₂-Resolves after chunk_list (1 ∷ 0 ∷ []) (cons refl (cons refl nil))

abbrev stone : Material ℕ ChunkMap
stone = record {
  field02 = 0xCD;
  field04 = 12;
  format = 0x50;
  floats = 1 ∷ 2 ∷ 3 ∷ 4 ∷ [];
  texture_groups = record { unk = pos 0; textures = binary_map ∷ null_map ∷ [] } ∷ [];
}

-- The bytes of a write that succeeds.
abbrev pub bytes_of : Result (IterativeDict ChunkMap × Bytes) → Bytes
bytes_of (ok r) = r.1
bytes_of (raise e) = []

abbrev stone_bytes : Bytes
stone_bytes = bytes_of (write_material big_endian before stone)

stone_run : write_material big_endian before stone ≡ ok (after, stone_bytes)
unfolding write_material big_endian Dict.get_or_next lookup Text-discrete ChunkMap-discrete
    float_count get_or_next_each
stone_run = refl

stone-Covers : Covers stone
unfolding float_count
stone-Covers = inr (omega arith)

read_material-write_material_example :
    (b : Material ℕ ℕ) × Decodes (ok stone_bytes) (read_material big_endian) b
    × (init_material chunk_list (1 ∷ 0 ∷ []) b ≡ ok (as_written stone))
read_material-write_material_example =
    read_material-write_material big_endian before after stone stone_bytes chunk_list (1 ∷ 0 ∷ [])
      before-IsNumbered stone-Covers (omega arith, tt) stone_run after-Resolves

abbrev hair : Dynamics ℕ
hair = record {
  clump_chunk = binary_map;
  section1 =
      record { floats = 1 ∷ 2 ∷ 3 ∷ 4 ∷ []; coord_index = 5; shorts = 6 ∷ 7 ∷ [] }
      ∷ record { floats = 1 ∷ 2 ∷ 3 ∷ 4 ∷ []; coord_index = 6; shorts = 8 ∷ [] }
      ∷ [];
  section2 =
      record {
        floats = 1 ∷ 2 ∷ 3 ∷ 4 ∷ 5 ∷ 6 ∷ [];
        coord_index = 7;
        negative_unk = negsuc 0;
        unk_short_tuples = (1 ∷ 2 ∷ []) ∷ [] ∷ [];
      }
      ∷ [];
}

abbrev hair_bytes : Bytes
hair_bytes = bytes_of (write_dynamics big_endian before hair)

hair_run : write_dynamics big_endian before hair ≡ ok (after, hair_bytes)
unfolding write_dynamics big_endian Dict.get_or_next lookup Text-discrete ChunkMap-discrete
hair_run = refl

read_dynamics-write_dynamics_example :
    (b : BrDynamics ℕ) × Decodes (ok hair_bytes) (read_dynamics big_endian) b
    × (init_dynamics chunk_list (1 ∷ 0 ∷ []) b ≡ ok hair)
read_dynamics-write_dynamics_example =
    read_dynamics-write_dynamics big_endian before after hair hair_bytes chunk_list (1 ∷ 0 ∷ [])
      before-IsNumbered
      (record { section1_sizes = (refl, (refl, tt)); section2_sizes = (refl, tt) }) hair_run
      after-Resolves
