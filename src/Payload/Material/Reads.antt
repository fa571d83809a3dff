-- ===== src/Payload/Material/Reads.antt =====
-- A material reads back as it was written.
use xfbin_lib.Base.{
  ℕ, ◌≤◌, ◌<◌, ◌≡◌, refl, ◌⊎◌, inl, inr, List, [], ◌∷◌, length, take, All, ok, map_result, arith,
  sym, ap, map_ok-ok, ◌∙◌, suc, length-take, take-nil,
}
use xfbin_lib.Binary.{Bytes, BinaryReader, Decodes}
use xfbin_lib.Binary.Rules.{Decodes-bind, Decodes-map, Decodes_of_ok}
use xfbin_lib.Binary.Sequence.{Decodes-list, Decodes-count}
use xfbin_lib.Dict.{IterativeDict}
use xfbin_lib.Dict.Numbering.{IsNumbered}
use xfbin_lib.Chunk.{ChunkMap}
use xfbin_lib.Payload.Types.{TextureGroup, Material}
use xfbin_lib.Payload.References.{
  Numbers, Numbers-refl, Numbers-trans, get_or_next_each, get_or_next_each-Numbers,
  get_or_next_each-Place, get_or_next_each-length, Resolves, Resolves-Grows, map_result-Place,
}
use xfbin_lib.Payload.Material.{
  float_count, written_format, index_groups, init_group, index_material, init_material, write_group,
  read_group, write_br_material, write_material, read_material,
}
use mathlib.Core.Path.{subst}

-- A count that the reader takes for a signed number.
abbrev pub IsShort : {C : Type 0} → TextureGroup C → Type 0
IsShort g = length g.textures < 0x8000

pub index_groups-Numbers :
    (d : IterativeDict ChunkMap) (gs : List (TextureGroup ChunkMap))
    → Numbers d (index_groups d gs).0
unfolding index_groups
index_groups-Numbers d [] = Numbers-refl d
index_groups-Numbers d (g ∷ gs) =
    Numbers-trans (get_or_next_each-Numbers d g.textures)
      (index_groups-Numbers (get_or_next_each d g.textures).0 gs)

-- The groups that are indexed are initialized to the groups that they come from.
pub init_group-index_groups :
    (d : IterativeDict ChunkMap) (gs : List (TextureGroup ChunkMap)) (chunk_list : List ChunkMap)
    (chunk_indices : List ℕ)
    → IsNumbered d
    → Resolves (index_groups d gs).0 chunk_list chunk_indices
    → map_result (init_group chunk_list chunk_indices) (index_groups d gs).1 ≡ ok gs
unfolding index_groups init_group
init_group-index_groups d [] chunk_list chunk_indices n r = refl
init_group-index_groups d (g ∷ gs) chunk_list chunk_indices n r =
    let d₁ = (get_or_next_each d g.textures).0 in
    let step = get_or_next_each-Numbers d g.textures in
    let rest = index_groups-Numbers d₁ gs in
    rw (
      map_result-Place chunk_list chunk_indices g.textures (get_or_next_each d g.textures).1
          (Resolves-Grows rest.grows r) (get_or_next_each-Place d g.textures n),
      init_group-index_groups d₁ gs chunk_list chunk_indices (step.numbered n) r,
    )

pub index_groups-IsShort :
    (d : IterativeDict ChunkMap) (gs : List (TextureGroup ChunkMap))
    → All IsShort gs
    → All IsShort (index_groups d gs).1
unfolding index_groups
index_groups-IsShort d [] h = tt
index_groups-IsShort d (g ∷ gs) (h, hs) = (
  omega (arith, h, get_or_next_each-length d g.textures),
  index_groups-IsShort (get_or_next_each d g.textures).0 gs hs,
)

pub length-index_groups :
    (d : IterativeDict ChunkMap) (gs : List (TextureGroup ChunkMap))
    → length (index_groups d gs).1 ≡ length gs
unfolding index_groups
length-index_groups d [] = refl
length-index_groups d (g ∷ gs) = ap suc (length-index_groups (get_or_next_each d g.textures).0 gs)

-- The floats are none, or as many as the format asks for, or more.
abbrev pub Covers : {F C : Type 0} → Material F C → Type 0
Covers m = (m.floats ≡ []) ⊎ (float_count m.format ≤ length m.floats)

-- The material with the format and the floats that are written.
abbrev pub as_written : {F C : Type 0} → Material F C → Material F C
as_written m = record m { format = written_format m; floats = take (float_count m.format) m.floats }

floats_count :
    {F : Type 0} (format : ℕ) (floats : List F)
    → (floats ≡ []) ⊎ (float_count format ≤ length floats)
    → length (take (float_count format) floats)
      ≡ float_count (elim floats [ [] ↦ 0 | ◌∷◌ _ _ ↦ format ])
unfolding float_count
floats_count format [] h = rw (take-nil (float_count format)) refl
floats_count format (x ∷ xs) (inl e) = absurd (omega (arith, ap length e))
floats_count format (x ∷ xs) (inr h) = length-take (float_count format) (x ∷ xs) h

floats_read :
    {F C : Type 0} (m : Material F C)
    → Covers m
    → length (take (float_count m.format) m.floats) ≡ float_count (written_format m)
floats_read m h = floats_count m.format m.floats h

module _ {Float : Type 0} (io : BinaryReader Float) where
  open io use {
    write_uint8, write_uint16, write_uint32, write_int32, write_float, read_uint8, read_uint16,
    read_uint32, read_int16, read_int32, read_float, uint8_reads, uint16_reads, uint32_reads,
    int32_reads, float_reads, uint16_reads_signed,
  }

  read_group-write_group :
      (g : TextureGroup ℕ) → IsShort g → Decodes (write_group io g) (read_group io) g
  unfolding write_group read_group
  read_group-write_group g h = Decodes-bind _ _ (uint16_reads_signed (length g.textures) h) (
      Decodes-bind _ 0 (uint16_reads 0) (
        Decodes-bind _ g.unk (int32_reads g.unk) (
          Decodes-map _ g.textures
            (Decodes-count write_uint32 read_uint32 _ g.textures uint32_reads refl))))

  groups_read :
      (gs : List (TextureGroup ℕ))
      → All IsShort gs
      → All (λ g. Decodes (write_group io g) (read_group io) g) gs
  groups_read [] h = tt
  groups_read (g ∷ gs) (h, hs) = (read_group-write_group g h, groups_read gs hs)

  read_br_material :
      (m : Material Float ℕ)
      → Covers m
      → All IsShort m.texture_groups
      → Decodes (write_br_material io m) (read_material io) (as_written m)
  unfolding write_br_material read_material
  read_br_material m c s = Decodes-bind _ (length m.texture_groups) (uint16_reads _) (
      Decodes-bind _ m.field02 (uint8_reads _) (
        Decodes-bind _ 0 (uint8_reads 0) (
          Decodes-bind _ m.field04 (float_reads _) (
            Decodes-bind _ (0 ∷ 0 ∷ 0 ∷ [])
              (Decodes-count write_uint8 read_uint8 3 _ uint8_reads refl)
              (Decodes-bind _ (written_format m) (uint8_reads _) (
                Decodes-bind _ _
                  (Decodes-count write_float read_float _ _ float_reads (floats_read m c))
                  (Decodes-map _ _ (
                    Decodes-list (write_group io) (read_group io) m.texture_groups
                      (groups_read m.texture_groups s)))))))))

  -- What was written reads, whatever the dictionary.
  pub material_reads :
      (d d' : IterativeDict ChunkMap) (m : Material Float ChunkMap) (bs : Bytes)
      → Covers m
      → All IsShort m.texture_groups
      → write_material io d m ≡ ok (d', bs)
      → Decodes (ok bs) (read_material io) (as_written (index_material d m).1)
  unfolding write_material index_material
  material_reads d d' m bs c s h =
      let (ys, hy, e) = map_ok-ok _ (write_br_material io (index_material d m).1) (d', bs) h in
      Decodes_of_ok
        (read_br_material (index_material d m).1 c (index_groups-IsShort d m.texture_groups s))
        (hy ∙ ap (λ q. ok q.1) e)

  material_dict :
      (d d' : IterativeDict ChunkMap) (m : Material Float ChunkMap) (bs : Bytes)
      → write_material io d m ≡ ok (d', bs)
      → (index_groups d m.texture_groups).0 ≡ d'
  unfolding write_material index_material
  material_dict d d' m bs h =
      let (ys, hy, e) = map_ok-ok _ (write_br_material io (index_material d m).1) (d', bs) h in
      ap (λ q. q.0) e

  pub write_material-Numbers :
      (d d' : IterativeDict ChunkMap) (m : Material Float ChunkMap) (bs : Bytes)
      → write_material io d m ≡ ok (d', bs)
      → Numbers d d'
  write_material-Numbers d d' m bs h =
      subst (Numbers d) (material_dict d d' m bs h) (index_groups-Numbers d m.texture_groups)

  -- Where a material has no floats, or as many as its format asks for or more, and no group has 0x8000 textures
  -- or more, a material that is written with a numbered dictionary reads back to its last byte, from any
  -- position; and where the chunks of the page resolve the places of the dictionary that is left, `init_data`
  -- gives the material back, with the floats cut to the count of its format, and format 0 where it has none.
  pub read_material-write_material :
      (d d' : IterativeDict ChunkMap) (m : Material Float ChunkMap) (bs : Bytes)
      (chunk_list : List ChunkMap) (chunk_indices : List ℕ)
      → IsNumbered d
      → Covers m
      → All IsShort m.texture_groups
      → write_material io d m ≡ ok (d', bs)
      → Resolves d' chunk_list chunk_indices
      → (b : Material Float ℕ) × Decodes (ok bs) (read_material io) b
        × (init_material chunk_list chunk_indices b ≡ ok (as_written m))
  unfolding index_material init_material
  read_material-write_material d d' m bs chunk_list chunk_indices n c s h r = (
    as_written (index_material d m).1,
    material_reads d d' m bs c s h,
    rw (
        init_group-index_groups d m.texture_groups chunk_list chunk_indices n
          (subst (λ x. Resolves x chunk_list chunk_indices) (sym (material_dict d d' m bs h)) r)),
  )
