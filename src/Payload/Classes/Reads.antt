-- ===== src/Payload/Classes/Reads.antt =====
-- Every class reads what it writes, and what `init_data` makes of it.
use xfbin_lib.Base.{ℕ, ◌≡◌, ap, ◌∙◌, List, All, Result, ok, map_ok, map_ok-ok}
use xfbin_lib.Binary.{Bytes, BinaryReader}
use xfbin_lib.Dict.{IterativeDict}
use xfbin_lib.Chunk.{ChunkMap}
use xfbin_lib.Payload.Types.{Seen}
use xfbin_lib.Payload.Clump.Ready.{IsReady}
use xfbin_lib.Payload.References.{Numbers, Numbers-refl}
use xfbin_lib.Payload.Coord.{IsSpatial, write_coord}
use xfbin_lib.Payload.Material.Reads.{IsShort, Covers, as_written, write_material-Numbers}
use xfbin_lib.Payload.Dynamics.Reads.{HasSizes, write_dynamics-Numbers}
use xfbin_lib.Payload.Clump.{chunks_of}
use xfbin_lib.Payload.Clump.Groups.{IsSmall}
use xfbin_lib.Payload.Clump.Reads.{write_clump-Numbers}
use xfbin_lib.Payload.Nut.{NutTexture}
use xfbin_lib.Payload.Texture.{first_or_zero, parse_nut, write_texture}
use xfbin_lib.Payload.Classes.{Payload, texture, dynamics, clump, material, coord, write_payload}
use mathlib.Core.List.{Nodup}
use mathlib.Core.Path.{subst}

-- What a payload must be to be read back: the numbers of floats that the class reads, and counts that fit.
abbrev pub IsWellFormed : {F : Type 0} → Payload F → Type 0
IsWellFormed (texture t) = Unit {0}
IsWellFormed (dynamics y) = HasSizes y
IsWellFormed (clump c) = Nodup (chunks_of c.coords) × All IsSmall c.model_groups
IsWellFormed (material m) = Covers m × All IsShort m.texture_groups
IsWellFormed (coord c) = IsSpatial c

-- The objects that `init_data` looks at have been read, where the payload is a clump.
abbrev pub IsReadyFor : {F : Type 0} → List Seen → Payload F → Type 0
IsReadyFor chunk_list (texture t) = Unit {0}
IsReadyFor chunk_list (dynamics y) = Unit {0}
IsReadyFor chunk_list (clump c) = IsReady chunk_list c
IsReadyFor chunk_list (material m) = Unit {0}
IsReadyFor chunk_list (coord c) = Unit {0}

module _ {Float : Type 0} (io : BinaryReader Float) where
  -- What a payload comes back as: a texture has the width of its NUT for both sizes, a clump its first model
  -- flag for both, a material the format and the floats that were written.
  abbrev pub ReadsAs : Payload Float → Payload Float → Type 0
  ReadsAs (texture t) q =
      (width : ℕ) × (map_ok (λ nut. first_or_zero (λ (x : NutTexture). x.width) nut.textures)
          (parse_nut io t.file_data)
        ≡ ok width)
      × (q ≡ texture (record { width = width; height = width; file_data = t.file_data }))
  ReadsAs (dynamics y) q = q ≡ dynamics y
  ReadsAs (clump c) q = q ≡ clump (record c { model_flag1 = c.model_flag0 })
  ReadsAs (material m) q = q ≡ material (as_written m)
  ReadsAs (coord c) q = q ≡ coord c

  -- A class that refers to no chunks leaves the dictionary as it is.
  same_dict :
      (w : Result Bytes) (d d' : IterativeDict ChunkMap) (bs : Bytes)
      → map_ok {B = IterativeDict ChunkMap × Bytes} (λ xs. (d, xs)) w ≡ ok (d', bs)
      → (w ≡ ok bs) × (d ≡ d')
  same_dict w d d' bs h =
      let (ys, hy, e) = map_ok-ok _ w (d', bs) h in (hy ∙ ap (λ x. ok x.1) e, ap (λ x. x.0) e)

  -- Writing a payload of one of the five classes keeps a numbered dictionary numbered, and the dictionary begins
  -- with the entries that it had.
  pub write_payload-Numbers :
      (d d' : IterativeDict ChunkMap) (p : Payload Float) (bs : Bytes)
      → write_payload io d p ≡ ok (d', bs)
      → Numbers d d'
  unfolding write_payload
  write_payload-Numbers d d' (texture t) bs h =
      subst (Numbers d) (same_dict (write_texture io t) d d' bs h).1 (Numbers-refl d)
  write_payload-Numbers d d' (dynamics y) bs h = write_dynamics-Numbers io d d' y bs h
  write_payload-Numbers d d' (clump c) bs h = write_clump-Numbers io d d' c bs h
  write_payload-Numbers d d' (material m) bs h = write_material-Numbers io d d' m bs h
  write_payload-Numbers d d' (coord c) bs h =
      subst (Numbers d) (same_dict (write_coord io c) d d' bs h).1 (Numbers-refl d)
