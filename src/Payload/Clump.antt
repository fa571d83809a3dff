-- ===== src/Payload/Clump.antt =====
-- BrNuccChunkClump and BrClumpModelGroup (xfbin/structure/br/br_nucc.py).
pub mod Init
pub mod Ready
pub mod Indices
pub mod Groups
pub mod Reads
pub mod Clear
use xfbin_lib.Base.{
  ℕ, zero, suc, ◌≡◌, Bool, true, false, if◌then◌else◌, List, [], ◌∷◌, length, map, Option, none,
  some, Result, ok, raise, stuck, map_ok, map_result,
}
use xfbin_lib.Base
use xfbin_lib.Base.Int.{ℤ, pos, negsuc, ◌==ℤ◌}
use xfbin_lib.Binary.{Bytes, Cursor, Reader, ◌>>=◌, pure, fail, ◌<+>◌, BinaryReader}
use xfbin_lib.Binary.Sequence.{write_each, read_n}
use xfbin_lib.Dict
use xfbin_lib.Dict.{IterativeDict, get_or_next, update_or_next}
use xfbin_lib.Dict.Growth.{index_of}
use xfbin_lib.Chunk.{ChunkMap, ChunkMap-discrete}
use xfbin_lib.Payload.Types.{ModelGroup, BrModelGroup, ClumpCoord, Clump, BrClump}
use xfbin_lib.Payload.References.{get_or_next_each}

-- `chunkIndexDict.get_or_next(x) if x else -1`
unfoldable pub index_model : IterativeDict ChunkMap → Option ChunkMap → IterativeDict ChunkMap × ℤ
index_model d none = (d, negsuc 0)
index_model d (some c) = let r = get_or_next ChunkMap-discrete d c in (r.0, pos r.1)

unfoldable pub index_models :
    IterativeDict ChunkMap → List (Option ChunkMap) → IterativeDict ChunkMap × List ℤ
unfolding index_model
index_models d [] = (d, [])
index_models d (x ∷ xs) = let r = index_model d x in let s = index_models r.0 xs in (s.0, r.1 ∷ s.1)

unfoldable pub index_model_groups :
    IterativeDict ChunkMap
    → List (ModelGroup (Option ChunkMap))
    → IterativeDict ChunkMap × List (ModelGroup ℤ)
unfolding index_models
index_model_groups d [] = (d, [])
index_model_groups d (g ∷ gs) =
    let r = index_models d g.models in
    let s = index_model_groups r.0 gs in
    (s.0, record { flag0 = g.flag0; flag1 = g.flag1; unk = g.unk; models = r.1 } ∷ s.1)

-- `coord_chunks_dict[coord.node.parent.chunk] if coord.node.parent else -1`
unfoldable pub parent_index : IterativeDict ChunkMap → Option ChunkMap → Result ℤ
unfolding index_of
parent_index locals none = ok (negsuc 0)
parent_index locals (some p) = map_ok pos (index_of ChunkMap-discrete locals p)

-- What is written for each coord, in order.
abbrev pub parent_indices : IterativeDict ChunkMap → List ClumpCoord → Result (List ℤ)
parent_indices locals coords = map_result (λ (c : ClumpCoord). parent_index locals c.parent) coords

abbrev pub chunks_of : List ClumpCoord → List ChunkMap
chunks_of coords = map (λ (c : ClumpCoord). c.chunk) coords

-- `coord_chunks_dict`, which numbers the coords of the clump.
abbrev pub coord_chunks_dict : List ClumpCoord → IterativeDict ChunkMap
coord_chunks_dict coords = update_or_next ChunkMap-discrete Dict.init (chunks_of coords)

module _ {Float : Type 0} (io : BinaryReader Float) where
  open io use {
    write_uint8, write_uint16, write_uint32, write_int16, write_int32, read_uint8, read_uint16,
    read_uint32, read_int16, read_int32, eof,
  }

  -- BrClumpModelGroup.__br_write__, behind its calls of get_or_next.
  unfoldable pub write_model_group : ModelGroup ℤ → Result Bytes
  write_model_group g =
      write_uint16 (length g.models)
      <+> write_uint8 g.flag0
      <+> write_uint8 g.flag1
      <+> write_int32 g.unk
      <+> write_each write_int32 g.models

  -- BrNuccChunkClump.__br_write__
  unfoldable pub write_clump :
      IterativeDict ChunkMap → Clump → Result (IterativeDict ChunkMap × Bytes)
  unfolding parent_index index_model_groups write_model_group get_or_next_each
  write_clump d chunk =
      let c = get_or_next_each d (chunks_of chunk.coords) in
      let m = get_or_next_each c.0 chunk.models in
      let g = index_model_groups m.0 chunk.model_groups in
      Base.◌>>=◌ (parent_indices (coord_chunks_dict chunk.coords) chunk.coords) (λ parents.
        map_ok (λ bs. (g.0, bs))
          (write_uint32 chunk.field00
            <+> write_uint16 (length chunk.coords)
            <+> write_uint8 chunk.coord_flag0
            <+> write_uint8 chunk.coord_flag1
            <+> write_each write_int16 parents
            <+> write_each write_uint32 c.1
            <+> write_uint16 (length chunk.models)
            <+> write_uint8 chunk.model_flag0
            <+> write_uint8 chunk.model_flag0
            <+> write_uint32 0
            <+> write_each write_uint32 m.1
            <+> write_each write_model_group g.1
            <+> write_int16 (negsuc 0)))

  -- `br.eof()`
  unfoldable pub at_end : Reader Bool
  at_end c = ok (eof c, c)

  -- `modelCount == -1 or br.eof()`
  unfoldable pub is_last : ℤ → Reader Bool
  unfolding at_end
  is_last model_count = if model_count ==ℤ negsuc 0 then pure true else at_end

  -- `for _ in range(modelCount): br.read_int32()`
  unfoldable pub read_models : ℤ → Reader (List ℤ)
  read_models (pos n) = read_n n read_int32
  read_models (negsuc n) = pure []

  -- The statements under `if self.modelCount != -1 and not br.eof()`.
  unfoldable pub read_group_fields : ℤ → Reader (ModelGroup ℤ)
  unfolding read_models
  read_group_fields model_count = do
    flag0 ← read_uint8
    flag1 ← read_uint8
    unk ← read_int32
    models ← read_models model_count
    pure (record { flag0 = flag0; flag1 = flag1; unk = unk; models = models })

  -- BrClumpModelGroup.__br_read__
  unfoldable pub read_model_group : Reader BrModelGroup
  unfolding is_last read_group_fields
  read_model_group = do
    model_count ← read_int16
    last ← is_last model_count
    fields ← (if last then pure none else (read_group_fields model_count >>= λ g. pure (some g)))
    pure (record { model_count = model_count; fields = fields })

  -- `while True`, on fuel.
  unfoldable pub read_groups_loop : ℕ → Reader (List BrModelGroup)
  unfolding read_model_group is_last
  read_groups_loop zero = fail stuck
  read_groups_loop (suc fuel) = do
    group ← read_model_group
    last ← is_last group.model_count
    let rest = read_groups_loop fuel in
        if last then pure [] else (do groups ← rest; pure (group ∷ groups))

  -- A group takes a byte at least, so the bytes that are left are fuel enough.
  unfoldable pub read_groups : Reader (List BrModelGroup)
  unfolding read_groups_loop
  read_groups c = read_groups_loop (suc (length c.rest)) c

  -- BrNuccChunkClump.init_data
  unfoldable pub read_clump : Reader BrClump
  unfolding read_groups
  read_clump = do
    field00 ← read_uint32
    coord_count ← read_uint16
    coord_flag0 ← read_uint8
    coord_flag1 ← read_uint8
    parents ← read_n coord_count read_int16
    coords ← read_n coord_count read_uint32
    model_count ← read_uint16
    model_flag0 ← read_uint8
    model_flag1 ← read_uint8
    padding ← read_uint32
    models ← read_n model_count read_uint32
    groups ← read_groups
    pure (record {
      field00 = field00;
      coord_flag0 = coord_flag0;
      coord_flag1 = coord_flag1;
      model_flag0 = model_flag0;
      model_flag1 = model_flag1;
      coord_parents = parents;
      coord_indices = coords;
      model_indices = models;
      model_groups = groups;
    })
