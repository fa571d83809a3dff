-- ===== src/Payload/Coord.antt =====
-- BrNuccChunkCoord (xfbin/structure/br/br_nucc.py), and the node that a NuccChunkCoord makes of it.
use xfbin_lib.Base.{◌≡◌, length, Result}
use xfbin_lib.Binary.{Bytes, Reader, ◌>>=◌, pure, ◌<+>◌, BinaryReader, Decodes}
use xfbin_lib.Binary.Rules.{Decodes-bind, Decodes-map}
use xfbin_lib.Binary.Sequence.{write_each, read_n, Decodes-count}
use xfbin_lib.Payload.Types.{Coord}

-- The vectors have three numbers each.
pub record IsSpatial {F : Type 0} (node : Coord F) : Type 0 where
  pub position_size : length node.position ≡ 3
  pub rotation_size : length node.rotation ≡ 3
  pub scale_size : length node.scale ≡ 3

module _ {Float : Type 0} (io : BinaryReader Float) where
  open io use {write_float, write_uint16, read_float, read_uint16, float_reads, uint16_reads}

  -- BrNuccChunkCoord.__br_write__
  unfoldable pub write_coord : Coord Float → Result Bytes
  write_coord node =
      write_each write_float node.position
      <+> write_each write_float node.rotation
      <+> write_each write_float node.scale
      <+> write_float node.unk_float
      <+> write_uint16 node.unk_short

  -- BrNuccChunkCoord.init_data, and CoordNode.init_data
  unfoldable pub read_coord : Reader (Coord Float)
  read_coord = do
    position ← read_n 3 read_float
    rotation ← read_n 3 read_float
    scale ← read_n 3 read_float
    unk_float ← read_float
    unk_short ← read_uint16
    pure (record {
      position = position;
      rotation = rotation;
      scale = scale;
      unk_float = unk_float;
      unk_short = unk_short;
    })

  -- A node whose position, rotation and scale have three numbers each reads back as it was written, from any
  -- position.
  pub read_coord-write_coord :
      (node : Coord Float) → IsSpatial node → Decodes (write_coord node) (read_coord) node
  unfolding write_coord read_coord
  read_coord-write_coord node s =
      let floats = Decodes-count write_float read_float 3 in
      Decodes-bind _ node.position (floats node.position float_reads s.position_size) (
        Decodes-bind _ node.rotation (floats node.rotation float_reads s.rotation_size) (
          Decodes-bind _ node.scale (floats node.scale float_reads s.scale_size) (
            Decodes-bind _ node.unk_float (float_reads node.unk_float)
              (Decodes-map _ node.unk_short (uint16_reads node.unk_short)))))
