-- ===== src/Examples/Body.antt =====
-- A clump with two coords, a model and a billboard, and the objects of its page.
use xfbin_lib.Base.{ℕ, ◌≡◌, refl, true, [], ◌∷◌, List, ok, some, none, Option}
use xfbin_lib.Base.Int.{ℤ, pos, negsuc}
use xfbin_lib.Binary.{Bytes}
use xfbin_lib.Binary.BigEndian.{big_endian}
use xfbin_lib.Dict
use xfbin_lib.Dict.{IterativeDict}
use xfbin_lib.Dict.Growth.{index_of}
use xfbin_lib.Chunk.{
  ChunkMap, ChunkMap-discrete, Text-discrete, NuccChunk, codes, null_map, index_map, text_eq,
  is_instance,
}
use xfbin_lib.Page.Write.{PageWritten}
use xfbin_lib.Page.Frames.{Frame}
use xfbin_lib.File.Objects.Payloads.{see}
use xfbin_lib.Page.Types.{BrNuccChunk}
use xfbin_lib.Payload.Types.{ModelGroup, Clump, Coord, Seen}
use xfbin_lib.Payload.References.{Numbers, get_or_next_each}
use xfbin_lib.Payload.Clump.{write_clump}
use xfbin_lib.Payload.Clump.Clear.{Cleared, clear_non_model_chunks, clear_non_model_chunks-Cleared}
use xfbin_lib.Payload.Classes.{Payload, clump, coord, BrPayload, write_payload}
use xfbin_lib.Payload.Classes.Reads.{write_payload-Numbers}
use xfbin_lib.Payload.Attributes.{Attributes, object, struct, other}
use xfbin_lib.Examples.Payloads.{before, bytes_of}
use mathlib.Core.Logic.Or
use mathlib.Core.Option
use mathlib.Core.List.{lookup}

abbrev root_map : ChunkMap
root_map = record { type_name = codes "NuccChunkCoord"; file_path = []; name = codes "r" }

abbrev hip_map : ChunkMap
hip_map = record { type_name = codes "NuccChunkCoord"; file_path = []; name = codes "hi" }

abbrev torso_map : ChunkMap
torso_map = record { type_name = codes "NuccChunkModel"; file_path = []; name = codes "tor" }

abbrev board_map : ChunkMap
board_map = record { type_name = codes "NuccChunkBillboard"; file_path = []; name = codes "boar" }

abbrev body_map : ChunkMap
body_map = record { type_name = codes "NuccChunkClump"; file_path = []; name = codes "body2" }

abbrev group : ModelGroup (Option ChunkMap)
group = record { flag0 = 1; flag1 = 2; unk = negsuc 4; models = none ∷ some torso_map ∷ [] }

-- The node of the root is the parent of that of the hip.
abbrev pub body : Clump
body = record {
  field00 = 1;
  coord_flag0 = 2;
  coord_flag1 = 3;
  model_flag0 = 4;
  model_flag1 = 5;
  coords =
      record { chunk = root_map; parent = none }
      ∷ record { chunk = hip_map; parent = some root_map }
      ∷ [];
  models = torso_map ∷ board_map ∷ [];
  model_groups = group ∷ [];
}

abbrev after : IterativeDict ChunkMap
after = record {
  items = (null_map, 0) ∷ (root_map, 1) ∷ (hip_map, 2) ∷ (torso_map, 3) ∷ (board_map, 4) ∷ [];
  index = 5;
}

abbrev body_bytes : Bytes
body_bytes = bytes_of (write_clump big_endian before body)

body_run : write_clump big_endian before body ≡ ok (after, body_bytes)
unfolding write_clump big_endian Dict.get_or_next Dict.update_or_next Dict.init lookup Text-discrete
    ChunkMap-discrete index_of get_or_next_each
body_run = refl

abbrev node : Coord ℕ
node = record {
  position = 0 ∷ 0 ∷ 0 ∷ [];
  rotation = 0 ∷ 0 ∷ 0 ∷ [];
  scale = 1 ∷ 1 ∷ 1 ∷ [];
  unk_float = 1;
  unk_short = 0;
}

abbrev object_of : ChunkMap → Option (Attributes ℕ Bytes) → NuccChunk (Attributes ℕ Bytes)
object_of m props = record {
  chunk_map = m;
  extension = [];
  content = none;
  file_data = none;
  has_data = true;
  has_props = true;
  chunks = [];
  props = props;
}

-- The objects of the page, where the coords and the model have been read.
abbrev store : List (NuccChunk (Attributes ℕ Bytes))
store =
    object_of null_map none
    ∷ object_of root_map (some (object (coord node)))
    ∷ object_of hip_map (some (object (coord node)))
    ∷ object_of torso_map (some (other []))
    ∷ object_of board_map none
    ∷ object_of index_map none
    ∷ object_of body_map none
    ∷ []

abbrev mesh_bone : Bytes → Option ℤ
mesh_bone bs = some (pos 1)

abbrev seen : List Seen
seen = see mesh_bone store

abbrev places : List ℕ
places = 0 ∷ 1 ∷ 2 ∷ 3 ∷ 4 ∷ []

write_payload_run : write_payload big_endian before (clump body) ≡ ok (after, body_bytes)
unfolding write_payload
write_payload_run = body_run

write_payload-Numbers_example : Numbers before after
write_payload-Numbers_example =
    write_payload-Numbers big_endian before after (clump body) body_bytes write_payload_run

-- A chunk object with the clump as its attributes; other classes keep their bytes.
abbrev body_chunk : NuccChunk (Attributes ℕ Bytes)
body_chunk = object_of body_map (some (object (clump body)))

clear_non_model_chunks-Cleared_example :
    Cleared true body (clear_non_model_chunks true true true body)
clear_non_model_chunks-Cleared_example = clear_non_model_chunks-Cleared true body

cleared_count : (clear_non_model_chunks true true true body).1 ≡ 2
unfolding clear_non_model_chunks is_instance text_eq Text-discrete
cleared_count = refl

-- The page and the frame that the clump is written to, and the entry that is read.
abbrev body_written : PageWritten
body_written = record { index_dict = after; references = []; bytes = [] }

abbrev body_frame : Frame
body_frame = record { chunk_map = body_map; index = 5; payload = body_bytes }

abbrev body_entry : BrPayload ℕ → ℕ × BrNuccChunk (Attributes ℕ Bytes)
body_entry b = (5, record { chunk_map = body_map; content = body_bytes; props = struct b })

abbrev page_places : List ℕ
page_places = 0 ∷ 1 ∷ 2 ∷ 3 ∷ 4 ∷ 5 ∷ []
