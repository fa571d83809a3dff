-- ===== src/File/Objects/Written.antt =====
-- `init_data` of the five payload classes on what was written of an object (xfbin/structure/nucc.py).
use xfbin_lib.Base.{◌≡◌, true, some}
use xfbin_lib.Chunk.{NuccChunk}
use xfbin_lib.Payload.Classes.{Payload, payload_class}
use xfbin_lib.Payload.Classes.Reads.{IsWellFormed}
use xfbin_lib.Payload.Attributes.{Attributes, object}

-- A chunk of one of the five classes, with the attributes of that class.
pub record HoldsPayload {F P : Type 0} (c : NuccChunk (Attributes F P)) : Type 0 where
  pub payload : Payload F
  pub has_props : c.has_props ≡ true
  pub holds : c.props ≡ some (object payload)
  pub named : c.chunk_map.type_name ≡ payload_class payload
  pub formed : IsWellFormed payload
