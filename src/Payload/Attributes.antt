-- ===== src/Payload/Attributes.antt =====
-- The five classes as an instance of the interface that BrPage is written against; every other class is
-- left to the instance that is given.
use xfbin_lib.Base.{◌≡◌, ap, true, Option, some, none, Result, ok, raise, wrong_type, map_ok}
use xfbin_lib.Binary.{Bytes, BinaryReader}
use xfbin_lib.Chunk.{ClassName, NuccChunk, text_eq}
use xfbin_lib.Page.Types.{ChunkClasses}
use xfbin_lib.Page.Write.{PageDict, chunk_body}
use xfbin_lib.Payload.Classes.{Payload, BrPayload, write_payload, read_payload}
use xfbin_lib.Payload.References.{Numbers}
use xfbin_lib.Payload.Classes.Reads.{write_payload-Numbers}

-- The attributes of an object, the fields of a struct that was read, or those of another class.
pub data Attributes (F P : Type 0) : Type 0 where
  object : Payload F → Attributes F P
  struct : BrPayload F → Attributes F P
  other : P → Attributes F P

module _ {F P : Type 0} where
  -- The chunk, seen by the instance for the other classes.
  abbrev pub with_props : NuccChunk (Attributes F P) → Option P → NuccChunk P
  with_props c props = record {
    chunk_map = c.chunk_map;
    extension = c.extension;
    content = c.content;
    file_data = c.file_data;
    has_data = c.has_data;
    has_props = c.has_props;
    chunks = c.chunks;
    props = props;
  }

module _ {Float : Type 0} (io : BinaryReader Float) {P : Type 0} (others : ChunkClasses P) where
  unfoldable pub write_by_class :
      NuccChunk (Attributes Float P)
      → Option (Attributes Float P)
      → PageDict
      → Result (PageDict × Bytes)
  write_by_class c none d = others.write_props (with_props c none) d
  write_by_class c (some (object p)) d = write_payload io d p
  write_by_class c (some (struct b)) d = raise wrong_type
  write_by_class c (some (other q)) d = others.write_props (with_props c (some q)) d

  unfoldable pub write_attributes :
      NuccChunk (Attributes Float P) → PageDict → Result (PageDict × Bytes)
  unfolding write_by_class
  write_attributes c d = write_by_class c c.props d

  -- The struct of one of the five classes, or what the instance for the others reads.
  unfoldable pub read_attributes : ClassName → Bytes → Result (Attributes Float P)
  read_attributes cls bytes = elim (read_payload io cls bytes) [
    | some r ↦ map_ok struct r
    | none ↦ map_ok other (others.read_props cls bytes)
  ]

  pub write_by_class-Numbers :
      (c : NuccChunk (Attributes Float P)) (props : Option (Attributes Float P)) (d d' : PageDict)
      (bs : Bytes)
      → write_by_class c props d ≡ ok (d', bs)
      → Numbers d d'
  unfolding write_by_class
  write_by_class-Numbers c none d d' bs h = record {
    numbered = others.write_props-IsNumbered (with_props c none) d d' bs h;
    grows = others.write_props-Grows (with_props c none) d d' bs h;
  }
  write_by_class-Numbers c (some (object p)) d d' bs h = write_payload-Numbers io d d' p bs h
  write_by_class-Numbers c (some (struct b)) d d' bs h = cc
  write_by_class-Numbers c (some (other q)) d d' bs h = record {
    numbered = others.write_props-IsNumbered (with_props c (some q)) d d' bs h;
    grows = others.write_props-Grows (with_props c (some q)) d d' bs h;
  }

  -- `BrNuccChunk.__br_write__` and `init_data`, by the class.
  unfoldable pub with_payloads : ChunkClasses (Attributes Float P)
  unfolding write_attributes read_attributes read_payload text_eq
  with_payloads = record {
    write_props = write_attributes;
    read_props = read_attributes;
    write_props-IsNumbered = λ c d d' bs h. (write_by_class-Numbers c c.props d d' bs h).numbered;
    write_props-Grows = λ c d d' bs h. (write_by_class-Numbers c c.props d d' bs h).grows;
    null_reads = λ bs. let (q, h) = others.null_reads bs in (other q, ap (map_ok other) h);
    page_reads = λ bs. let (q, h) = others.page_reads bs in (other q, ap (map_ok other) h);
  }

  pub chunk_body-write_payload :
      (c : NuccChunk (Attributes Float P)) (p : Payload Float) (d d' : PageDict) (bs : Bytes)
      → c.has_props ≡ true
      → c.props ≡ some (object p)
      → chunk_body io with_payloads c d ≡ ok (d', bs)
      → write_payload io d p ≡ ok (d', bs)
  unfolding chunk_body with_payloads write_attributes write_by_class
  chunk_body-write_payload c p d d' bs has holds h = rw (has, holds) at h
