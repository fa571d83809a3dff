-- ===== src/Page/Frames.antt =====
-- What BrPage writes: one frame for each chunk, whose index names the chunk in the page's dictionary.
use xfbin_lib.Base.{
  ℕ, ◌≤◌, ◌≡◌, refl, sym, ap, append-nil, List, [], ◌∷◌, ◌++◌, append_assoc, ok, >>=-ok_elim,
  ok_injective, some, get_elem?, length, length-append, arith,
}
use xfbin_lib.Binary.{Bytes, BinaryReader, Decodes}
use xfbin_lib.Binary.Rules.{Decodes-bind, Decodes-map, Decodes_of_ok, <+>-eq-ok}
use xfbin_lib.Dict.{keys, get_or_next}
use xfbin_lib.Dict.Numbering.{IsNumbered, get_or_next-IsNumbered, get_elem?-get_or_next}
use xfbin_lib.Dict.Growth.{Grows, Grows-refl, Grows-trans, get_or_next-Grows, get_elem?-Grows}
use xfbin_lib.Chunk.{ChunkMap, ChunkMap-discrete}
use xfbin_lib.Page.Types.{BrChunk}
use xfbin_lib.Page.Write.{PageDict, Body, null_body, write_frame, write_br_chunk}
use xfbin_lib.Page.Read.{read_br_chunk}
use mathlib.Core.Path.{subst}

-- A chunk as it stands in a page: what it is, its index in the page, and its data.
pub record Frame : Type 0 where
  pub chunk_map : ChunkMap
  pub index : ℕ
  pub payload : Bytes

abbrev pub raw : Frame → BrChunk
raw f = record { chunk_map_index = f.index; content = f.payload }

-- A body keeps the dictionary numbered and only adds to it.
pub record Keeps (body : Body) : Type 0 where
  pub numbered :
      (d d' : PageDict) (bs : Bytes) → body d ≡ ok (d', bs) → IsNumbered d → IsNumbered d'
  pub grows : (d d' : PageDict) (bs : Bytes) → body d ≡ ok (d', bs) → Grows d d'

abbrev dict_of : PageDict × Bytes → PageDict
dict_of r = r.0

pub null_body-Keeps : Keeps null_body
null_body-Keeps = record {
  numbered = λ d d' bs h n. subst IsNumbered (ap dict_of (ok_injective h)) n;
  grows = λ d d' bs h. subst (Grows d) (ap dict_of (ok_injective h)) (Grows-refl d);
}

module _ {Float : Type 0} (io : BinaryReader Float) where
  open io use {uint32_reads, uint16_reads, bytes_read, uint32_size}

  pub write_frame_reads :
      (i : ℕ) (payload : Bytes)
      → Decodes
          (write_frame io i payload)
          (read_br_chunk io)
          (record { chunk_map_index = i; content = payload })
  unfolding write_frame read_br_chunk
  write_frame_reads i payload = Decodes-bind _ _ (uint32_reads _) (
      Decodes-bind _ i (uint32_reads i) (
        Decodes-bind _ _ (uint16_reads _)
          (Decodes-bind _ _ (uint16_reads _) (Decodes-map _ payload (bytes_read payload)))))

  pub write_frame_size :
      (i : ℕ) (payload bs : Bytes) → write_frame io i payload ≡ ok bs → 1 ≤ length bs
  unfolding write_frame
  write_frame_size i payload bs h =
      let (xs, ys, hx, hy, e) = <+>-eq-ok _ _ bs h in
      rw (e, length-append) (omega (arith, uint32_size _ xs hx))

  -- Bytes that are read as these frames, one after another.
  pub data Stream : List Frame → Bytes → Type 0 where
    done : Stream [] []
    next :
        {f : Frame} {fs : List Frame} {bs rest : Bytes}
        → Decodes (ok bs) (read_br_chunk io) (raw f)
        → 1 ≤ length bs
        → Stream fs rest
        → Stream (f ∷ fs) (bs ++ rest)

  pub length-Stream : {fs : List Frame} {bs : Bytes} → Stream fs bs → length fs ≤ length bs
  length-Stream done = omega arith
  length-Stream (next {bs = bs} {rest = rest} d h s) =
      omega (arith, length-append bs rest, length-Stream s)

  pub Stream-append :
      {fs gs : List Frame} {xs ys : Bytes}
      → Stream fs xs
      → Stream gs ys
      → Stream (fs ++ gs) (xs ++ ys)
  Stream-append done t = t
  Stream-append {ys = ys} (next {f} {fs} {bs} {rest} d h s) t =
      subst (Stream _) (sym (append_assoc bs rest ys)) (next d h (Stream-append s t))

  -- One BrChunk: its index is the place of the chunk in the dictionary.
  pub record Framed (m : ChunkMap) (body : Body) (d : PageDict) (r : PageDict × Bytes)
      : Type 0 where
    pub frame : Frame
    pub is_chunk : frame.chunk_map ≡ m
    pub before : PageDict
    pub before_numbered : IsNumbered before
    pub wrote : body before ≡ ok (r.0, frame.payload)
    pub numbered : IsNumbered r.0
    pub grows : Grows d r.0
    pub has_chunk : Grows (get_or_next ChunkMap-discrete d m).0 r.0
    pub placed : get_elem? (keys r.0) frame.index ≡ some frame.chunk_map
    pub stream : Stream (frame ∷ []) r.1

  -- Where the body of a chunk keeps a dictionary numbered and only adds to it, a BrChunk that is written with
  -- a numbered dictionary reads back as a frame with the chunk's data, its index is the place of the chunk in
  -- the dictionary that is left, and that dictionary is numbered and begins with the old one.
  pub write_br_chunk-Framed :
      (m : ChunkMap) (body : Body) (d : PageDict) (r : PageDict × Bytes)
      → Keeps body
      → IsNumbered d
      → write_br_chunk io m body d ≡ ok r
      → Framed m body d r
  unfolding write_br_chunk
  write_br_chunk-Framed m body d r k n h =
      let d₁ = (get_or_next ChunkMap-discrete d m).0 in
      let i = (get_or_next ChunkMap-discrete d m).1 in
      let n₁ = get_or_next-IsNumbered ChunkMap-discrete d m n in
      >>=-ok_elim (Framed m body d r) (body d₁) _ h λ (d₂, payload) hb h₁.
        >>=-ok_elim (Framed m body d r) (write_frame io i payload) _ h₁ λ bs hf h₂.
          let g = k.grows d₁ d₂ payload hb in
          subst (Framed m body d) (ok_injective h₂) (record {
            frame = record { chunk_map = m; index = i; payload = payload };
            is_chunk = refl;
            before = d₁;
            before_numbered = n₁;
            wrote = hb;
            numbered = k.numbered d₁ d₂ payload hb n₁;
            grows = Grows-trans (get_or_next-Grows ChunkMap-discrete d m) g;
            has_chunk = g;
            placed = get_elem?-Grows i g (get_elem?-get_or_next ChunkMap-discrete d m n);
            stream = subst (Stream _) (append-nil bs) (
                next (Decodes_of_ok (write_frame_reads i payload) hf)
                  (write_frame_size i payload bs hf) done);
          })
