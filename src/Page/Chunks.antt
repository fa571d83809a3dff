-- ===== src/Page/Chunks.antt =====
-- The loop over the chunks of a page: a frame for each chunk that is kept, in order.
use xfbin_lib.Base.{
  ◌≡◌, ap, Bool, true, false, List, [], ◌∷◌, ◌++◌, ok, >>=-ok_elim, ok_injective, some, get_elem?,
  All, Forall₂, nil, cons, Bool-cases, inl, inr, arith, if◌then◌else◌,
}
use xfbin_lib.Binary.{Bytes, BinaryReader}
use xfbin_lib.Dict.{keys}
use xfbin_lib.Dict.Numbering.{IsNumbered, update_or_next-IsNumbered}
use xfbin_lib.Dict.Growth.{Grows, Grows-refl, Grows-trans, update_or_next-Grows, get_elem?-Grows}
use xfbin_lib.Chunk.{ChunkMap-discrete, NuccChunk, stored_data, page_class, text_eq}
use xfbin_lib.Page.Types.{ChunkClasses}
use xfbin_lib.Page.Write.{
  PageDict, Body, raw_body, page_body, write_page_sizes, chunk_body, is_leftover, write_br_chunk,
  write_chunks,
}
use xfbin_lib.Page.Frames.{Frame, Keeps, Stream, done, Stream-append, Framed, write_br_chunk-Framed}
use xfbin_lib.Table.Types.{ChunkReference}
use mathlib.Core.Path.{subst}

module _ {P : Type 0} where
  -- The chunks that are not skipped.
  abbrev pub kept : List (NuccChunk P) → List (NuccChunk P)
  kept [] = []
  kept (c ∷ cs) = if is_leftover c then kept cs else c ∷ kept cs

  leftover_no_page :
      (c : NuccChunk P) → is_leftover c ≡ false → text_eq c.chunk_map.type_name page_class ≡ false
  unfolding is_leftover
  leftover_no_page c e = ground arith

  -- None of them is a page chunk.
  pub kept_no_page :
      (cs : List (NuccChunk P))
      → All (λ c. text_eq c.chunk_map.type_name page_class ≡ false) (kept cs)
  kept_no_page [] = tt
  kept_no_page (c ∷ cs) = elim (Bool-cases (is_leftover c)) [
    | inl e ↦ rw e (kept_no_page cs)
    | inr e ↦ rw e (leftover_no_page c e, kept_no_page cs)
  ]

  raw_body-Keeps : (c : NuccChunk P) → Keeps (raw_body c)
  unfolding raw_body
  raw_body-Keeps c = record {
    numbered = λ d d' bs h n. >>=-ok_elim (IsNumbered d') (stored_data c) _ h λ b hb h₁.
        subst IsNumbered (ap (λ (r : PageDict × Bytes). r.0) (ok_injective h₁))
          (update_or_next-IsNumbered ChunkMap-discrete d c.chunks n);
    grows = λ d d' bs h. >>=-ok_elim (Grows d d') (stored_data c) _ h λ b hb h₁.
        subst (Grows d) (ap (λ (r : PageDict × Bytes). r.0) (ok_injective h₁))
          (update_or_next-Grows ChunkMap-discrete d c.chunks);
  }

Keeps-if : (b : Bool) (x y : Body) → Keeps x → Keeps y → Keeps (λ d. if b then x d else y d)
Keeps-if true x y kx ky = kx
Keeps-if false x y kx ky = ky

module _ {Float : Type 0} (io : BinaryReader Float) where
  pub page_body-Keeps : (references : List ChunkReference) → Keeps (page_body io references)
  unfolding page_body
  page_body-Keeps references = record {
    numbered = λ d d' bs h n.
        >>=-ok_elim (IsNumbered d') (write_page_sizes io _ _) _ h
          λ b hb h₁. subst IsNumbered (ap (λ (r : PageDict × Bytes). r.0) (ok_injective h₁)) n;
    grows = λ d d' bs h. >>=-ok_elim (Grows d d') (write_page_sizes io _ _) _ h λ b hb h₁.
        subst (Grows d) (ap (λ (r : PageDict × Bytes). r.0) (ok_injective h₁)) (Grows-refl d);
  }

  module _ {P : Type 0} (classes : ChunkClasses P) where
    pub chunk_body-Keeps : (c : NuccChunk P) → Keeps (chunk_body io classes c)
    unfolding chunk_body
    chunk_body-Keeps c =
        Keeps-if c.has_props (classes.write_props c) (raw_body c)
          (record {
            numbered = classes.write_props-IsNumbered c;
            grows = classes.write_props-Grows c;
          })
          (raw_body-Keeps c)

    -- The frame holds the chunk, with the data that the chunk's class wrote, before the dictionary has grown
    -- to `last`.
    pub record FrameOf (last : PageDict) (c : NuccChunk P) (f : Frame) : Type 0 where
      pub is_chunk : f.chunk_map ≡ c.chunk_map
      pub before : PageDict
      pub after : PageDict
      pub wrote : chunk_body io classes c before ≡ ok (after, f.payload)
      pub numbered : IsNumbered before
      pub later : Grows after last

    pub FrameOf-Grows :
        {d d' : PageDict}
        → Grows d d'
        → (c : NuccChunk P) (f : Frame) → FrameOf d c f
        → FrameOf d' c f
    FrameOf-Grows g c f o = record {
      is_chunk = o.is_chunk;
      before = o.before;
      after = o.after;
      wrote = o.wrote;
      numbered = o.numbered;
      later = Grows-trans o.later g;
    }

    -- The frame's index is the place of its chunk among the keys.
    abbrev pub Placed : PageDict → Frame → Type 0
    Placed d f = get_elem? (keys d) f.index ≡ some f.chunk_map

    pub record ChunksWritten (cs : List (NuccChunk P)) (d : PageDict) (r : PageDict × Bytes)
        : Type 0 where
      pub frames : List Frame
      pub of_chunks : Forall₂ (FrameOf r.0) (kept cs) frames
      pub numbered : IsNumbered r.0
      pub grows : Grows d r.0
      pub placed : All (Placed r.0) frames
      pub stream : Stream io frames r.1

    ChunksWritten-cons :
        (c : NuccChunk P) (cs : List (NuccChunk P)) (d : PageDict) (r q : PageDict × Bytes)
        → is_leftover c ≡ false
        → Framed io c.chunk_map (chunk_body io classes c) d r
        → ChunksWritten cs r.0 q
        → ChunksWritten (c ∷ cs) d (q.0, r.1 ++ q.1)
    ChunksWritten-cons c cs d r q e f w = record {
      frames = f.frame ∷ w.frames;
      of_chunks = rw e (
          cons
            (record {
              is_chunk = f.is_chunk;
              before = f.before;
              after = r.0;
              wrote = f.wrote;
              numbered = f.before_numbered;
              later = w.grows;
            })
            w.of_chunks);
      numbered = w.numbered;
      grows = Grows-trans f.grows w.grows;
      placed = (get_elem?-Grows f.frame.index w.grows f.placed, w.placed);
      stream = Stream-append io f.stream w.stream;
    }

    ChunksWritten-skip :
        (c : NuccChunk P) (cs : List (NuccChunk P)) (d : PageDict) (r : PageDict × Bytes)
        → is_leftover c ≡ true
        → ChunksWritten cs d r
        → ChunksWritten (c ∷ cs) d r
    ChunksWritten-skip c cs d r e w = record {
      frames = w.frames;
      of_chunks = rw e w.of_chunks;
      numbered = w.numbered;
      grows = w.grows;
      placed = w.placed;
      stream = w.stream;
    }

    pub write_chunks-ChunksWritten :
        (cs : List (NuccChunk P)) (d : PageDict) (r : PageDict × Bytes)
        → IsNumbered d
        → write_chunks io classes cs d ≡ ok r
        → ChunksWritten cs d r
    unfolding write_chunks
    write_chunks-ChunksWritten [] d r n h = subst (ChunksWritten [] d) (ok_injective h) (record {
      frames = [];
      of_chunks = nil;
      numbered = n;
      grows = Grows-refl d;
      placed = tt;
      stream = done;
    })
    write_chunks-ChunksWritten (c ∷ cs) d r n h = elim (Bool-cases (is_leftover c)) [
      | inl e ↦
          ChunksWritten-skip c cs d r e
            (write_chunks-ChunksWritten cs d r n (rw (e, write_chunks) at h))
      | inr e ↦
          >>=-ok_elim (ChunksWritten (c ∷ cs) d r)
            (write_br_chunk io c.chunk_map (chunk_body io classes c) d) _
            (rw (e, write_chunks) at h)
            λ q hq h₁.
              >>=-ok_elim (ChunksWritten (c ∷ cs) d r) (write_chunks io classes cs q.0) _ h₁
                λ q' hq' h₂.
                  let f =
                    write_br_chunk-Framed io c.chunk_map (chunk_body io classes c) d q
                      (chunk_body-Keeps c) n hq in
                  subst (ChunksWritten (c ∷ cs) d) (ok_injective h₂) (
                    ChunksWritten-cons c cs d q q' e f
                      (write_chunks-ChunksWritten cs q.0 q' f.numbered hq'))
    ]
