-- ===== src/Payload/Dynamics/Reads.antt =====
-- A dynamics chunk reads back as it was written.
use xfbin_lib.Base.{
  ℕ, ◌≡◌, refl, sym, ap, ◌∙◌, List, [], ◌∷◌, ◌++◌, map, length, length-append, All, ok, map_ok-ok,
  arith,
}
use xfbin_lib.Binary.{Bytes, ◌<+>◌, BinaryReader, Decodes}
use xfbin_lib.Binary.Rules.{Decodes-bind, Decodes-map, Decodes_of_ok}
use xfbin_lib.Binary.Sequence.{
  write_each, read_n, write_each-append, Decodes-list, Decodes-count, Decodes-each,
}
use xfbin_lib.Dict.{IterativeDict, get_or_next}
use xfbin_lib.Dict.Numbering.{IsNumbered, get_elem?-get_or_next}
use xfbin_lib.Chunk.{ChunkMap, ChunkMap-discrete}
use xfbin_lib.Payload.Types.{Dynamics1, BrDynamics1, Dynamics2, Dynamics, BrDynamics}
use xfbin_lib.Payload.References.{Place, Resolves, Numbers, get_or_next-Numbers}
use xfbin_lib.Payload.Dynamics.{
  next_n, init_dynamics1, init_section1, init_dynamics, sum_counts, write_dynamics1, read_dynamics1,
  write_tuple, read_tuple, write_dynamics2, read_dynamics2, write_dynamics, read_dynamics,
}
use mathlib.Core.Path.{subst}

-- Four floats in each entry of section 1, six in each of section 2.
pub record HasSizes {F : Type 0} (chunk : Dynamics F) : Type 0 where
  pub section1_sizes : All (λ (s : Dynamics1 F). length s.floats ≡ 4) chunk.section1
  pub section2_sizes : All (λ (s : Dynamics2 F). length s.floats ≡ 6) chunk.section2

next_n-append : (xs ys : List ℕ) → next_n (length xs) (xs ++ ys) ≡ ok (xs, ys)
unfolding next_n
next_n-append [] ys = refl
next_n-append (x ∷ xs) ys = rw (next_n-append xs ys)

module _ {F : Type 0} where
  abbrev br_of : Dynamics1 F → BrDynamics1 F
  br_of s = record { floats = s.floats; coord_index = s.coord_index; unk_count = length s.shorts }

  -- The shorts of all entries, one after another.
  abbrev shorts_of : List (Dynamics1 F) → List ℕ
  shorts_of [] = []
  shorts_of (s ∷ ss) = s.shorts ++ shorts_of ss

  -- The iterator gives each entry its own shorts.
  init_section1-shorts :
      (ss : List (Dynamics1 F)) → init_section1 (map br_of ss) (shorts_of ss) ≡ ok ss
  unfolding init_section1 init_dynamics1
  init_section1-shorts [] = refl
  init_section1-shorts (s ∷ ss) =
      rw (next_n-append s.shorts (shorts_of ss), init_section1-shorts ss)

  sum_counts-map : (ss : List (Dynamics1 F)) → length (shorts_of ss) ≡ sum_counts (map br_of ss)
  sum_counts-map [] = refl
  sum_counts-map (s ∷ ss) = omega (arith, length-append s.shorts (shorts_of ss), sum_counts-map ss)

module _ {Float : Type 0} (io : BinaryReader Float) where
  open io use {
    write_uint16, write_uint32, write_int16, write_float, read_uint16, read_uint32, read_int16,
    read_float, uint16_reads, uint32_reads, int16_reads, float_reads,
  }

  section1_reads :
      (ss : List (Dynamics1 Float))
      → All (λ (s : Dynamics1 Float). length s.floats ≡ 4) ss
      → All (λ s. Decodes (write_dynamics1 io s) (read_dynamics1 io) (br_of s)) ss
  unfolding write_dynamics1 read_dynamics1
  section1_reads [] h = tt
  section1_reads (s ∷ ss) (h, hs) = (
    Decodes-bind _ s.floats (Decodes-count write_float read_float 4 s.floats float_reads h) (
        Decodes-bind _ s.coord_index (uint16_reads _)
          (Decodes-map _ (length s.shorts) (uint16_reads _))),
    section1_reads ss hs,
  )

  read_tuple-write_tuple : (tup : List ℕ) → Decodes (write_tuple io tup) (read_tuple io) tup
  unfolding write_tuple read_tuple
  read_tuple-write_tuple tup =
      Decodes-bind _ (length tup) (uint16_reads _)
        (Decodes-count write_uint16 read_uint16 _ tup uint16_reads refl)

  section2_reads :
      (ss : List (Dynamics2 Float))
      → All (λ (s : Dynamics2 Float). length s.floats ≡ 6) ss
      → All (λ s. Decodes (write_dynamics2 io s) (read_dynamics2 io) s) ss
  unfolding write_dynamics2 read_dynamics2
  section2_reads [] h = tt
  section2_reads (s ∷ ss) (h, hs) = (
    Decodes-bind _ s.floats (Decodes-count write_float read_float 6 s.floats float_reads h) (
        Decodes-bind _ s.coord_index (uint16_reads _) (
          Decodes-bind _ (length s.unk_short_tuples) (uint16_reads _) (
            Decodes-bind _ s.negative_unk (int16_reads _) (
              Decodes-bind _ 0 (uint16_reads _) (
                Decodes-map _ s.unk_short_tuples (
                  Decodes-count (write_tuple io) (read_tuple io) _ s.unk_short_tuples
                    read_tuple-write_tuple refl)))))),
    section2_reads ss hs,
  )

  shorts_written :
      (ss : List (Dynamics1 Float))
      → write_each (λ (s : Dynamics1 Float). write_each write_uint16 s.shorts) ss
        ≡ write_each write_uint16 (shorts_of ss)
  shorts_written [] = refl
  shorts_written (s ∷ ss) =
      ap (λ w. write_each write_uint16 s.shorts <+> w) (shorts_written ss)
      ∙ sym (write_each-append write_uint16 s.shorts (shorts_of ss))

  shorts_read :
      (ss : List (Dynamics1 Float))
      → Decodes
          (write_each (λ (s : Dynamics1 Float). write_each write_uint16 s.shorts) ss)
          (read_n (sum_counts (map br_of ss)) read_uint16)
          (shorts_of ss)
  shorts_read ss =
      subst (λ w. Decodes w (read_n (sum_counts (map br_of ss)) read_uint16) (shorts_of ss))
        (sym (shorts_written ss))
        (Decodes-count write_uint16 read_uint16 _ (shorts_of ss) uint16_reads (sum_counts-map ss))

  abbrev dynamics_struct : ℕ → Dynamics Float → BrDynamics Float
  dynamics_struct i chunk = record {
    clump_chunk_index = i;
    section1 = map br_of chunk.section1;
    section2 = chunk.section2;
    section1_shorts = shorts_of chunk.section1;
  }

  abbrev clump_index : IterativeDict ChunkMap → Dynamics Float → IterativeDict ChunkMap × ℕ
  clump_index d chunk = get_or_next ChunkMap-discrete d chunk.clump_chunk

  -- What was written reads, whatever the dictionary.
  pub dynamics_reads :
      (d d' : IterativeDict ChunkMap) (chunk : Dynamics Float) (bs : Bytes)
      → HasSizes chunk
      → write_dynamics io d chunk ≡ ok (d', bs)
      → Decodes (ok bs) (read_dynamics io) (dynamics_struct (clump_index d chunk).1 chunk)
  unfolding write_dynamics read_dynamics
  dynamics_reads d d' chunk bs z h =
      let q = clump_index d chunk in
      let (ys, hy, e) = map_ok-ok _ _ (d', bs) h in
      Decodes_of_ok
        (Decodes-bind _ (length chunk.section1) (uint16_reads _) (
          Decodes-bind _ (length chunk.section2) (uint16_reads _) (
            Decodes-bind _ q.1 (uint32_reads _) (
              Decodes-bind _ _
                (Decodes-each (write_dynamics1 io) (read_dynamics1 io) br_of chunk.section1
                  (section1_reads chunk.section1 z.section1_sizes))
                (Decodes-bind _ _
                  (Decodes-list (write_dynamics2 io) (read_dynamics2 io) chunk.section2
                    (section2_reads chunk.section2 z.section2_sizes))
                  (Decodes-map _ _ (shorts_read chunk.section1)))))))
        (hy ∙ ap (λ x. ok x.1) e)

  dynamics_dict :
      (d d' : IterativeDict ChunkMap) (chunk : Dynamics Float) (bs : Bytes)
      → write_dynamics io d chunk ≡ ok (d', bs)
      → (clump_index d chunk).0 ≡ d'
  unfolding write_dynamics
  dynamics_dict d d' chunk bs h = let (ys, hy, e) = map_ok-ok _ _ (d', bs) h in ap (λ x. x.0) e

  pub write_dynamics-Numbers :
      (d d' : IterativeDict ChunkMap) (chunk : Dynamics Float) (bs : Bytes)
      → write_dynamics io d chunk ≡ ok (d', bs)
      → Numbers d d'
  write_dynamics-Numbers d d' chunk bs h =
      subst (Numbers d) (dynamics_dict d d' chunk bs h) (get_or_next-Numbers d chunk.clump_chunk)

  -- Where every entry of section 1 has four floats and every entry of section 2 six, a dynamics chunk that is
  -- written with a numbered dictionary reads back to its last byte, from any position; and where the chunks of
  -- the page resolve the places of the dictionary that is left, `init_data` gives the same clump and the same
  -- entries back, each of section 1 with the shorts that were its own.
  pub read_dynamics-write_dynamics :
      (d d' : IterativeDict ChunkMap) (chunk : Dynamics Float) (bs : Bytes)
      (chunk_list : List ChunkMap) (chunk_indices : List ℕ)
      → IsNumbered d
      → HasSizes chunk
      → write_dynamics io d chunk ≡ ok (d', bs)
      → Resolves d' chunk_list chunk_indices
      → (b : BrDynamics Float) × Decodes (ok bs) (read_dynamics io) b
        × (init_dynamics chunk_list chunk_indices b ≡ ok chunk)
  unfolding init_dynamics
  read_dynamics-write_dynamics d d' chunk bs chunk_list chunk_indices n z h r =
      let q = clump_index d chunk in
      let place : Place d' chunk.clump_chunk q.1 =
        subst (λ x. Place x chunk.clump_chunk q.1) (dynamics_dict d d' chunk bs h)
          (get_elem?-get_or_next ChunkMap-discrete d chunk.clump_chunk n) in
      (
        dynamics_struct q.1 chunk,
        dynamics_reads d d' chunk bs z h,
        rw (r.resolved q.1 chunk.clump_chunk place, init_section1-shorts chunk.section1),
      )
