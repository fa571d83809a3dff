-- ===== src/Payload/Dynamics.antt =====
-- BrNuccChunkDynamics, BrDynamics1 and BrDynamics2 (xfbin/structure/br/br_nucc.py), NuccChunkDynamics,
-- Dynamics1 and Dynamics2 (xfbin/structure/nucc.py).
pub mod Reads
use xfbin_lib.Base.{
  ℕ, zero, suc, ◌+◌, List, [], ◌∷◌, length, Result, ok, raise, stop_iteration, map_ok,
}
use xfbin_lib.Base
use xfbin_lib.Binary.{Bytes, Reader, ◌>>=◌, pure, ◌<+>◌, BinaryReader}
use xfbin_lib.Binary.Sequence.{write_each, read_n}
use xfbin_lib.Dict.{IterativeDict, get_or_next}
use xfbin_lib.Chunk.{ChunkMap, ChunkMap-discrete}
use xfbin_lib.Payload.Types.{Dynamics1, BrDynamics1, Dynamics2, Dynamics, BrDynamics}
use xfbin_lib.Payload.References.{chunk_of}

-- `next(sec1_shorts)`, called `n` times: the shorts, and those that are left.
unfoldable pub next_n : ℕ → List ℕ → Result (List ℕ × List ℕ)
next_n zero shorts = ok ([], shorts)
next_n (suc n) [] = raise stop_iteration
next_n (suc n) (s ∷ shorts) = map_ok (λ r. (s ∷ r.0, r.1)) (next_n n shorts)

module _ {F : Type 0} where
  -- Dynamics1.init_data
  unfoldable pub init_dynamics1 : BrDynamics1 F → List ℕ → Result (Dynamics1 F × List ℕ)
  unfolding next_n
  init_dynamics1 sec1 shorts =
      map_ok
        (λ r. (record { floats = sec1.floats; coord_index = sec1.coord_index; shorts = r.0 }, r.1))
        (next_n sec1.unk_count shorts)

  -- The loop over `br_chunk.section1`, which all share one iterator.
  unfoldable pub init_section1 : List (BrDynamics1 F) → List ℕ → Result (List (Dynamics1 F))
  unfolding init_dynamics1
  init_section1 [] shorts = ok []
  init_section1 (sec1 ∷ section1) shorts =
      Base.◌>>=◌ (init_dynamics1 sec1 shorts) (λ r. map_ok (◌∷◌ r.0) (init_section1 section1 r.1))

  -- NuccChunkDynamics.init_data
  unfoldable pub init_dynamics : List ChunkMap → List ℕ → BrDynamics F → Result (Dynamics F)
  unfolding init_section1 chunk_of
  init_dynamics chunk_list chunk_indices br =
      Base.◌>>=◌ (chunk_of chunk_list chunk_indices br.clump_chunk_index) (λ clump_chunk.
        map_ok
          (λ section1. record {
            clump_chunk = clump_chunk;
            section1 = section1;
            section2 = br.section2;
          })
          (init_section1 br.section1 br.section1_shorts))

  -- `sum(map(lambda x: x.unkCount, section1))`
  abbrev pub sum_counts : List (BrDynamics1 F) → ℕ
  sum_counts [] = 0
  sum_counts (sec1 ∷ section1) = sec1.unk_count + sum_counts section1

module _ {Float : Type 0} (io : BinaryReader Float) where
  open io use {
    write_uint16, write_uint32, write_int16, write_float, read_uint16, read_uint32, read_int16,
    read_float,
  }

  -- BrDynamics1.__br_write__
  unfoldable pub write_dynamics1 : Dynamics1 Float → Result Bytes
  write_dynamics1 sec1 =
      write_each write_float sec1.floats
      <+> write_uint16 sec1.coord_index
      <+> write_uint16 (length sec1.shorts)

  -- BrDynamics1.__br_read__
  unfoldable pub read_dynamics1 : Reader (BrDynamics1 Float)
  read_dynamics1 = do
    floats ← read_n 4 read_float
    coord_index ← read_uint16
    unk_count ← read_uint16
    pure (record { floats = floats; coord_index = coord_index; unk_count = unk_count })

  -- One of the tuples of shorts: its length, and its values.
  unfoldable pub write_tuple : List ℕ → Result Bytes
  write_tuple tup = write_uint16 (length tup) <+> write_each write_uint16 tup

  unfoldable pub read_tuple : Reader (List ℕ)
  read_tuple = do n ← read_uint16; read_n n read_uint16

  -- BrDynamics2.__br_write__
  unfoldable pub write_dynamics2 : Dynamics2 Float → Result Bytes
  unfolding write_tuple
  write_dynamics2 sec2 =
      write_each write_float sec2.floats
      <+> write_uint16 sec2.coord_index
      <+> write_uint16 (length sec2.unk_short_tuples)
      <+> write_int16 sec2.negative_unk
      <+> write_uint16 0
      <+> write_each write_tuple sec2.unk_short_tuples

  -- BrDynamics2.__br_read__, and Dynamics2.init_data
  unfoldable pub read_dynamics2 : Reader (Dynamics2 Float)
  unfolding read_tuple
  read_dynamics2 = do
    floats ← read_n 6 read_float
    coord_index ← read_uint16
    unk_count ← read_uint16
    negative_unk ← read_int16
    zeros ← read_uint16
    tuples ← read_n unk_count read_tuple
    pure (record {
      floats = floats;
      coord_index = coord_index;
      negative_unk = negative_unk;
      unk_short_tuples = tuples;
    })

  -- BrNuccChunkDynamics.__br_write__; the shorts of section 1 are collected in a buffer of their own,
  -- which is appended last.
  unfoldable pub write_dynamics :
      IterativeDict ChunkMap → Dynamics Float → Result (IterativeDict ChunkMap × Bytes)
  unfolding write_dynamics1 write_dynamics2
  write_dynamics d chunk =
      let r = get_or_next ChunkMap-discrete d chunk.clump_chunk in
      map_ok (λ bs. (r.0, bs))
        (write_uint16 (length chunk.section1)
          <+> write_uint16 (length chunk.section2)
          <+> write_uint32 r.1
          <+> write_each write_dynamics1 chunk.section1
          <+> write_each write_dynamics2 chunk.section2
          <+> write_each (λ (sec1 : Dynamics1 Float). write_each write_uint16 sec1.shorts)
              chunk.section1)

  -- BrNuccChunkDynamics.init_data
  unfoldable pub read_dynamics : Reader (BrDynamics Float)
  unfolding read_dynamics1 read_dynamics2
  read_dynamics = do
    section1_count ← read_uint16
    section2_count ← read_uint16
    clump_chunk_index ← read_uint32
    section1 ← read_n section1_count read_dynamics1
    section2 ← read_n section2_count read_dynamics2
    section1_shorts ← read_n (sum_counts section1) read_uint16
    pure (record {
      clump_chunk_index = clump_chunk_index;
      section1 = section1;
      section2 = section2;
      section1_shorts = section1_shorts;
    })
