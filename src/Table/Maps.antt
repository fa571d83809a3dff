-- ===== src/Table/Maps.antt =====
-- The chunk maps of the table: numbered and written in one loop, they are read back, and each stands
-- for the strings of its chunk.
use xfbin_lib.Base.{
  ◌≡◌, List, [], ◌∷◌, ◌++◌, ok, >>=-ok_elim, ok_injective, length, All, Forall₂, nil, cons,
}
use xfbin_lib.Binary.{Bytes, BinaryReader, Decodes}
use xfbin_lib.Binary.Rules.{Decodes-bind, Decodes-map, Decodes-pure, Decodes_of_ok}
use xfbin_lib.Binary.Sequence.{read_n}
use xfbin_lib.Chunk.{ChunkMap}
use xfbin_lib.Table.Types.{BrChunkMap, Strings, Props, props_of, number_props}
use xfbin_lib.Table.Write.{write_chunk_map, write_chunk_maps}
use xfbin_lib.Table.Read.{read_chunk_map}
use xfbin_lib.Table.Strings.{
  IsText₃, IsValid, Extends, Extends-refl, Extends-trans, Resolves, Resolves-Extends,
  number_props-IsValid, number_props-Extends, number_props-Resolves,
}
use mathlib.Core.Path.{subst}

-- The chunk map `m` stands for the type, path and name of `c`.
pub record StandsFor (d : Strings) (c : ChunkMap) (m : BrChunkMap) : Type 0 where
  pub props : Props
  pub of_chunk : props_of c ≡ ok props
  pub resolves : Resolves d m props

-- No string of the chunk has a zero.
abbrev pub HasText : ChunkMap → Type 0
HasText c = (p : Props) → props_of c ≡ ok p → IsText₃ p

module _ {Float : Type 0} (io : BinaryReader Float) where
  open io use {uint32_reads}

  pub chunk_map_reads : (m : BrChunkMap) → Decodes (write_chunk_map io m) (read_chunk_map io) m
  unfolding write_chunk_map read_chunk_map
  chunk_map_reads m = Decodes-bind _ m.chunk_type_index (uint32_reads _) (
      Decodes-bind _ m.file_path_index (uint32_reads _)
        (Decodes-bind _ m.chunk_name_index (uint32_reads _) (Decodes-pure m)))

  -- What the loop over the chunk maps leaves and what reads back.
  pub record MapsWritten (d : Strings) (cs : List ChunkMap) (d' : Strings) (bs : Bytes)
      : Type 0 where
    pub maps : List BrChunkMap
    pub stand_for : Forall₂ (StandsFor d') cs maps
    pub valid : IsValid d'
    pub extends : Extends d d'
    pub reads : Decodes (ok bs) (read_n (length cs) (read_chunk_map io)) maps

  MapsWritten-nil : (d : Strings) → IsValid d → MapsWritten d [] d []
  unfolding read_n
  MapsWritten-nil d v = record {
    maps = [];
    stand_for = nil;
    valid = v;
    extends = Extends-refl d;
    reads = Decodes-pure [];
  }

  -- One round of the loop, in front of the rounds that follow it.
  MapsWritten-cons :
      (c : ChunkMap) (cs : List ChunkMap) (d d' : Strings) (p : Props) (xs ys : Bytes)
      → IsValid d
      → props_of c ≡ ok p
      → write_chunk_map io (number_props d p).1 ≡ ok xs
      → MapsWritten (number_props d p).0 cs d' ys
      → MapsWritten d (c ∷ cs) d' (xs ++ ys)
  unfolding read_n
  MapsWritten-cons c cs d d' p xs ys v hp hx w =
      let m = (number_props d p).1 in
      record {
        maps = m ∷ w.maps;
        stand_for =
            cons
              (record {
                props = p;
                of_chunk = hp;
                resolves = Resolves-Extends w.extends (number_props-Resolves d p v);
              })
              w.stand_for;
        valid = w.valid;
        extends = Extends-trans (number_props-Extends d p) w.extends;
        reads =
            Decodes-bind _ m (Decodes_of_ok (chunk_map_reads m) hx)
              (Decodes-map (λ ms. m ∷ ms) w.maps w.reads);
      }

  pub write_chunk_maps-MapsWritten :
      (cs : List ChunkMap) (d : Strings) (r : Strings × Bytes)
      → IsValid d
      → All HasText cs
      → write_chunk_maps io d cs ≡ ok r
      → MapsWritten d cs r.0 r.1
  unfolding write_chunk_maps
  write_chunk_maps-MapsWritten [] d r v t h =
      subst (λ q. MapsWritten d [] q.0 q.1) (ok_injective h) (MapsWritten-nil d v)
  write_chunk_maps-MapsWritten (c ∷ cs) d r v (t, ts) h =
      let P = MapsWritten d (c ∷ cs) r.0 r.1 in
      >>=-ok_elim P (props_of c) _ h λ p hp h₁.
        >>=-ok_elim P (write_chunk_map io (number_props d p).1) _ h₁ λ xs hx h₂.
          >>=-ok_elim P (write_chunk_maps io (number_props d p).0 cs) _ h₂ λ q hy h₃.
            subst (λ q'. MapsWritten d (c ∷ cs) q'.0 q'.1) (ok_injective h₃)
              (MapsWritten-cons c cs d q.0 p xs q.1 v hp hx (
                write_chunk_maps-MapsWritten cs (number_props d p).0 q
                  (number_props-IsValid d p v (t p hp)) ts hy))
