-- ===== src/Table/RoundTrip.antt =====
-- BrChunkTable reads back what it wrote.
use xfbin_lib.Base.{
  ℕ, ◌%◌, ◌≡◌, refl, List, [], ◌∷◌, ok, >>=-ok_elim, ok_injective, some, length, get_elem?, All,
  Forall₂, Forall₂-imp, length-Forall₂, map_result,
}
use xfbin_lib.Binary.{IsText, Bytes, BinaryReader, Decodes, DecodesAt}
use xfbin_lib.Binary.Rules.{Decodes_of_ok}
use xfbin_lib.Binary.Sequence.{write_each, Decodes-list, Decodes-related}
use xfbin_lib.Dict.{IterativeDict, keys}
use xfbin_lib.Dict.Numbering.{IsNumbered}
use xfbin_lib.Dict.Growth.{index_of}
use xfbin_lib.Chunk.{ChunkMap, ChunkMap-discrete}
use xfbin_lib.Table.Types.{
  BrChunkMap, BrChunkReference, BrChunkTable, ChunkReference, Strings, no_strings, Props, props_of,
  get_props_from_chunk_map, add_reference_names,
}
use xfbin_lib.Table.Write.{
  write_chunk_maps, write_chunk_reference, write_strings, write_counts, write_table,
}
use xfbin_lib.Table.Read.{read_chunk_reference, read_table}
use xfbin_lib.Table.Strings.{Resolves-Extends, get_props-Resolves, no_strings-IsValid}
use xfbin_lib.Table.Maps.{StandsFor, HasText, write_chunk_maps-MapsWritten}
use mathlib.Core.Path.{subst}
use xfbin_lib.Table.Names.{add_reference_names-IsValid, add_reference_names-Extends, numbers_of}
use xfbin_lib.Table.Layout.{reference_read, table_of, layout_reads'}

-- The index is the place of the chunk in the chunk maps.
abbrev pub Indexed : List ChunkMap → ChunkMap → ℕ → Type 0
Indexed maps c i = get_elem? maps i ≡ some c

-- The reference has the name and the chunk of `r`.
abbrev pub Referenced : List ChunkMap → BrChunkTable → ChunkReference → BrChunkReference → Type 0
Referenced maps t r b =
    (get_elem? t.chunk_names b.chunk_name_index ≡ some r.name)
    × (get_elem? maps b.chunk_map_index ≡ some r.chunk)

-- The table tells the type, path and name of every chunk, every reference by its name and chunk, and
-- every index by its chunk.
pub record Describes (maps : List ChunkMap) (refs : List ChunkReference) (cs : List ChunkMap)
    (t : BrChunkTable) : Type 0 where
  pub chunk_maps :
      Forall₂
        (λ c m. (p : Props) × (props_of c ≡ ok p) × (get_props_from_chunk_map t m ≡ ok p))
        maps
        t.chunk_maps
  pub references : Forall₂ (Referenced maps t) refs t.chunk_map_references
  pub indices : Forall₂ (Indexed maps) cs t.chunk_map_indices

module _ {Float : Type 0} (io : BinaryReader Float) where
  open io use {
    uint32_reads, str_reads, aligns, padding, padding_size, uint32_size, write_uint32, read_uint32,
    write_str, read_str,
  }

  numbers_read : (is : List ℕ) → All (λ i. Decodes (write_uint32 i) read_uint32 i) is
  numbers_read [] = tt
  numbers_read (i ∷ is) = (uint32_reads i, numbers_read is)

  StandsFor-props :
      (d : Strings) (refs : List ChunkReference) (ms : List BrChunkMap) (bs : List BrChunkReference)
      (is : List ℕ) (c : ChunkMap) (m : BrChunkMap)
      → StandsFor d c m
      → (q : Props) × (props_of c ≡ ok q)
        × (get_props_from_chunk_map (table_of (add_reference_names d refs) ms bs is) m ≡ ok q)
  StandsFor-props d refs ms bs is c m st =
      let d' = add_reference_names d refs in
      (
        st.props,
        st.of_chunk,
        get_props-Resolves d' (table_of d' ms bs is) m st.props refl refl refl
            (Resolves-Extends (add_reference_names-Extends d refs) st.resolves),
      )

  abbrev IsReference : Strings → IterativeDict ChunkMap → ChunkReference → BrChunkReference → Type 0
  IsReference d maps r b =
      (get_elem? (keys d.names) b.chunk_name_index ≡ some r.name)
      × (get_elem? (keys maps) b.chunk_map_index ≡ some r.chunk)

  -- A table that is written for a numbered dictionary of chunks, references and indices, none of whose texts
  -- has a zero, is read back from any position that is a multiple of 4, up to its last byte: its chunk maps
  -- give the type, path and name of each chunk, its references the name and the chunk of each reference, and
  -- its indices the place of each chunk.
  pub read_table-write_table :
      (maps : IterativeDict ChunkMap) (refs : List ChunkReference) (cs : List ChunkMap) (p : ℕ)
      (r : Bytes × ℕ)
      → IsNumbered maps
      → All HasText (keys maps)
      → All (λ x. IsText x.name) refs
      → p % 4 ≡ 0
      → write_table io maps refs cs ≡ ok r
      → (t : BrChunkTable) × Describes (keys maps) refs cs t
        × DecodesAt p (ok r.0) (read_table io) t
  unfolding write_table
  read_table-write_table maps refs cs p r n t tr a h =
      let P =
        (x : BrChunkTable) × Describes (keys maps) refs cs x
        × DecodesAt p (ok r.0) (read_table io) x in
      >>=-ok_elim P (write_chunk_maps io no_strings (keys maps)) _ h λ (d, map_bytes) hm h₁.
        let d' = add_reference_names d refs in
        >>=-ok_elim P (write_each (write_chunk_reference io d'.names maps) refs) _ h₁
          λ ref_bytes hr h₂.
            >>=-ok_elim P (map_result (index_of ChunkMap-discrete maps) cs) _ h₂ λ is hi h₃.
              >>=-ok_elim P (write_each write_uint32 is) _ h₃ λ index_bytes hb h₄.
                >>=-ok_elim P (write_strings io d'.types) _ h₄ λ types ht h₅.
                  >>=-ok_elim P (write_strings io d'.paths) _ h₅ λ paths hp h₆.
                    >>=-ok_elim P (write_strings io d'.names) _ h₆ λ names hn h₇.
                      >>=-ok_elim P
                        (write_counts io d' types paths names maps (length cs) (length refs)) _ h₇
                        λ count_bytes hc h₈.
                          let w =
                            write_chunk_maps-MapsWritten io (keys maps) no_strings (d, map_bytes)
                              no_strings-IsValid t hm in
                          let v = add_reference_names-IsValid d refs w.valid tr in
                          let (bs, related, dr) =
                            Decodes-related (IsReference d' maps)
                              (write_chunk_reference io d'.names maps) (read_chunk_reference io)
                              refs ref_bytes
                              (λ x ys e. reference_read io d'.names maps x ys v.names n e) hr in
                          let numbered = numbers_of maps cs is n hi in
                          (
                            table_of d' w.maps bs is,
                            record {
                              chunk_maps =
                                  Forall₂-imp (StandsFor-props d refs w.maps bs is) w.stand_for;
                              references = related;
                              indices = numbered;
                            },
                            subst
                                (λ q.
                                  DecodesAt p (ok q.0) (read_table io) (table_of d' w.maps bs is))
                                (ok_injective h₈)
                                (layout_reads' io p d' maps count_bytes types paths names map_bytes
                                  ref_bytes index_bytes w.maps bs is (length refs) a v
                                  (rw (length-Forall₂ numbered) hc) ht hp hn w.reads dr
                                  (Decodes_of_ok
                                    (Decodes-list write_uint32 read_uint32 is (numbers_read is))
                                    hb)),
                          )
