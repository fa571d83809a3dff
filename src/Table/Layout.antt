-- ===== src/Table/Layout.antt =====
-- The six parts of a table and the padding between them, read one after another.
use xfbin_lib.Base.{
  ℕ, ◌+◌, ◌%◌, ◌≡◌, sym, ap, ◌∙◌, List, [], ◌∷◌, ◌++◌, append_assoc, append-nil, Result, ok,
  >>=-ok_elim, ok_injective, some, length, length-append, get_elem?, All, arith,
}
use xfbin_lib.Binary.{Text, IsText, Bytes, ◌<+>◌, BinaryReader, Decodes, DecodesAt}
use xfbin_lib.Binary.Rules.{
  Decodes-bind, Decodes-map, Decodes-pure, Decodes_of_ok, DecodesAt-bind, <+>-eq-ok,
}
use xfbin_lib.Binary.Sequence.{read_n, Decodes-list, length-write_each}
use xfbin_lib.Dict.{IterativeDict, keys}
use xfbin_lib.Dict.Numbering.{IsNumbered}
use xfbin_lib.Dict.Growth.{index_of, get_elem?-index_of}
use xfbin_lib.Chunk.{ChunkMap, Text-discrete, ChunkMap-discrete}
use xfbin_lib.Table.Types.{BrChunkMap, BrChunkReference, BrChunkTable, ChunkReference, Strings}
use xfbin_lib.Table.Write.{write_chunk_reference, write_strings, counts, write_counts}
use xfbin_lib.Table.Read.{read_chunk_map, read_chunk_reference, read_counts, read_table}
use xfbin_lib.Table.Strings.{IsValid}
use mathlib.Core.Path.{subst}

-- The strings start at a multiple of 4, so the writer, which aligns them by their own size, and the
-- reader, which aligns its position in the file, agree.
aligned :
    (p x : ℕ) (types paths names ts ps ns : Bytes)
    → p % 4 ≡ 0
    → x ≡ 40
    → ◌≡◌ {A = Result Bytes} (ok types) (ok ts)
    → ◌≡◌ {A = Result Bytes} (ok paths) (ok ps)
    → ◌≡◌ {A = Result Bytes} (ok names) (ok ns)
    → (p + x + length ts + length ps + length ns) % 4 ≡ length (types ++ (paths ++ names)) % 4
aligned p x types paths names ts ps ns a hx et ep en =
    rw (← ok_injective et, ← ok_injective ep, ← ok_injective en)
      (omega (arith, length-append types (paths ++ names), length-append paths names))

-- The table that reads back, where `d` holds the strings and the lists are those of its fields.
abbrev pub table_of : Strings → List BrChunkMap → List BrChunkReference → List ℕ → BrChunkTable
table_of d ms bs is = record {
  chunk_types = keys d.types;
  file_paths = keys d.paths;
  chunk_names = keys d.names;
  chunk_maps = ms;
  chunk_map_references = bs;
  chunk_map_indices = is;
}

module _ {Float : Type 0} (io : BinaryReader Float) where
  open io use {
    uint32_reads, str_reads, aligns, padding, padding_size, uint32_size, write_uint32, read_uint32,
    write_str, read_str,
  }

  counts_read :
      (d : Strings) (types paths names : Bytes) (maps : IterativeDict ChunkMap) (i r : ℕ)
      → Decodes (write_counts io d types paths names maps i r) (read_counts io) (record {
        type_count = length (keys d.types);
        path_count = length (keys d.paths);
        name_count = length (keys d.names);
        map_count = length (keys maps);
        index_count = i;
        reference_count = r;
      })
  unfolding read_counts
  counts_read d types paths names maps i r = Decodes-bind _ _ (uint32_reads _) (
      Decodes-bind _ _ (uint32_reads _) (
        Decodes-bind _ _ (uint32_reads _) (
          Decodes-bind _ _ (uint32_reads _) (
            Decodes-bind _ _ (uint32_reads _) (
              Decodes-bind _ _ (uint32_reads _) (
                Decodes-bind _ _ (uint32_reads _) (
                  Decodes-bind _ _ (uint32_reads _) (
                    Decodes-bind _ _ (uint32_reads _)
                      (Decodes-bind _ _ (uint32_reads _) (Decodes-pure _))))))))))

  pub reference_read :
      (names : IterativeDict Text) (maps : IterativeDict ChunkMap) (r : ChunkReference) (bs : Bytes)
      → IsNumbered names
      → IsNumbered maps
      → write_chunk_reference io names maps r ≡ ok bs
      → (b : BrChunkReference) × ((get_elem? (keys names) b.chunk_name_index ≡ some r.name)
          × (get_elem? (keys maps) b.chunk_map_index ≡ some r.chunk))
        × Decodes (ok bs) (read_chunk_reference io) b
  unfolding write_chunk_reference read_chunk_reference
  reference_read names maps r bs n m h =
      let (xs, ys, hx, hy, e) = <+>-eq-ok _ _ bs h in
      >>=-ok_elim _ (index_of Text-discrete names r.name) write_uint32 hx λ i hi hi'.
        >>=-ok_elim _ (index_of ChunkMap-discrete maps r.chunk) write_uint32 hy λ j hj hj'. (
          record { chunk_name_index = i; chunk_map_index = j },
          (
            get_elem?-index_of Text-discrete names r.name n hi,
            get_elem?-index_of ChunkMap-discrete maps r.chunk m hj,
          ),
          Decodes_of_ok {w = ok xs <+> (ok ys <+> ok [])}
              (Decodes-bind _ i (Decodes_of_ok (uint32_reads i) hi')
                (Decodes-bind _ j (Decodes_of_ok (uint32_reads j) hj') (Decodes-pure _)))
              (rw (e, append-nil)),
        )

  -- Behind the strings: what `align(4)` appended is what `align_pos(4)` passes over.
  pad_reads : (q n : ℕ) → q % 4 ≡ n % 4 → DecodesAt q (ok (padding 4 n)) (io.align_pos 4) tt
  pad_reads q n e = aligns 4 q (padding 4 n) (padding_size 4 n ∙ rw e)

  texts_read : (ks : List Text) → All IsText ks → All (λ s. Decodes (write_str s) read_str s) ks
  texts_read [] h = tt
  texts_read (k ∷ ks) (h, hs) = (str_reads k h, texts_read ks hs)

  strings_read :
      (d : IterativeDict Text) (bs : Bytes)
      → All IsText (keys d)
      → write_strings io d ≡ ok bs
      → Decodes (ok bs) (read_n (length (keys d)) read_str) (keys d)
  strings_read d bs t h =
      Decodes_of_ok (Decodes-list write_str read_str (keys d) (texts_read (keys d) t)) h

  -- The layout of the table: six parts, with the padding before the chunk maps.
  abbrev layout : Bytes → Bytes → Bytes → Bytes → Bytes → Bytes → Bytes → Bytes
  layout counts types paths names maps refs indices =
      counts
      ++ (types
          ++ (paths
              ++ (names
                  ++ (padding 4 (length (types ++ (paths ++ names)))
                      ++ (maps ++ (refs ++ indices))))))

  counts_size :
      (d : Strings) (types paths names : Bytes) (maps : IterativeDict ChunkMap) (i r : ℕ)
      (bs : Bytes)
      → write_counts io d types paths names maps i r ≡ ok bs
      → length bs ≡ 40
  counts_size d types paths names maps i r bs h =
      length-write_each write_uint32 4 (counts d types paths names maps i r) bs uint32_size h

  layout_reads :
      (p : ℕ) (d : Strings) (maps : IterativeDict ChunkMap)
      (counts types paths names map_bytes ref_bytes index_bytes : Bytes) (ms : List BrChunkMap)
      (bs : List BrChunkReference) (is : List ℕ) (r : ℕ)
      → p % 4 ≡ 0
      → IsValid d
      → write_counts io d types paths names maps (length is) r ≡ ok counts
      → write_strings io d.types ≡ ok types
      → write_strings io d.paths ≡ ok paths
      → write_strings io d.names ≡ ok names
      → Decodes (ok map_bytes) (read_n (length (keys maps)) (read_chunk_map io)) ms
      → Decodes (ok ref_bytes) (read_n r (read_chunk_reference io)) bs
      → Decodes (ok index_bytes) (read_n (length is) read_uint32) is
      → DecodesAt p
          (ok (layout counts types paths names map_bytes ref_bytes index_bytes))
          (read_table io)
          (table_of d ms bs is)
  unfolding read_table
  layout_reads p d maps counts types paths names map_bytes ref_bytes index_bytes ms bs is r a v hc
        ht hp hn dm dr di =
      let rest = map_bytes ++ (ref_bytes ++ index_bytes) in
      let pad = padding 4 (length (types ++ (paths ++ names))) in
      DecodesAt-bind p {w = ok counts} {v = ok (types ++ (paths ++ (names ++ (pad ++ rest))))} _ _
        ((Decodes_of_ok (counts_read d types paths names maps (length is) r) hc).at_pos p)
        λ xs ex.
          DecodesAt-bind _ {w = ok types} {v = ok (paths ++ (names ++ (pad ++ rest)))} _
            (keys d.types) ((strings_read d.types types v.type_texts ht).at_pos _)
            λ ts et.
              DecodesAt-bind _ {w = ok paths} {v = ok (names ++ (pad ++ rest))} _ (keys d.paths)
                ((strings_read d.paths paths v.path_texts hp).at_pos _)
                λ ps ep.
                  DecodesAt-bind _ {w = ok names} {v = ok (pad ++ rest)} _ (keys d.names)
                    ((strings_read d.names names v.name_texts hn).at_pos _)
                    λ ns en.
                      DecodesAt-bind _ {w = ok pad} {v = ok rest} _ tt
                        (pad_reads _ (length (types ++ (paths ++ names))) (
                          aligned p _ types paths names ts ps ns a
                            (rw (← ok_injective ex)
                              (counts_size d types paths names maps (length is) r counts hc))
                            et ep en))
                        λ _ _.
                          (Decodes-bind {w = ok map_bytes} {v = ok (ref_bytes ++ index_bytes)} _ ms
                              dm
                              (Decodes-bind {w = ok ref_bytes} {v = ok index_bytes} _ bs dr
                                (Decodes-map _ is di))).at_pos
                            _

  pub layout_reads' :
      (p : ℕ) (d : Strings) (maps : IterativeDict ChunkMap)
      (count_bytes types paths names map_bytes ref_bytes index_bytes : Bytes) (ms : List BrChunkMap)
      (bs : List BrChunkReference) (is : List ℕ) (r : ℕ)
      → p % 4 ≡ 0
      → IsValid d
      → write_counts io d types paths names maps (length is) r ≡ ok count_bytes
      → write_strings io d.types ≡ ok types
      → write_strings io d.paths ≡ ok paths
      → write_strings io d.names ≡ ok names
      → Decodes (ok map_bytes) (read_n (length (keys maps)) (read_chunk_map io)) ms
      → Decodes (ok ref_bytes) (read_n r (read_chunk_reference io)) bs
      → Decodes (ok index_bytes) (read_n (length is) read_uint32) is
      → DecodesAt p
          (ok (
            count_bytes
            ++ ((types ++ (paths ++ names))
                ++ (padding 4 (length (types ++ (paths ++ names)))
                    ++ (map_bytes ++ (ref_bytes ++ index_bytes))))))
          (read_table io)
          (table_of d ms bs is)
  layout_reads' p d maps count_bytes types paths names map_bytes ref_bytes index_bytes ms bs is r a
        v hc ht hp hn dm dr di =
      subst (λ x. DecodesAt p (ok (count_bytes ++ x)) (read_table io) (table_of d ms bs is))
        (sym (
          append_assoc types (paths ++ names) _
          ∙ ap (λ x. types ++ x) (append_assoc paths names _)))
        (layout_reads p d maps count_bytes types paths names map_bytes ref_bytes index_bytes ms bs
          is r a v hc ht hp hn dm dr di)
