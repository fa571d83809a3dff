-- ===== src/Payload/Clump/Reads.antt =====
-- A clump reads back as it was written.
use xfbin_lib.Base.{
  ℕ, ◌<◌, ◌≡◌, sym, ap, ◌∙◌, List, [], ◌∷◌, map, length, All, ok, >>=-ok_elim, map_ok-ok,
  length-map,
}
use xfbin_lib.Base.Int.{ℤ}
use xfbin_lib.Binary.{Bytes, BinaryReader, Decodes}
use xfbin_lib.Binary.Rules.{Decodes-bind, Decodes-map, Decodes_of_ok}
use xfbin_lib.Binary.Sequence.{Decodes-count}
use xfbin_lib.Dict
use xfbin_lib.Dict.{IterativeDict, keys}
use xfbin_lib.Chunk.{ChunkMap}
use xfbin_lib.Payload.Types.{ModelGroup, Clump, BrClump}
use xfbin_lib.Payload.References.{
  Numbers, Numbers-trans, get_or_next_each, get_or_next_each-Numbers, get_or_next_each-length,
}
use xfbin_lib.Payload.Clump.{
  index_models, index_model_groups, parent_indices, chunks_of, coord_chunks_dict, write_clump,
  read_clump,
}
use xfbin_lib.Payload.Clump.Indices.{
  br_group, index_model_groups-Numbers, length-index_models, length-parent_indices,
}
use xfbin_lib.Payload.Clump.Groups.{IsSmall, read_groups-write_groups}
use mathlib.Core.Path.{subst}

index_model_groups-IsSmall :
    (d : IterativeDict ChunkMap) (gs : List (ModelGroup _))
    → All IsSmall gs
    → All IsSmall (index_model_groups d gs).1
unfolding index_model_groups
index_model_groups-IsSmall d [] h = tt
index_model_groups-IsSmall d (g ∷ gs) (h, hs) = (
  subst (λ n. n < 0x8000) (sym (length-index_models d g.models)) h,
  index_model_groups-IsSmall (index_models d g.models).0 gs hs,
)

-- What BrNuccChunkClump reads for a clump.
module _ (d : IterativeDict ChunkMap) (chunk : Clump) where
  abbrev coords_indexed : IterativeDict ChunkMap × List ℕ
  coords_indexed = get_or_next_each d (chunks_of chunk.coords)

  abbrev models_indexed : IterativeDict ChunkMap × List ℕ
  models_indexed = get_or_next_each coords_indexed.0 chunk.models

  abbrev groups_indexed : IterativeDict ChunkMap × List (ModelGroup ℤ)
  groups_indexed = index_model_groups models_indexed.0 chunk.model_groups

  abbrev clump_struct : List ℤ → BrClump
  clump_struct parents = record {
    field00 = chunk.field00;
    coord_flag0 = chunk.coord_flag0;
    coord_flag1 = chunk.coord_flag1;
    model_flag0 = chunk.model_flag0;
    model_flag1 = chunk.model_flag0;
    coord_parents = parents;
    coord_indices = coords_indexed.1;
    model_indices = models_indexed.1;
    model_groups = map br_group groups_indexed.1;
  }

module _ {Float : Type 0} (io : BinaryReader Float) where
  open io use {
    write_uint8, write_uint16, write_uint32, write_int16, write_int32, read_uint8, read_uint16,
    read_uint32, read_int16, read_int32, uint8_reads, uint16_reads, uint32_reads, int16_reads,
  }

  -- What BrNuccChunkClump reads of what was written, whatever the dictionary.
  pub record ClumpRead (d d' : IterativeDict ChunkMap) (chunk : Clump) (bs : Bytes) : Type 0 where
    pub parents : List ℤ
    pub parent_places : parent_indices (coord_chunks_dict chunk.coords) chunk.coords ≡ ok parents
    pub reads : Decodes (ok bs) (read_clump io) (clump_struct d chunk parents)
    pub dict : (groups_indexed d chunk).0 ≡ d'

  pub clump_reads :
      (d d' : IterativeDict ChunkMap) (chunk : Clump) (bs : Bytes)
      → All IsSmall chunk.model_groups
      → write_clump io d chunk ≡ ok (d', bs)
      → ClumpRead d d' chunk bs
  unfolding write_clump read_clump
  clump_reads d d' chunk bs small h =
      >>=-ok_elim _ (parent_indices (coord_chunks_dict chunk.coords) chunk.coords) _ h
        λ parents hp h₁.
          let (ys, hy, e) = map_ok-ok _ _ (d', bs) h₁ in
          let c = coords_indexed d chunk in
          let m = models_indexed d chunk in
          let g = groups_indexed d chunk in
          record {
            parents = parents;
            parent_places = hp;
            reads =
                Decodes_of_ok
                  (Decodes-bind _ chunk.field00 (uint32_reads _) (
                    Decodes-bind _ (length chunk.coords) (uint16_reads _) (
                      Decodes-bind _ chunk.coord_flag0 (uint8_reads _) (
                        Decodes-bind _ chunk.coord_flag1 (uint8_reads _) (
                          Decodes-bind _ parents
                            (Decodes-count write_int16 read_int16 _ parents int16_reads (
                              length-parent_indices (coord_chunks_dict chunk.coords) chunk.coords
                                parents hp))
                            (Decodes-bind _ c.1
                              (Decodes-count write_uint32 read_uint32 _ c.1 uint32_reads (
                                get_or_next_each-length d (chunks_of chunk.coords)
                                ∙ length-map _ chunk.coords))
                              (Decodes-bind _ (length chunk.models) (uint16_reads _) (
                                Decodes-bind _ chunk.model_flag0 (uint8_reads _) (
                                  Decodes-bind _ chunk.model_flag0 (uint8_reads _) (
                                    Decodes-bind _ 0 (uint32_reads _) (
                                      Decodes-bind _ m.1
                                        (Decodes-count write_uint32 read_uint32 _ m.1 uint32_reads
                                          (get_or_next_each-length c.0 chunk.models))
                                        (Decodes-map _ _ (
                                          read_groups-write_groups io g.1 (
                                            index_model_groups-IsSmall m.0 chunk.model_groups
                                              small))))))))))))))
                  (hy ∙ ap (λ x. ok x.1) e);
            dict = ap (λ x. x.0) e;
          }

  pub write_clump-Numbers :
      (d d' : IterativeDict ChunkMap) (chunk : Clump) (bs : Bytes)
      → write_clump io d chunk ≡ ok (d', bs)
      → Numbers d d'
  unfolding write_clump
  write_clump-Numbers d d' chunk bs h =
      >>=-ok_elim _ (parent_indices (coord_chunks_dict chunk.coords) chunk.coords) _ h
        λ parents hp h₁.
          let (ys, hy, e) = map_ok-ok _ _ (d', bs) h₁ in
          subst (Numbers d) (ap (λ x. x.0) e) (
            Numbers-trans (get_or_next_each-Numbers d (chunks_of chunk.coords)) (
              Numbers-trans (get_or_next_each-Numbers (coords_indexed d chunk).0 chunk.models)
                (index_model_groups-Numbers (models_indexed d chunk).0 chunk.model_groups)))
