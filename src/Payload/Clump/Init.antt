-- ===== src/Payload/Clump/Init.antt =====
-- NuccChunkClump.init_data and ClumpModelGroup.init_data (xfbin/structure/nucc.py).
use xfbin_lib.Base.{
  ℕ, suc, ◌-◌, ltb, if◌then◌else◌, List, [], ◌∷◌, length, map, Option, none, some, Result, ok,
  raise, index_error, attribute_error, at_index, map_ok, map_result, ◌>>=◌,
}
use xfbin_lib.Base.Int.{ℤ, pos, negsuc, ◌==ℤ◌}
use xfbin_lib.Chunk.{ChunkMap, is_instance}
use xfbin_lib.Payload.Types.{
  ModelGroup, BrModelGroup, ClumpCoord, Clump, BrClump, Seen, model_class,
}
use xfbin_lib.Payload.References.{chunk_of}

-- `xs[i]`: a negative index counts from the end.
unfoldable pub at_signed {ℓ} : {A : Type ℓ} → List A → ℤ → Result A
at_signed xs (pos i) = at_index xs i
at_signed xs (negsuc i) =
    if ltb i (length xs) then at_index xs (length xs - suc i) else raise index_error

-- `chunk_list[chunk_indices[x]] if x != -1 else None`
unfoldable pub init_model : {A : Type 0} → List A → List ℕ → ℤ → Result (Option A)
unfolding at_signed
init_model chunk_list chunk_indices x =
    if x ==ℤ negsuc 0
    then ok none
    else (at_signed chunk_indices x >>= λ j. map_ok some (at_index chunk_list j))

-- `coord_chunks[chunk.coord_index]` where `chunk.coord_index != -1`: the coord chunk that the model gets.
unfoldable pub set_coord : List Seen → Seen → Result (Option Seen)
unfolding at_signed
set_coord coord_chunks chunk = elim chunk.1.coord_index [
  | none ↦ raise attribute_error
  | some k ↦ if k ==ℤ negsuc 0 then ok none else map_ok some (at_signed coord_chunks k)
]

-- The loop over the models of a group; None is passed over.
unfoldable pub set_coords : List Seen → List (Option Seen) → Result (List (Option ChunkMap))
unfolding set_coord
set_coords coord_chunks [] = ok []
set_coords coord_chunks (none ∷ models) = map_ok (◌∷◌ none) (set_coords coord_chunks models)
set_coords coord_chunks (some chunk ∷ models) = do
  coord ← set_coord coord_chunks chunk
  rest ← set_coords coord_chunks models
  ok (some chunk.0 ∷ rest)

-- ClumpModelGroup.init_data; the `coord_chunk` of a model is looked up, and is not part of the model.
unfoldable pub init_model_group :
    List Seen → List Seen → List ℕ → BrModelGroup → Result (ModelGroup (Option ChunkMap))
unfolding init_model set_coords
init_model_group coord_chunks chunk_list chunk_indices group = elim group.fields [
  | none ↦ raise attribute_error
  | some g ↦ do
    found ← map_result (init_model chunk_list chunk_indices) g.models
    models ← set_coords coord_chunks found
    ok (record { flag0 = g.flag0; flag1 = g.flag1; unk = g.unk; models = models })
]

-- `chunk.node`, as the chunk of the node.
unfoldable pub node_of : Seen → Result ChunkMap
node_of chunk = if chunk.1.has_node then ok chunk.0 else raise attribute_error

-- `self.coord_chunks[j].node`, or no parent where `j == -1`.
unfoldable pub init_parent : List Seen → ℤ → Result (Option ChunkMap)
unfolding at_signed node_of
init_parent coord_chunks j =
    if j ==ℤ negsuc 0
    then ok none
    else (at_signed coord_chunks j >>= λ parent. map_ok some (node_of parent))

-- The loop over `zip(range(len(self.coord_chunks)), br_chunk.coordNodeParentsIndices)`.
unfoldable pub init_coords : List Seen → List Seen → List ℤ → Result (List ClumpCoord)
unfolding init_parent node_of
init_coords coord_chunks [] js = ok []
init_coords coord_chunks (c ∷ cs) [] =
    ok (map (λ x. record { chunk = x.0; parent = none }) (c ∷ cs))
init_coords coord_chunks (c ∷ cs) (j ∷ js) = do
  parent ← init_parent coord_chunks j
  node ← node_of c
  rest ← init_coords coord_chunks cs js
  ok (record { chunk = node; parent = parent } ∷ rest)

-- The loop over `br_chunk.modelIndices`.
unfoldable pub init_models : List Seen → List Seen → List ℕ → List ℕ → Result (List ChunkMap)
unfolding chunk_of set_coord is_instance
init_models coord_chunks chunk_list chunk_indices [] = ok []
init_models coord_chunks chunk_list chunk_indices (i ∷ is) = do
  model ← chunk_of chunk_list chunk_indices i
  coord ← if is_instance model.0 model_class then set_coord coord_chunks model else ok none
  rest ← init_models coord_chunks chunk_list chunk_indices is
  ok (model.0 ∷ rest)

-- NuccChunkClump.init_data
unfoldable pub init_clump : List Seen → List ℕ → BrClump → Result Clump
unfolding init_coords init_model_group chunk_of init_models
init_clump chunk_list chunk_indices br = do
  coord_chunks ← map_result (chunk_of chunk_list chunk_indices) br.coord_indices
  coords ← init_coords coord_chunks coord_chunks br.coord_parents
  models ← init_models coord_chunks chunk_list chunk_indices br.model_indices
  groups ← map_result (init_model_group coord_chunks chunk_list chunk_indices) br.model_groups
  ok (record {
    field00 = br.field00;
    coord_flag0 = br.coord_flag0;
    coord_flag1 = br.coord_flag1;
    model_flag0 = br.model_flag0;
    model_flag1 = br.model_flag1;
    coords = coords;
    models = models;
    model_groups = groups;
  })
