-- ===== src/File/Objects/Store.antt =====
-- The objects of a file keep the type, path and name that the table gives them.
use xfbin_lib.Base
use xfbin_lib.Base.{
  ◌≢◌, ℕ, zero, suc, ◌≡◌, refl, sym, ap, ◌∙◌, false, List, [], ◌∷◌, map, length, All, ok, some,
  none, get_elem?, at_index, at_index_of_get_elem?, map_result, Forall₂, nil, cons, >>=-ok_elim,
  ok_injective,
}
use xfbin_lib.Chunk.{ChunkMap, NuccChunk, init, create_from_nucc_type}
use xfbin_lib.Chunk.TypeNames.{starts_lower, type_from_str_from_type}
use xfbin_lib.Table.Types.{BrChunkMap, BrChunkTable, Props, props_of, get_props_from_chunk_map}
use xfbin_lib.File.Resolve.{props_of-eq}
use xfbin_lib.File.Objects.{maps_of, set_object, create_chunks, object_at}
use mathlib.Core.Option

module _ {P : Type 0} where
  pub get_elem?-maps_of :
      (store : List (NuccChunk P)) (i : ℕ) (m : ChunkMap)
      → get_elem? (maps_of store) i ≡ some m
      → (c : NuccChunk P) × (get_elem? store i ≡ some c) × (c.chunk_map ≡ m)
  get_elem?-maps_of [] i m h = absurd (Option.none-ne-some _ h)
  get_elem?-maps_of (c ∷ store) zero m h = (c, refl, Option.some-injective _ _ h)
  get_elem?-maps_of (c ∷ store) (suc i) m h = get_elem?-maps_of store i m h

  pub maps_of-set_object :
      (store : List (NuccChunk P)) (i : ℕ) (c c' : NuccChunk P)
      → get_elem? store i ≡ some c
      → c'.chunk_map ≡ c.chunk_map
      → maps_of (set_object store i c') ≡ maps_of store
  unfolding set_object
  maps_of-set_object [] i c c' h e = refl
  maps_of-set_object (x ∷ store) zero c c' h e =
      ap (λ m. m ∷ maps_of store)
        (e ∙ ap (λ (y : NuccChunk P). y.chunk_map) (sym (Option.some-injective _ _ h)))
  maps_of-set_object (x ∷ store) (suc i) c c' h e =
      ap (◌∷◌ x.chunk_map) (maps_of-set_object store i c c' h e)

  pub get_elem?-set_object :
      (store : List (NuccChunk P)) (i : ℕ) (c c' : NuccChunk P)
      → get_elem? store i ≡ some c
      → get_elem? (set_object store i c') i ≡ some c'
  unfolding set_object
  get_elem?-set_object [] i c c' h = absurd (Option.none-ne-some _ h)
  get_elem?-set_object (x ∷ store) zero c c' h = refl
  get_elem?-set_object (x ∷ store) (suc i) c c' h = get_elem?-set_object store i c c' h

  pub get_elem?-set_object_apart :
      (store : List (NuccChunk P)) (i j : ℕ) (c' : NuccChunk P)
      → i ≢ j
      → get_elem? (set_object store i c') j ≡ get_elem? store j
  unfolding set_object
  get_elem?-set_object_apart [] i j c' n = refl
  get_elem?-set_object_apart (x ∷ store) zero zero c' n = absurd (n refl)
  get_elem?-set_object_apart (x ∷ store) zero (suc j) c' n = refl
  get_elem?-set_object_apart (x ∷ store) (suc i) zero c' n = refl
  get_elem?-set_object_apart (x ∷ store) (suc i) (suc j) c' n =
      get_elem?-set_object_apart store i j c' (λ e. n (ap suc e))

  -- The objects that are created for maps that the table describes.
  create_maps :
      (t : BrChunkTable) (maps : List ChunkMap) (ms : List BrChunkMap)
      → All (λ m. starts_lower m.type_name ≡ false) maps
      → Forall₂
          (λ c m. (p : Props) × (props_of c ≡ ok p) × (get_props_from_chunk_map t m ≡ ok p))
          maps
          ms
      → map_result
          (λ m.
            Base.◌>>=◌
              (get_props_from_chunk_map t m)
              λ p. create_from_nucc_type {P = P} p.type_str p.file_path p.name)
          ms
        ≡ ok (map init maps)
  unfolding create_from_nucc_type
  create_maps t _ _ up nil = refl
  create_maps t _ _ up (cons {a = c} {b = m} {l₁ = cs} {l₂ = ms} (p, hp, hg) hs) =
      let (ht, hf, hn) = props_of-eq c p hp in
      rw
        (
          hg,
          type_from_str_from_type c.type_name p.type_str up.0 ht,
          hf,
          hn,
          create_maps t cs ms up.1 hs,
        )
        refl

  pub create_chunks-maps :
      (t : BrChunkTable) (maps : List ChunkMap)
      → All (λ m. starts_lower m.type_name ≡ false) maps
      → Forall₂
          (λ c m. (p : Props) × (props_of c ≡ ok p) × (get_props_from_chunk_map t m ≡ ok p))
          maps
          t.chunk_maps
      → create_chunks {P = P} t ≡ ok (map init maps)
  unfolding create_chunks
  create_chunks-maps t maps up d = create_maps t maps t.chunk_maps up d

  -- Indices of chunks are places of objects.
  pub map_result-object_at :
      (store : List (NuccChunk P)) (cs : List ChunkMap) (is : List ℕ)
      → Forall₂ (λ c i. get_elem? (maps_of store) i ≡ some c) cs is
      → map_result (object_at store) is ≡ ok is
  map_result-object_at store _ _ nil = refl
  map_result-object_at store _ _ (cons {a = c} {b = i} {l₁ = cs} {l₂ = is} h hs) =
      let (x, hx, e) = get_elem?-maps_of store i c h in
      rw (at_index_of_get_elem? store i hx, map_result-object_at store cs is hs) refl

pub maps_of-init : (P : Type 0) (maps : List ChunkMap) → maps_of (map (init {P = P}) maps) ≡ maps
unfolding init
maps_of-init P [] = refl
maps_of-init P (m ∷ maps) = ap (◌∷◌ m) (maps_of-init P maps)
