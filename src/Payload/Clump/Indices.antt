-- ===== src/Payload/Clump/Indices.antt =====
-- The indices of a clump lead back to its chunks.
use xfbin_lib.Base.{
  true, All, get_elem?-Forall₂, Forall₂, nil, cons, Bool-cases, inl, inr, ℕ, ◌≡◌, refl, sym, ap,
  ◌∙◌, List, [], ◌∷◌, map, length, Option, none, some, ok, map_result, map_ok-ok, >>=-ok_elim,
  ok_injective, at_index_of_get_elem?, suc,
}
use mathlib.Core.Path.{subst}
use xfbin_lib.Base.Int.{ℤ, pos}
use xfbin_lib.Dict.{IterativeDict, keys, get_or_next}
use xfbin_lib.Dict.Numbering.{IsNumbered, get_elem?-get_or_next}
use xfbin_lib.Dict.Growth.{index_of, get_elem?-index_of}
use xfbin_lib.Chunk.{ChunkMap, ChunkMap-discrete, is_instance}
use xfbin_lib.Payload.Types.{ModelGroup, BrModelGroup, ClumpCoord, Seen, model_class}
use xfbin_lib.Payload.References.{
  Numbers, Numbers-refl, Numbers-trans, get_or_next-Numbers, Resolves-Grows, Place, chunk_of,
}
use xfbin_lib.Payload.Clump.{
  index_model, index_models, index_model_groups, parent_index, parent_indices, chunks_of,
}
use xfbin_lib.Payload.Clump.Init.{
  at_signed, init_model, set_coords, init_model_group, node_of, init_parent, init_coords,
  init_models,
}
use xfbin_lib.Payload.Clump.Ready.{
  HasCoord, EachView, GroupReady, set_coord-ok, ResolvesTo, chunk_of-seen,
}

-- A group as it is read, when it is written with its count.
abbrev pub br_group : ModelGroup ℤ → BrModelGroup
br_group g = record { model_count = pos (length g.models); fields = some g }

index_model-Numbers :
    (d : IterativeDict ChunkMap) (x : Option ChunkMap) → Numbers d (index_model d x).0
unfolding index_model
index_model-Numbers d none = Numbers-refl d
index_model-Numbers d (some c) = get_or_next-Numbers d c

pub index_models-Numbers :
    (d : IterativeDict ChunkMap) (xs : List (Option ChunkMap)) → Numbers d (index_models d xs).0
unfolding index_models
index_models-Numbers d [] = Numbers-refl d
index_models-Numbers d (x ∷ xs) =
    Numbers-trans (index_model-Numbers d x) (index_models-Numbers (index_model d x).0 xs)

pub index_model_groups-Numbers :
    (d : IterativeDict ChunkMap) (gs : List (ModelGroup (Option ChunkMap)))
    → Numbers d (index_model_groups d gs).0
unfolding index_model_groups
index_model_groups-Numbers d [] = Numbers-refl d
index_model_groups-Numbers d (g ∷ gs) =
    Numbers-trans (index_models-Numbers d g.models)
      (index_model_groups-Numbers (index_models d g.models).0 gs)

pub length-index_models :
    (d : IterativeDict ChunkMap) (xs : List (Option ChunkMap))
    → length (index_models d xs).1 ≡ length xs
unfolding index_models
length-index_models d [] = refl
length-index_models d (x ∷ xs) = ap suc (length-index_models (index_model d x).0 xs)

module _ (chunk_list : List Seen) (chunk_indices : List ℕ) where
  module _ (coord_chunks : List Seen) (n : ℕ) (size : length coord_chunks ≡ n) where
    pub init_models-Place :
        {d : IterativeDict ChunkMap} (cs : List ChunkMap) (is : List ℕ)
        → ResolvesTo chunk_list chunk_indices d
        → Forall₂ (Place d) cs is
        → All (λ c. is_instance c model_class ≡ true → EachView chunk_list c (HasCoord n)) cs
        → init_models coord_chunks chunk_list chunk_indices is ≡ ok cs
    unfolding init_models chunk_of
    init_models-Place _ _ r nil q = refl
    init_models-Place _ _ r (cons {a = c} {b = i} {l₁ = cs} {l₂ = is} h hs) (q, qs) =
        let (v, j, hj, hv) = chunk_of-seen chunk_list chunk_indices i c (r.resolved i c h) in
        let rest = init_models-Place cs is r hs qs in
        elim (Bool-cases (is_instance c model_class)) [
          | inl e ↦
              let (x, hx) = set_coord-ok coord_chunks n (c, v) size (q e v j hv) in
              rw (hj, at_index_of_get_elem? chunk_list j hv, e, hx, rest) refl
          | inr e ↦ rw (hj, at_index_of_get_elem? chunk_list j hv, e, rest) refl
        ]

    abbrev IsEntry : Option ChunkMap → Option Seen → Type 0
    IsEntry none none = Unit {0}
    IsEntry none (some s) = ⊥
    IsEntry (some c) none = ⊥
    IsEntry (some c) (some s) = (s.0 ≡ c) × HasCoord n s.1

    set_coords-IsEntry :
        (xs : List (Option ChunkMap)) (ys : List (Option Seen))
        → Forall₂ IsEntry xs ys
        → set_coords coord_chunks ys ≡ ok xs
    unfolding set_coords
    set_coords-IsEntry _ _ nil = refl
    set_coords-IsEntry _ _ (cons {a = none} {b = none} {l₁ = xs} {l₂ = ys} h hs) =
        rw (set_coords-IsEntry xs ys hs) refl
    set_coords-IsEntry _ _ (cons {a = some c} {b = some s} {l₁ = xs} {l₂ = ys} (e, q) hs) =
        let (x, hx) = set_coord-ok coord_chunks n s size q in
        rw (hx, set_coords-IsEntry xs ys hs, e) refl
    set_coords-IsEntry _ _ (cons {a = none} {b = some s} h hs) = absurd h
    set_coords-IsEntry _ _ (cons {a = some c} {b = none} h hs) = absurd h

    init_model-index_model :
        (d : IterativeDict ChunkMap) (x : Option ChunkMap)
        → IsNumbered d
        → ResolvesTo chunk_list chunk_indices (index_model d x).0
        → GroupReady chunk_list n x
        → (y : Option Seen) × (init_model chunk_list chunk_indices (index_model d x).1 ≡ ok y)
          × IsEntry x y
    unfolding index_model init_model at_signed
    init_model-index_model d none k r q = (none, refl, tt)
    init_model-index_model d (some c) k r q =
        let i = (get_or_next ChunkMap-discrete d c).1 in
        let (v, j, hj, hv) =
          chunk_of-seen chunk_list chunk_indices i c
            (r.resolved i c (get_elem?-get_or_next ChunkMap-discrete d c k)) in
        (some (c, v), rw (hj, at_index_of_get_elem? chunk_list j hv) refl, (refl, q v j hv))

    init_models-index_models :
        (d : IterativeDict ChunkMap) (xs : List (Option ChunkMap))
        → IsNumbered d
        → ResolvesTo chunk_list chunk_indices (index_models d xs).0
        → All (GroupReady chunk_list n) xs
        → (ys : List (Option Seen)) × (map_result
              (init_model chunk_list chunk_indices)
              (index_models d xs).1
            ≡ ok ys)
          × Forall₂ IsEntry xs ys
    unfolding index_models
    init_models-index_models d [] k r q = ([], refl, nil)
    init_models-index_models d (x ∷ xs) k r (q, qs) =
        let d₁ = (index_model d x).0 in
        let (y, hy, e) =
          init_model-index_model d x k (Resolves-Grows (index_models-Numbers d₁ xs).grows r) q in
        let (ys, hys, es) =
          init_models-index_models d₁ xs ((index_model-Numbers d x).numbered k) r qs in
        (y ∷ ys, rw (hy, hys) refl, cons e es)

    pub init_groups-index_model_groups :
        (d : IterativeDict ChunkMap) (gs : List (ModelGroup (Option ChunkMap)))
        → IsNumbered d
        → ResolvesTo chunk_list chunk_indices (index_model_groups d gs).0
        → All (λ (g : ModelGroup (Option ChunkMap)). All (GroupReady chunk_list n) g.models) gs
        → map_result
            (init_model_group coord_chunks chunk_list chunk_indices)
            (map br_group (index_model_groups d gs).1)
          ≡ ok gs
    unfolding index_model_groups init_model_group
    init_groups-index_model_groups d [] k r q = refl
    init_groups-index_model_groups d (g ∷ gs) k r (q, qs) =
        let d₁ = (index_models d g.models).0 in
        let (ys, found, entries) =
          init_models-index_models d g.models k
            (Resolves-Grows (index_model_groups-Numbers d₁ gs).grows r) q in
        rw
          (
            found,
            set_coords-IsEntry g.models ys entries,
            init_groups-index_model_groups d₁ gs ((index_models-Numbers d g.models).numbered k) r
                qs,
          )
          refl

-- The object of a coord has the node.
abbrev pub HasNode : ChunkMap → Seen → Type 0
HasNode c s = (s.0 ≡ c) × (s.1.has_node ≡ true)

-- The parents, by their places among the coords.
init_parent-parent_index :
    (locals : IterativeDict ChunkMap) (all : List Seen) (parent : Option ChunkMap) (j : ℤ)
    → IsNumbered locals
    → Forall₂ HasNode (keys locals) all
    → parent_index locals parent ≡ ok j
    → init_parent all j ≡ ok parent
unfolding parent_index init_parent at_signed node_of
init_parent-parent_index locals all none j n nodes h =
    subst (λ i. init_parent all i ≡ ok none) (ok_injective h) refl
init_parent-parent_index locals all (some p) j n nodes h =
    let (i, hi, e) = map_ok-ok pos (index_of ChunkMap-discrete locals p) j h in
    let (s, hs, (same, node)) =
      get_elem?-Forall₂ i p nodes (get_elem?-index_of ChunkMap-discrete locals p n hi) in
    subst (λ k. init_parent all k ≡ ok (some p)) e
      (rw (at_index_of_get_elem? all i hs, node, same) refl)

pub init_coords-parent_indices :
    (locals : IterativeDict ChunkMap) (all ss : List Seen) (cs : List ClumpCoord) (js : List ℤ)
    → IsNumbered locals
    → Forall₂ HasNode (keys locals) all
    → Forall₂ HasNode (chunks_of cs) ss
    → parent_indices locals cs ≡ ok js
    → init_coords all ss js ≡ ok cs
unfolding init_coords node_of
init_coords-parent_indices locals all _ [] js n nodes nil h = refl
init_coords-parent_indices locals all _ (c ∷ cs) js n nodes (cons {b = s} {l₂ = ss} (same, node) hs)
      h =
    let P = init_coords all (s ∷ ss) js ≡ ok (c ∷ cs) in
    >>=-ok_elim P (parent_index locals c.parent) _ h λ j hj h₁.
      >>=-ok_elim P (parent_indices locals cs) _ h₁ λ ks hk h₂.
        subst (λ is. init_coords all (s ∷ ss) is ≡ ok (c ∷ cs)) (ok_injective h₂)
          (rw
            (
              init_parent-parent_index locals all c.parent j n nodes hj,
              node,
              same,
              init_coords-parent_indices locals all ss cs ks n nodes hs hk,
            )
            refl)

pub length-parent_indices :
    (locals : IterativeDict ChunkMap) (cs : List ClumpCoord) (js : List ℤ)
    → parent_indices locals cs ≡ ok js
    → length js ≡ length cs
length-parent_indices locals [] js h = ap length (sym (ok_injective h))
length-parent_indices locals (c ∷ cs) js h =
    >>=-ok_elim _ (parent_index locals c.parent) _ h λ j hj h₁.
      >>=-ok_elim _ (parent_indices locals cs) _ h₁ λ ks hk h₂.
        ap length (sym (ok_injective h₂)) ∙ ap suc (length-parent_indices locals cs ks hk)
