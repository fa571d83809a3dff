-- ===== src/Nud/BoneRange.antt =====
-- Nud.get_bone_range of xfbin/structure/nud.py.
use xfbin_lib.Base.{
  ℕ, ◌≤◌, ◌==◌, ◌≡◌, refl, true, false, List, [], ◌∷◌, ◌++◌, none, some, Result, ok, raise,
  wrong_type, ltb, ◌>>=◌, >>=-ok_elim, ok_injective, arith, All, All-split, sym, Option-cases,
  Bool-cases, inl, inr, if◌then◌else◌,
}
use xfbin_lib.Nud.Types.{NudVertex, NudMesh, NudMeshGroup, Nud}
use xfbin_lib.Nud.Init.{has_bones}
use Prim.Native.Nat.{min, max}
use mathlib.Core.Path.{subst}

-- `min(lower, min(ids))` and `max(higher, max(ids))`, for the ids of a mesh that has some.
unfoldable pub widen : ℕ × ℕ → List ℕ → ℕ × ℕ
widen range [] = range
widen (lower, higher) (id ∷ ids) = widen (min lower id, max higher id) ids

-- The range takes in another one.
record Widens (a b : ℕ × ℕ) : Type 0 where
  lower : b.0 ≤ a.0
  higher : a.1 ≤ b.1

abbrev pub InRange : ℕ × ℕ → ℕ → Type 0
InRange range id = (range.0 ≤ id) × (id ≤ range.1)

widen-Widens : (range : ℕ × ℕ) (ids : List ℕ) → Widens range (widen range ids)
unfolding widen
widen-Widens range [] = record { lower = omega arith; higher = omega arith }
widen-Widens (lower, higher) (id ∷ ids) =
    let w = widen-Widens (min lower id, max higher id) ids in
    record { lower = omega (arith, w.lower); higher = omega (arith, w.higher) }

widen-InRange : (range : ℕ × ℕ) (ids : List ℕ) → All (InRange (widen range ids)) ids
unfolding widen
widen-InRange range [] = tt
widen-InRange (lower, higher) (id ∷ ids) =
    let w = widen-Widens (min lower id, max higher id) ids in
    (
      (omega (arith, w.lower), omega (arith, w.higher)),
      widen-InRange (min lower id, max higher id) ids,
    )

All-InRange_widen :
    (a b : ℕ × ℕ) (ids : List ℕ) → Widens a b → All (InRange a) ids → All (InRange b) ids
All-InRange_widen a b [] w h = tt
All-InRange_widen a b (id ∷ ids) w ((l, g), hs) =
    ((omega (arith, w.lower), omega (arith, w.higher)), All-InRange_widen a b ids w hs)

module _ {F : Type 0} where
  -- `chain(*map(lambda x: x.bone_ids, mesh.vertices))`; None is no iterable.
  unfoldable pub all_bone_ids : List (NudVertex F) → Result (List ℕ)
  all_bone_ids [] = ok []
  all_bone_ids (v ∷ vs) = do
    ids ← elim v.bone_ids [ none ↦ raise wrong_type | some ids ↦ ok ids ]
    rest ← all_bone_ids vs
    ok (ids ++ rest)

  -- The loop over the meshes with bone ids.
  unfoldable pub widen_meshes : ℕ × ℕ → List (NudMesh F) → Result (ℕ × ℕ)
  unfolding all_bone_ids widen has_bones
  widen_meshes range [] = ok range
  widen_meshes range (m ∷ meshes) = elim (has_bones m) [
    | false ↦ widen_meshes range meshes
    | true ↦ do ids ← all_bone_ids m.vertices; widen_meshes (widen range ids) meshes
  ]

  unfoldable pub get_bone_range : Nud F → Result (ℕ × ℕ)
  unfolding widen_meshes
  get_bone_range nud = elim nud.mesh_groups [
    | [] ↦ ok (0, 0)
    | ◌∷◌ group _ ↦ elim group.meshes [
      | [] ↦ ok (0, 0)
      | ◌∷◌ mesh _ ↦ if mesh.bone_type == 0 then ok (0, 0) else (do
        (lower, higher) ← widen_meshes (0xFFFF, 0) group.meshes
        if ltb higher lower then ok (0, 0) else ok (lower, higher))
    ]
  ]

  -- The bone ids of a mesh that has bones, and none of another mesh.
  abbrev pub mesh_ids : NudMesh F → Result (List ℕ)
  mesh_ids m = elim (has_bones m) [ false ↦ ok [] | true ↦ all_bone_ids m.vertices ]

  -- The bone ids of every mesh can be listed, and stand in the range.
  abbrev pub IdsInRange : ℕ × ℕ → List (NudMesh F) → Type 0
  IdsInRange range = All (λ m. (ids : List ℕ) × (mesh_ids m ≡ ok ids) × All (InRange range) ids)

  widen_meshes-IdsInRange :
      (range r : ℕ × ℕ) (meshes : List (NudMesh F))
      → widen_meshes range meshes ≡ ok r
      → Widens range r × IdsInRange r meshes
  unfolding widen_meshes
  widen_meshes-IdsInRange range r [] h = (
    subst (Widens range) (ok_injective h) (record { lower = omega arith; higher = omega arith }),
    tt,
  )
  widen_meshes-IdsInRange range r (m ∷ meshes) h = elim (Bool-cases (has_bones m)) [
    | inl e ↦
        >>=-ok_elim (Widens range r × IdsInRange r (m ∷ meshes)) (all_bone_ids m.vertices) _
          (rw (e, widen_meshes) at h)
          λ ids hi h₁.
            let (w, hs) = widen_meshes-IdsInRange (widen range ids) r meshes h₁ in
            let v = widen-Widens range ids in
            (
              record {
                lower = omega (arith, w.lower, v.lower);
                higher = omega (arith, w.higher, v.higher);
              },
              (
                (
                  ids,
                  rw (e, mesh_ids) hi,
                  All-InRange_widen (widen range ids) r ids w (widen-InRange range ids),
                ),
                hs,
              ),
            )
    | inr e ↦
        let (w, hs) = widen_meshes-IdsInRange range r meshes (rw (e, widen_meshes) at h) in
        (w, (([], rw (e, mesh_ids) refl, tt), hs))
  ]

  -- A range that is empty holds no id.
  empty_range :
      (a b : ℕ × ℕ) (meshes : List (NudMesh F))
      → ltb a.1 a.0 ≡ true
      → IdsInRange a meshes
      → IdsInRange b meshes
  empty_range a b [] e h = tt
  empty_range a b (m ∷ meshes) e ((ids, hi, r), hs) =
      ((ids, hi, none_of ids r), empty_range a b meshes e hs)
    where
      none_of : (ids : List ℕ) → All (InRange a) ids → All (InRange b) ids
      none_of [] r = tt
      none_of (id ∷ ids) ((l, g), r) = absurd (ground arith)

  -- A vertex has bone ids, and all of them stand in the range.
  abbrev pub VertexInRange : ℕ × ℕ → NudVertex F → Type 0
  VertexInRange range v = (ids : List ℕ) × (v.bone_ids ≡ some ids) × All (InRange range) ids

  -- Where the first vertex of the mesh has bone ids, every vertex has them, and all stand in the range.
  abbrev pub MeshInRange : ℕ × ℕ → NudMesh F → Type 0
  MeshInRange range m = has_bones m ≡ true → All (VertexInRange range) m.vertices

  vertices-InRange :
      (range : ℕ × ℕ) (vs : List (NudVertex F)) (ids : List ℕ)
      → all_bone_ids vs ≡ ok ids
      → All (InRange range) ids
      → All (VertexInRange range) vs
  unfolding all_bone_ids
  vertices-InRange range [] ids h r = tt
  vertices-InRange range (v ∷ vs) ids h r = elim (Option-cases v.bone_ids) [
    | inl miss ↦ cc (rw (miss, all_bone_ids) at h)
    | inr (own, e) ↦
        >>=-ok_elim (All (VertexInRange range) (v ∷ vs)) (all_bone_ids vs) _
          (rw (e, all_bone_ids) at h)
          λ rest hr h₁.
            let (here, there) =
              All-split (InRange range) own rest
                (subst (All (InRange range)) (sym (ok_injective h₁)) r) in
            ((own, e, here), vertices-InRange range vs rest hr there)
  ]

  meshes-InRange :
      (range : ℕ × ℕ) (meshes : List (NudMesh F))
      → IdsInRange range meshes
      → All (MeshInRange range) meshes
  meshes-InRange range [] h = tt
  meshes-InRange range (m ∷ meshes) ((ids, hi, r), hs) = (
    λ has. vertices-InRange range m.vertices ids (rw (has, mesh_ids) at hi) r,
    meshes-InRange range meshes hs,
  )

  -- Where the first mesh of the first group has a bone type, and `get_bone_range` returns a range: in every mesh
  -- of that group whose first vertex has bone ids, every vertex has bone ids (a list, or an empty one), and every one of
  -- them stands in the range, both ends included.
  pub get_bone_range-MeshInRange :
      (nud : Nud F) (group : NudMeshGroup F) (groups : List (NudMeshGroup F)) (mesh : NudMesh F)
      (meshes : List (NudMesh F)) (r : ℕ × ℕ)
      → nud.mesh_groups ≡ group ∷ groups
      → group.meshes ≡ mesh ∷ meshes
      → (mesh.bone_type == 0) ≡ false
      → get_bone_range nud ≡ ok r
      → All (MeshInRange r) group.meshes
  unfolding get_bone_range
  get_bone_range-MeshInRange nud group groups mesh meshes r hg hm hb h =
      meshes-InRange r group.meshes (
        >>=-ok_elim (IdsInRange r group.meshes) (widen_meshes (0xFFFF, 0) group.meshes) _
          (rw (hg, get_bone_range, hm, hb) at h)
          λ q hq h₁.
            let (w, ids) = widen_meshes-IdsInRange (0xFFFF, 0) q group.meshes hq in
            elim (Bool-cases (ltb q.1 q.0)) [
              | inl e ↦ empty_range q r group.meshes e ids
              | inr e ↦ subst (λ x. IdsInRange x group.meshes) (ok_injective (rw e at h₁)) ids
            ])
