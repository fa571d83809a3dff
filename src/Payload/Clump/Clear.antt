-- ===== src/Payload/Clump/Clear.antt =====
-- NuccChunkClump.clear_non_model_chunks (xfbin/structure/nucc.py).
use xfbin_lib.Base.{
  ℕ, ◌+◌, ◌-◌, ◌≤◌, ◌≡◌, refl, ap, ◌∙◌, Bool, true, false, not, if◌then◌else◌, Bool-cases, inl, inr,
  List, [], ◌∷◌, map, length, Forall₂, nil, cons, All, Option, none, some, arith,
}
use xfbin_lib.Chunk.{ChunkMap, is_instance, text_eq, text_eq_iff, codes}
use xfbin_lib.Payload.Types.{ModelGroup, Clump, model_class}

-- `isinstance(x, NuccChunkModel) or ((x is None) if (not none_refs) else False)`
unfoldable pub is_kept : Bool → Option ChunkMap → Bool
unfolding is_instance
is_kept none_refs none = if not none_refs then true else false
is_kept none_refs (some c) = is_instance c model_class

-- `[x for x in xs if keep(x)]`
unfoldable pub keep_if : {A : Type 0} → (A → Bool) → List A → List A
keep_if keep [] = []
keep_if keep (x ∷ xs) = if keep x then x ∷ keep_if keep xs else keep_if keep xs

abbrev pub keep_group : Bool → ModelGroup (Option ChunkMap) → ModelGroup (Option ChunkMap)
keep_group none_refs group = record {
  flag0 = group.flag0;
  flag1 = group.flag1;
  unk = group.unk;
  models = keep_if (is_kept none_refs) group.models;
}

abbrev pub sum_models : List (ModelGroup (Option ChunkMap)) → ℕ
sum_models [] = 0
sum_models (g ∷ gs) = length g.models + sum_models gs

-- `len(self.model_chunks) + sum(...)`
abbrev pub count_models : Clump → ℕ
count_models clump = length clump.models + sum_models clump.model_groups

-- The clump after the call, and the number that it returns. The list of models holds no None.
unfoldable pub clear_non_model_chunks : Bool → Bool → Bool → Clump → Clump × ℕ
unfolding keep_if is_kept
clear_non_model_chunks model_list model_groups none_refs clump =
    let cleared : Clump = record clump {
      models =
          if model_list
          then keep_if (λ c. is_kept none_refs (some c)) clump.models
          else clump.models;
      model_groups =
          if model_groups
          then map (keep_group none_refs) clump.model_groups
          else clump.model_groups;
    } in
    (cleared, count_models clump - count_models cleared)

module _ {A : Type 0} (keep : A → Bool) where
  keep_if-All : (xs : List A) → All (λ x. keep x ≡ true) (keep_if keep xs)
  unfolding keep_if
  keep_if-All [] = tt
  keep_if-All (x ∷ xs) = elim (Bool-cases (keep x)) [
    | inl e ↦ rw e (e, keep_if-All xs)
    | inr e ↦ rw e (keep_if-All xs)
  ]

  length-keep_if : (xs : List A) → length (keep_if keep xs) ≤ length xs
  unfolding keep_if
  length-keep_if [] = omega arith
  length-keep_if (x ∷ xs) = elim (Bool-cases (keep x)) [
    | inl e ↦ rw e (omega (arith, length-keep_if xs))
    | inr e ↦ rw e (omega (arith, length-keep_if xs))
  ]

  keep_if_same : (xs : List A) → All (λ x. keep x ≡ true) xs → keep_if keep xs ≡ xs
  unfolding keep_if
  keep_if_same [] h = refl
  keep_if_same (x ∷ xs) (h, hs) = rw (h, keep_if_same xs hs) refl

  keep_if_twice : (xs : List A) → keep_if keep (keep_if keep xs) ≡ keep_if keep xs
  keep_if_twice xs = keep_if_same (keep_if keep xs) (keep_if-All xs)

sum_models-keep_group :
    (none_refs : Bool) (gs : List (ModelGroup (Option ChunkMap)))
    → sum_models (map (keep_group none_refs) gs) ≤ sum_models gs
sum_models-keep_group none_refs [] = omega arith
sum_models-keep_group none_refs (g ∷ gs) =
    omega (arith, length-keep_if (is_kept none_refs) g.models, sum_models-keep_group none_refs gs)

keep_group_twice :
    (none_refs : Bool) (gs : List (ModelGroup (Option ChunkMap)))
    → map (keep_group none_refs) (map (keep_group none_refs) gs) ≡ map (keep_group none_refs) gs
keep_group_twice none_refs [] = refl
keep_group_twice none_refs (g ∷ gs) =
    rw (keep_if_twice (is_kept none_refs) g.models, keep_group_twice none_refs gs) refl

-- A clump that has only what is kept stays as it is.
cleared_again :
    (none_refs : Bool) (clump : Clump) (ms : List ChunkMap)
    (gs : List (ModelGroup (Option ChunkMap)))
    → keep_if (λ c. is_kept none_refs (some c)) ms ≡ ms
    → map (keep_group none_refs) gs ≡ gs
    → clear_non_model_chunks true true none_refs (record clump { models = ms; model_groups = gs })
      ≡ (record clump { models = ms; model_groups = gs }, 0)
unfolding clear_non_model_chunks
cleared_again none_refs clump ms gs em eg =
    let c : Clump = record clump { models = ms; model_groups = gs } in
    ap
      (λ (p : List ChunkMap × List (ModelGroup (Option ChunkMap))).
        let d : Clump = record clump { models = p.0; model_groups = p.1 } in
        (d, count_models c - count_models d))
      (pair em eg)
    ∙ ap (λ n. (c, n)) (omega arith)
  where
    pair :
        {xs ys : List ChunkMap} {us vs : List (ModelGroup (Option ChunkMap))}
        → xs ≡ ys
        → us ≡ vs
        → ◌≡◌ {A = List ChunkMap × List (ModelGroup (Option ChunkMap))} (xs, us) (ys, vs)
    pair h k = cc

-- `ys` are the elements of `xs` that are good, in order, each as often as it stands there.
pub data Selects {A : Type 0} (Good : A → Type 0) : List A → List A → Type 0 where
  nothing : Selects Good [] []
  take : {x : A} {xs ys : List A} → Good x → Selects Good xs ys → Selects Good (x ∷ xs) (x ∷ ys)
  leave : {x : A} {xs ys : List A} → ¬ Good x → Selects Good xs ys → Selects Good (x ∷ xs) ys

keep_if-Selects :
    {A : Type 0} (keep : A → Bool) (Good : A → Type 0)
    → ((x : A) → keep x ≡ true → Good x)
    → ((x : A) → keep x ≡ false → ¬ Good x)
    → (xs : List A) → Selects Good xs (keep_if keep xs)
unfolding keep_if
keep_if-Selects keep Good good bad [] = nothing
keep_if-Selects keep Good good bad (x ∷ xs) = elim (Bool-cases (keep x)) [
  | inl e ↦ rw e (take (good x e) (keep_if-Selects keep Good good bad xs))
  | inr e ↦ rw e (leave (bad x e) (keep_if-Selects keep Good good bad xs))
]

abbrev pub IsModel : ChunkMap → Type 0
IsModel c = c.type_name ≡ codes "NuccChunkModel"

-- A model, or None where `none_refs` is not set.
abbrev pub IsModelOrNone : Bool → Option ChunkMap → Type 0
IsModelOrNone none_refs none = none_refs ≡ false
IsModelOrNone none_refs (some c) = IsModel c

is_kept-true :
    (none_refs : Bool) (x : Option ChunkMap)
    → is_kept none_refs x ≡ true
    → IsModelOrNone none_refs x
unfolding is_kept is_instance text_eq
is_kept-true true none h = cc
is_kept-true false none h = refl
is_kept-true none_refs (some c) h =
    (text_eq_iff c.type_name model_class).0
      (elim (Bool-cases (text_eq c.type_name model_class)) [ inl e ↦ e | inr e ↦ cc (rw e at h) ])

is_kept-false :
    (none_refs : Bool) (x : Option ChunkMap)
    → is_kept none_refs x ≡ false
    → ¬ IsModelOrNone none_refs x
unfolding is_kept is_instance
is_kept-false true none h e = cc
is_kept-false false none h e = cc
is_kept-false none_refs (some c) h e = cc (rw ((text_eq_iff c.type_name model_class).1 e) at h)

groups-Selects :
    (none_refs : Bool) (gs : List (ModelGroup (Option ChunkMap)))
    → Forall₂
        (λ (g r : ModelGroup (Option ChunkMap)).
          (record r { models = g.models } ≡ g)
          × Selects (IsModelOrNone none_refs) g.models r.models)
        gs
        (map (keep_group none_refs) gs)
groups-Selects none_refs [] = nil
groups-Selects none_refs (g ∷ gs) =
    cons
      (
        refl,
        keep_if-Selects (is_kept none_refs) (IsModelOrNone none_refs) (is_kept-true none_refs)
            (is_kept-false none_refs) g.models,
      )
      (groups-Selects none_refs gs)

-- What `clear_non_model_chunks` leaves, with both lists asked for.
pub record Cleared (none_refs : Bool) (clump : Clump) (r : Clump × ℕ) : Type 0 where
  pub models : Selects IsModel clump.models r.0.models
  pub groups :
      Forall₂
        (λ (g g' : ModelGroup (Option ChunkMap)).
          (record g' { models = g.models } ≡ g)
          × Selects (IsModelOrNone none_refs) g.models g'.models)
        clump.model_groups
        r.0.model_groups
  pub counted : count_models clump ≡ count_models r.0 + r.1
  pub again : clear_non_model_chunks true true none_refs r.0 ≡ (r.0, 0)

-- `clear_non_model_chunks`, asked for the list of models and the groups, leaves in the list exactly the models that
-- were there, in order, and in each group, whose flags stay, exactly the models and, unless `none_refs` is set, the
-- entries None; the number that it returns, and the number of entries that are left, make the number of entries
-- before; and a second call changes nothing and returns 0.
pub clear_non_model_chunks-Cleared :
    (none_refs : Bool) (clump : Clump)
    → Cleared none_refs clump (clear_non_model_chunks true true none_refs clump)
unfolding clear_non_model_chunks
clear_non_model_chunks-Cleared none_refs clump = record {
  models =
      keep_if-Selects (λ c. is_kept none_refs (some c)) IsModel
        (λ c. is_kept-true none_refs (some c)) (λ c. is_kept-false none_refs (some c)) clump.models;
  groups = groups-Selects none_refs clump.model_groups;
  counted = omega (
    arith,
    length-keep_if (λ c. is_kept none_refs (some c)) clump.models,
    sum_models-keep_group none_refs clump.model_groups,
  );
  again =
      cleared_again none_refs clump (keep_if (λ c. is_kept none_refs (some c)) clump.models)
        (map (keep_group none_refs) clump.model_groups)
        (keep_if_twice (λ c. is_kept none_refs (some c)) clump.models)
        (keep_group_twice none_refs clump.model_groups);
}
