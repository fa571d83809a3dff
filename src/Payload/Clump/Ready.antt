-- ===== src/Payload/Clump/Ready.antt =====
-- The objects that `init_data` of a clump looks up (xfbin/structure/nucc.py): what it finds on them.
use xfbin_lib.Base.{
  zero, true, false, ltb, ◌==◌, ◌<◌, ◌-◌, All, arith, get_elem?, Forall₂, nil, cons, ℕ, ◌≡◌, refl,
  ap, List, [], ◌∷◌, map, length, Option, none, some, ok, map_result, >>=-ok_elim, ok_injective,
  at_index_of_get_elem?, suc, at_index,
}
use xfbin_lib.Base.Int.{ℤ, pos, negsuc}
use xfbin_lib.Dict.{IterativeDict}
use xfbin_lib.Chunk.{ChunkMap, is_instance}
use xfbin_lib.Payload.Types.{ModelGroup, Clump, View, Seen, model_class}
use xfbin_lib.Payload.References.{Resolves, Place, chunk_of}
use xfbin_lib.Payload.Clump.{chunks_of}
use xfbin_lib.Payload.Clump.Init.{at_signed, set_coord}
use mathlib.Core.Option
use xfbin_lib.Payload.Clump.{chunks_of}

-- Where a coord index leads to one of `n` coords, or is -1.
abbrev pub IsCoordIndex : ℕ → ℤ → Type 0
IsCoordIndex n (pos i) = i < n
IsCoordIndex n (negsuc zero) = Unit {0}
IsCoordIndex n (negsuc (suc i)) = suc i < n

-- The object has a `coord_index`, and it leads to one of `n` coords, or is -1.
abbrev pub HasCoord : ℕ → View → Type 0
HasCoord n v = (k : ℤ) × (v.coord_index ≡ some k) × IsCoordIndex n k

-- Every object with the type, path and name of `c`, as it stands in the list.
abbrev pub EachView : List Seen → ChunkMap → (View → Type 0) → Type 0
EachView chunk_list c Q = (v : View) (j : ℕ) → get_elem? chunk_list j ≡ some (c, v) → Q v

abbrev pub GroupReady : List Seen → ℕ → Option ChunkMap → Type 0
GroupReady chunk_list n none = Unit {0}
GroupReady chunk_list n (some c) = EachView chunk_list c (HasCoord n)

-- The objects that `init_data` of a clump looks at have been read: every coord has its node, every model of the
-- list that is a NuccChunkModel has a coord index, and so has every chunk of a group, of whatever class.
pub record IsReady (chunk_list : List Seen) (chunk : Clump) : Type 0 where
  pub coords : All (λ c. EachView chunk_list c (λ v. v.has_node ≡ true)) (chunks_of chunk.coords)
  pub models :
      All
        (λ c.
          is_instance c model_class ≡ true → EachView chunk_list c (HasCoord (length chunk.coords)))
        chunk.models
  pub groups :
      All
        (λ (g : ModelGroup (Option ChunkMap)).
          All (GroupReady chunk_list (length chunk.coords)) g.models)
        chunk.model_groups

pub get_elem?-seen :
    (xs : List Seen) (j : ℕ) (c : ChunkMap)
    → get_elem? (map (λ s. s.0) xs) j ≡ some c
    → (v : View) × (get_elem? xs j ≡ some (c, v))
get_elem?-seen [] j c h = absurd (Option.none-ne-some _ h)
get_elem?-seen ((m, v) ∷ xs) zero c h = (v, ap (λ x. some (x, v)) (Option.some-injective _ _ h))
get_elem?-seen (x ∷ xs) (suc j) c h = get_elem?-seen xs j c h

pub get_elem?-ok :
    {A : Type 0} (xs : List A) (j : ℕ) {c : A} → at_index xs j ≡ ok c → get_elem? xs j ≡ some c
get_elem?-ok [] j h = cc
get_elem?-ok (x ∷ xs) zero h = ap some (ok_injective h)
get_elem?-ok (x ∷ xs) (suc j) h = get_elem?-ok xs j h

pub get_elem?-below :
    {A : Type 0} (xs : List A) (i : ℕ) → i < length xs → (x : A) × (get_elem? xs i ≡ some x)
get_elem?-below [] i h = absurd (omega arith)
get_elem?-below (x ∷ xs) zero h = (x, refl)
get_elem?-below (x ∷ xs) (suc i) h = get_elem?-below xs i (omega arith)

pub set_coord-ok :
    (coord_chunks : List Seen) (n : ℕ) (s : Seen)
    → length coord_chunks ≡ n
    → HasCoord n s.1
    → (x : Option Seen) × (set_coord coord_chunks s ≡ ok x)
unfolding set_coord at_signed
set_coord-ok coord_chunks n s e (pos i, h, lt) =
    let (x, hx) = get_elem?-below coord_chunks i (omega arith) in
    (some x, rw (h, at_index_of_get_elem? coord_chunks i hx) refl)
set_coord-ok coord_chunks n s e (negsuc zero, h, lt) = (none, rw h refl)
set_coord-ok coord_chunks n s e (negsuc (suc i), h, lt) =
    let k = length coord_chunks - suc (suc i) in
    let (x, hx) = get_elem?-below coord_chunks k (omega arith) in
    let below : ltb (suc i) (length coord_chunks) ≡ true = ground arith in
    let away : (suc i == 0) ≡ false = ground arith in
    (some x, rw (h, away, below, at_index_of_get_elem? coord_chunks k hx) refl)

module _ (chunk_list : List Seen) (chunk_indices : List ℕ) where
  abbrev pub ResolvesTo : IterativeDict ChunkMap → Type 0
  ResolvesTo d = Resolves d (map (λ s. s.0) chunk_list) chunk_indices

  pub chunk_of-seen :
      (i : ℕ) (c : ChunkMap)
      → chunk_of (map (λ (s : Seen). s.0) chunk_list) chunk_indices i ≡ ok c
      → (v : View) × (j : ℕ) × (at_index chunk_indices i ≡ ok j)
        × (get_elem? chunk_list j ≡ some (c, v))
  unfolding chunk_of
  chunk_of-seen i c h = >>=-ok_elim _ (at_index chunk_indices i) _ h λ j hj h₁.
      let (v, hv) = get_elem?-seen chunk_list j c (get_elem?-ok (map (λ s. s.0) chunk_list) j h₁) in
      (v, j, hj, hv)

  -- Places lead to the objects of the chunks, with what is known of every object of such a chunk.
  pub map_result-seen :
      {d : IterativeDict ChunkMap} (Q : View → Type 0) (cs : List ChunkMap) (is : List ℕ)
      → ResolvesTo d
      → Forall₂ (Place d) cs is
      → All (λ c. EachView chunk_list c Q) cs
      → (ss : List Seen) × (map_result (chunk_of chunk_list chunk_indices) is ≡ ok ss)
        × Forall₂ (λ c s. (s.0 ≡ c) × Q s.1) cs ss
  unfolding chunk_of
  map_result-seen Q _ _ r nil q = ([], refl, nil)
  map_result-seen Q _ _ r (cons {a = c} {b = i} {l₁ = cs} {l₂ = is} h hs) (q, qs) =
      let (v, j, hj, hv) = chunk_of-seen i c (r.resolved i c h) in
      let (ss, run, known) = map_result-seen Q cs is r hs qs in
      (
        (c, v) ∷ ss,
        rw (hj, at_index_of_get_elem? chunk_list j hv, run) refl,
        cons (refl, q v j hv) known,
      )
