-- ===== src/Payload/References.antt =====
-- The chunks that a payload refers to: numbered when it is written, and looked up in the page's list
-- of chunks when it is read.
use xfbin_lib.Base.{
  ℕ, ◌≡◌, refl, List, [], ◌∷◌, Result, ok, ◌>>=◌, at_index, map_result, some, get_elem?, Forall₂,
  nil, cons, length, arith, get_elem?-Forall₂, at_index_of_get_elem?,
}
use xfbin_lib.Dict.{IterativeDict, keys, get_or_next}
use xfbin_lib.Dict.Numbering.{IsNumbered, get_or_next-IsNumbered, get_elem?-get_or_next}
use xfbin_lib.Dict.Growth.{Grows, Grows-refl, Grows-trans, get_or_next-Grows, get_elem?-Grows}
use xfbin_lib.Chunk.{ChunkMap, ChunkMap-discrete}

-- `tuple(map(lambda x: d.get_or_next(x), xs))`
unfoldable pub get_or_next_each :
    IterativeDict ChunkMap → List ChunkMap → IterativeDict ChunkMap × List ℕ
get_or_next_each d [] = (d, [])
get_or_next_each d (c ∷ cs) =
    let r = get_or_next ChunkMap-discrete d c in let s = get_or_next_each r.0 cs in (s.0, r.1 ∷ s.1)

-- `chunk_list[chunk_indices[i]]`
unfoldable pub chunk_of : {A : Type 0} → List A → List ℕ → ℕ → Result A
chunk_of chunk_list chunk_indices i = do j ← at_index chunk_indices i; at_index chunk_list j

-- The index is the place of the chunk in the dictionary.
abbrev pub Place : IterativeDict ChunkMap → ChunkMap → ℕ → Type 0
Place d c i = get_elem? (keys d) i ≡ some c

-- What numbering chunks keeps of a dictionary.
pub record Numbers (d d' : IterativeDict ChunkMap) : Type 0 where
  pub numbered : IsNumbered d → IsNumbered d'
  pub grows : Grows d d'

pub Numbers-refl : (d : IterativeDict ChunkMap) → Numbers d d
Numbers-refl d = record { numbered = λ n. n; grows = Grows-refl d }

pub Numbers-trans : {a b c : IterativeDict ChunkMap} → Numbers a b → Numbers b c → Numbers a c
Numbers-trans g h = record {
  numbered = λ n. h.numbered (g.numbered n);
  grows = Grows-trans g.grows h.grows;
}

pub Place-Grows :
    {d d' : IterativeDict ChunkMap} (c : ChunkMap) (i : ℕ) → Grows d d' → Place d c i → Place d' c i
Place-Grows c i g h = get_elem?-Grows i g h

pub get_or_next-Numbers :
    (d : IterativeDict ChunkMap) (c : ChunkMap) → Numbers d (get_or_next ChunkMap-discrete d c).0
get_or_next-Numbers d c = record {
  numbered = get_or_next-IsNumbered ChunkMap-discrete d c;
  grows = get_or_next-Grows ChunkMap-discrete d c;
}

pub get_or_next_each-Numbers :
    (d : IterativeDict ChunkMap) (cs : List ChunkMap) → Numbers d (get_or_next_each d cs).0
unfolding get_or_next_each
get_or_next_each-Numbers d [] = Numbers-refl d
get_or_next_each-Numbers d (c ∷ cs) =
    let d₁ = (get_or_next ChunkMap-discrete d c).0 in
    Numbers-trans (get_or_next-Numbers d c) (get_or_next_each-Numbers d₁ cs)

pub get_or_next_each-Place :
    (d : IterativeDict ChunkMap) (cs : List ChunkMap)
    → IsNumbered d
    → Forall₂ (Place (get_or_next_each d cs).0) cs (get_or_next_each d cs).1
unfolding get_or_next_each
get_or_next_each-Place d [] n = nil
get_or_next_each-Place d (c ∷ cs) n =
    let r = get_or_next ChunkMap-discrete d c in
    let n₁ = get_or_next-IsNumbered ChunkMap-discrete d c n in
    cons
      (Place-Grows c r.1 (get_or_next_each-Numbers r.0 cs).grows
        (get_elem?-get_or_next ChunkMap-discrete d c n))
      (get_or_next_each-Place r.0 cs n₁)

-- Every place of the dictionary leads to its chunk in the list of chunks.
pub record Resolves (d : IterativeDict ChunkMap) (chunk_list : List ChunkMap)
    (chunk_indices : List ℕ) : Type 0 where
  pub resolved : (i : ℕ) (c : ChunkMap) → Place d c i → chunk_of chunk_list chunk_indices i ≡ ok c

pub map_result-Place :
    {d : IterativeDict ChunkMap} (chunk_list : List ChunkMap) (chunk_indices : List ℕ)
    (cs : List ChunkMap) (is : List ℕ)
    → Resolves d chunk_list chunk_indices
    → Forall₂ (Place d) cs is
    → map_result (chunk_of chunk_list chunk_indices) is ≡ ok cs
map_result-Place chunk_list chunk_indices _ _ r nil = refl
map_result-Place chunk_list chunk_indices _ _ r (cons {a = c} {b = i} {l₁ = cs} {l₂ = is} h hs) =
    rw (r.resolved i c h, map_result-Place chunk_list chunk_indices cs is r hs)

pub get_or_next_each-length :
    (d : IterativeDict ChunkMap) (cs : List ChunkMap) → length (get_or_next_each d cs).1 ≡ length cs
unfolding get_or_next_each
get_or_next_each-length d [] = refl
get_or_next_each-length d (c ∷ cs) =
    omega (arith, get_or_next_each-length (get_or_next ChunkMap-discrete d c).0 cs)

-- What resolves in a later dictionary resolves in an earlier one.
pub Resolves-Grows :
    {d d' : IterativeDict ChunkMap} {chunk_list : List ChunkMap} {chunk_indices : List ℕ}
    → Grows d d'
    → Resolves d' chunk_list chunk_indices
    → Resolves d chunk_list chunk_indices
Resolves-Grows g r = record { resolved = λ i c h. r.resolved i c (get_elem?-Grows i g h) }

-- Indices that stand for the keys, one for each, resolve them.
pub Forall₂-Resolves :
    (d : IterativeDict ChunkMap) (chunk_list : List ChunkMap) (chunk_indices : List ℕ)
    → Forall₂ (λ c i. get_elem? chunk_list i ≡ some c) (keys d) chunk_indices
    → Resolves d chunk_list chunk_indices
unfolding chunk_of
Forall₂-Resolves d chunk_list chunk_indices hs = record {
  resolved = λ i c h.
      let (j, hj, e) = get_elem?-Forall₂ i c hs h in
      rw (at_index_of_get_elem? chunk_indices i hj) (at_index_of_get_elem? chunk_list j e);
}
