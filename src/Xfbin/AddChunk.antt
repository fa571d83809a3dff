-- ===== src/Xfbin/AddChunk.antt =====
-- Page.add_chunk of xfbin/structure/xfbin.py: a page holds one chunk for each type, path and name.
use xfbin_lib.Base.{
  ◌≡◌, refl, ap, ◌≢◌, true, false, List, [], ◌∷◌, ◌++◌, Option, some, none, ok, ◌>>=◌, >>=-ok_elim,
  Bool-cases, inl, inr, arith,
}
use xfbin_lib.Chunk.{ChunkMap, ChunkMap-discrete, NuccChunk, chunk_eq}
use xfbin_lib.Chunk.Equality.{chunk_eq_iff}
use xfbin_lib.Page.Types.{Page}
use xfbin_lib.Xfbin.Chunks.{contains, index, set_item, add_chunk}

pub chunk_eq-false : (a b : ChunkMap) → a ≢ b → chunk_eq a b ≡ false
chunk_eq-false a b h = ground (arith, chunk_eq_iff a b)

pub chunk_eq-true : (a b : ChunkMap) → a ≡ b → chunk_eq a b ≡ true
chunk_eq-true a b h = (chunk_eq_iff a b).1 h

module _ {P : Type 0} where
  -- The chunk that stands for `m` among the chunks: the first of them.
  abbrev pub find : ChunkMap → List (NuccChunk P) → Option (NuccChunk P)
  find m [] = none
  find m (c ∷ cs) = elim (ChunkMap-discrete c.chunk_map m) [ yes _ ↦ some c | no _ ↦ find m cs ]

  -- Overwritten where it is, or put at the end.
  abbrev pub put_chunk : NuccChunk P → List (NuccChunk P) → List (NuccChunk P)
  put_chunk chunk [] = chunk ∷ []
  put_chunk chunk (c ∷ cs) = elim (ChunkMap-discrete c.chunk_map chunk.chunk_map) [
    | yes _ ↦ chunk ∷ cs
    | no _ ↦ c ∷ put_chunk chunk cs
  ]

  -- A chunk that is there is overwritten in its place.
  overwrite-put_chunk :
      (cs : List (NuccChunk P)) (chunk : NuccChunk P)
      → contains cs chunk ≡ true
      → (index cs chunk >>= λ i. set_item cs i chunk) ≡ ok (put_chunk chunk cs)
  unfolding contains index set_item
  overwrite-put_chunk [] chunk h = cc
  overwrite-put_chunk (c ∷ cs) chunk h = elim (ChunkMap-discrete c.chunk_map chunk.chunk_map) [
    | yes e ↦
        let same = chunk_eq-true c.chunk_map chunk.chunk_map e in
        rw (same, index, put_chunk) (ground arith)
    | no n ↦
        let other = chunk_eq-false c.chunk_map chunk.chunk_map n in
        let there : contains cs chunk ≡ true = rw other at h in
        >>=-ok_elim _ (index cs chunk) (λ i. set_item cs i chunk)
          (overwrite-put_chunk cs chunk there)
          λ i hi hs. rw (other, index, hi, set_item, hs) (ground arith)
  ]

  append-put_chunk :
      (cs : List (NuccChunk P)) (chunk : NuccChunk P)
      → contains cs chunk ≡ false
      → cs ++ (chunk ∷ []) ≡ put_chunk chunk cs
  unfolding contains
  append-put_chunk [] chunk h = refl
  append-put_chunk (c ∷ cs) chunk h = elim (ChunkMap-discrete c.chunk_map chunk.chunk_map) [
    | yes e ↦ let same = chunk_eq-true c.chunk_map chunk.chunk_map e in ground arith
    | no n ↦
        let other = chunk_eq-false c.chunk_map chunk.chunk_map n in
        let rest = append-put_chunk cs chunk (rw other at h) in rw rest (ground arith)
  ]

  -- `add_chunk` does not raise: the chunk overwrites the first chunk with its type, path and name, or stands
  -- at the end where there is none; the references stay.
  pub add_chunk-put_chunk :
      (page : Page P) (chunk : NuccChunk P)
      → add_chunk page chunk ≡ ok (record page { chunks = put_chunk chunk page.chunks })
  unfolding add_chunk
  add_chunk-put_chunk page chunk = elim (Bool-cases (contains page.chunks chunk)) [
    | inl e ↦
        >>=-ok_elim _ (index page.chunks chunk) _ (overwrite-put_chunk page.chunks chunk e)
          λ i hi hs. rw (e, add_chunk, hi, hs)
    | inr e ↦
        rw (e, add_chunk)
          (ap (λ cs. ok (record page { chunks = cs })) (append-put_chunk page.chunks chunk e))
  ]

  -- Looking up in the reference list.
  pub find-put_chunk :
      (cs : List (NuccChunk P)) (chunk : NuccChunk P) (m : ChunkMap)
      → find m (put_chunk chunk cs)
        ≡ (elim (ChunkMap-discrete chunk.chunk_map m) [ yes _ ↦ some chunk | no _ ↦ find m cs ])
  find-put_chunk [] chunk m = refl
  find-put_chunk (c ∷ cs) chunk m = elim (ChunkMap-discrete c.chunk_map chunk.chunk_map) [
    | yes e ↦ ground arith
    | no n ↦ let rest = find-put_chunk cs chunk m in ground arith
  ]

  -- `contains` is membership up to type, path and name.
  pub contains-find :
      (cs : List (NuccChunk P)) (chunk : NuccChunk P)
      → contains cs chunk ≡ (elim (find chunk.chunk_map cs) [ none ↦ false | some _ ↦ true ])
  unfolding contains
  contains-find [] chunk = refl
  contains-find (c ∷ cs) chunk = elim (ChunkMap-discrete c.chunk_map chunk.chunk_map) [
    | yes e ↦ let same = chunk_eq-true c.chunk_map chunk.chunk_map e in ground arith
    | no n ↦
        let other = chunk_eq-false c.chunk_map chunk.chunk_map n in
        let rest = contains-find cs chunk in ground arith
  ]

  -- `add_chunk` does not raise, and returns a page in which the type, path and name of the chunk stand for the
  -- chunk, and those of every other chunk for what they stood for before.
  pub find-add_chunk :
      (page : Page P) (chunk : NuccChunk P) (m : ChunkMap)
      → (added : Page P) × (add_chunk page chunk ≡ ok added)
        × (find m added.chunks ≡ (elim (ChunkMap-discrete chunk.chunk_map m) [
          | yes _ ↦ some chunk
          | no _ ↦ find m page.chunks
        ]))
  find-add_chunk page chunk m = (
    record page { chunks = put_chunk chunk page.chunks },
    add_chunk-put_chunk page chunk,
    find-put_chunk page.chunks chunk m,
  )
