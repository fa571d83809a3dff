-- ===== src/Xfbin/AddPage.antt =====
-- Xfbin.add_chunk_page of xfbin/structure/xfbin.py: the chunk gets a page of its own, in place of the
-- first page that contains it.
use xfbin_lib.Base.{
  ℕ, zero, suc, ◌≡◌, refl, ap, ◌≢◌, true, false, List, [], ◌∷◌, ◌++◌, Option, some, none, ok,
  Bool-cases, Option-cases, inl, inr, get_elem?, length,
}
use xfbin_lib.Chunk.{NuccChunk}
use xfbin_lib.Page.Types.{Page}
use xfbin_lib.Xfbin.Chunks.{contains, set_item, add_chunk, empty_page}
use xfbin_lib.Xfbin.Pages.{get_chunk_page, update_chunk_page, add_chunk_page}
use xfbin_lib.Xfbin.AddChunk.{chunk_eq-true, add_chunk-put_chunk}
use mathlib.Core.Path.{subst}

place_of {ℓ} :
    {A : Type ℓ} {i j : ℕ} {x y : A} → ◌≡◌ {A = Option (ℕ × A)} (some (i, x)) (some (j, y)) → i ≡ j
place_of {i = i} h = ap (λ o. elim o [ none ↦ i | some p ↦ p.0 ]) h

some-none {ℓ} : {A : Type ℓ} {x : A} → some x ≡ none → ⊥
some-none h = cc

pub none-some {ℓ} : {A : Type ℓ} {x : A} → none ≡ some x → ⊥
none-some h = cc

module _ {P : Type 0} where
  -- A new page with the chunk alone.
  abbrev pub single : NuccChunk P → Page P
  single chunk = record { chunks = chunk ∷ []; chunk_references = [] }

  pub add_chunk-empty_page : (chunk : NuccChunk P) → add_chunk empty_page chunk ≡ ok (single chunk)
  unfolding empty_page
  add_chunk-empty_page chunk =
      add_chunk-put_chunk (record { chunks = []; chunk_references = [] }) chunk

  single-contains : (chunk : NuccChunk P) → contains (single chunk).chunks chunk ≡ true
  unfolding contains
  single-contains chunk =
      let same = chunk_eq-true chunk.chunk_map chunk.chunk_map refl in rw same refl

  -- What overwriting the page, or adding one, leaves behind.
  pub record HasPage (pages updated : List (Page P)) (chunk : NuccChunk P) (i : ℕ) : Type 0 where
    pub found : get_chunk_page updated chunk ≡ some (i, single chunk)
    pub others : (j : ℕ) → j ≢ i → get_elem? updated j ≡ get_elem? pages j

  others_here :
      (page x : Page P) (pages : List (Page P)) (j : ℕ)
      → j ≢ 0
      → get_elem? (x ∷ pages) j ≡ get_elem? (page ∷ pages) j
  others_here page x pages zero n = absurd (n refl)
  others_here page x pages (suc j) n = refl

  others_later :
      (page : Page P) (pages updated : List (Page P)) (i j : ℕ)
      → ((k : ℕ) → k ≢ i → get_elem? updated k ≡ get_elem? pages k)
      → j ≢ suc i
      → get_elem? (page ∷ updated) j ≡ get_elem? (page ∷ pages) j
  others_later page pages updated i zero h n = refl
  others_later page pages updated i (suc j) h n = h j (λ same. n (ap suc same))

  HasPage-here :
      (page : Page P) (pages : List (Page P)) (chunk : NuccChunk P)
      → HasPage (page ∷ pages) (single chunk ∷ pages) chunk 0
  unfolding get_chunk_page
  HasPage-here page pages chunk =
      let h = single-contains chunk in
      record { found = rw (h, get_chunk_page) refl; others = others_here page (single chunk) pages }

  HasPage-later :
      (page : Page P) (pages updated : List (Page P)) (chunk : NuccChunk P) (i : ℕ)
      → contains page.chunks chunk ≡ false
      → HasPage pages updated chunk i
      → HasPage (page ∷ pages) (page ∷ updated) chunk (suc i)
  unfolding get_chunk_page
  HasPage-later page pages updated chunk i e h = record {
    found = rw (e, get_chunk_page, h.found) refl;
    others = λ j n. others_later page pages updated i j h.others n;
  }

  last_only : (x : Page P) (j : ℕ) → j ≢ 0 → get_elem? (x ∷ []) j ≡ get_elem? [] j
  last_only x zero n = absurd (n refl)
  last_only x (suc j) n = refl

  -- The first page that contains the chunk is overwritten.
  pub overwrite_page :
      (pages : List (Page P)) (chunk : NuccChunk P) (i : ℕ) (page : Page P)
      → get_chunk_page pages chunk ≡ some (i, page)
      → (updated : List (Page P)) × (set_item pages i (single chunk) ≡ ok updated)
        × HasPage pages updated chunk i
  unfolding get_chunk_page set_item
  overwrite_page [] chunk i page h = cc
  overwrite_page (p ∷ ps) chunk i page h =
      let Q = λ (i : ℕ).
        (updated : List (Page P)) × (set_item (p ∷ ps) i (single chunk) ≡ ok updated)
        × HasPage (p ∷ ps) updated chunk i in
      elim (Bool-cases (contains p.chunks chunk)) [
        | inl e ↦
            subst Q (place_of (rw (e, get_chunk_page) at h))
              (single chunk ∷ ps, refl, HasPage-here p ps chunk)
        | inr e ↦ elim (Option-cases (get_chunk_page ps chunk)) [
          | inl miss ↦ absurd (none-some (rw (e, get_chunk_page, miss) at h))
          | inr ((k, q), hit) ↦
              let (updated, hs, hp) = overwrite_page ps chunk k q hit in
              subst Q (place_of (rw (e, get_chunk_page, hit) at h))
                (p ∷ updated, rw (set_item, hs), HasPage-later p ps updated chunk k e hp)
        ]
      ]

  append_page :
      (pages : List (Page P)) (chunk : NuccChunk P)
      → get_chunk_page pages chunk ≡ none
      → HasPage pages (pages ++ (single chunk ∷ [])) chunk (length pages)
  unfolding get_chunk_page
  append_page [] chunk h = record {
    found = let here = single-contains chunk in rw (here, get_chunk_page) refl;
    others = last_only (single chunk);
  }
  append_page (p ∷ ps) chunk h = elim (Bool-cases (contains p.chunks chunk)) [
    | inl e ↦ absurd (some-none (rw (e, get_chunk_page) at h))
    | inr e ↦ elim (Option-cases (get_chunk_page ps chunk)) [
      | inl miss ↦
          HasPage-later p ps (ps ++ (single chunk ∷ [])) chunk (length ps) e
            (append_page ps chunk miss)
      | inr (found, hit) ↦ absurd (some-none (rw (e, get_chunk_page, hit) at h))
    ]
  ]

  -- `add_chunk_page` does not raise. It returns a page with the chunk alone, which is then the first page that
  -- contains the chunk; every page at another place stays as it is.
  pub add_chunk_page-HasPage :
      (pages : List (Page P)) (chunk : NuccChunk P)
      → (updated : List (Page P)) × (i : ℕ) × (add_chunk_page pages chunk
          ≡ ok (updated, single chunk))
        × HasPage pages updated chunk i
  unfolding add_chunk_page update_chunk_page
  add_chunk_page-HasPage pages chunk = elim (Option-cases (get_chunk_page pages chunk)) [
    | inl miss ↦ (
      pages ++ (single chunk ∷ []),
      length pages,
      rw (add_chunk-empty_page chunk, add_chunk_page, update_chunk_page, miss),
      append_page pages chunk miss,
    )
    | inr ((i, page), hit) ↦
        let (updated, hs, hp) = overwrite_page pages chunk i page hit in
        (
          updated,
          i,
          rw (add_chunk-empty_page chunk, add_chunk_page, update_chunk_page, hit, hs),
          hp,
        )
  ]
