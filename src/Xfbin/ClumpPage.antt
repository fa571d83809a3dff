-- ===== src/Xfbin/ClumpPage.antt =====
-- Xfbin.add_clump_page: what it returns.
use xfbin_lib.Base.{
  Bool, ◌||◌, true, map, All-split, ℕ, ◌≡◌, refl, sym, ap, Bool-cases, Option-cases, inl, inr, List,
  [], ◌∷◌, ◌++◌, append_assoc, Option, none, some, ok, All,
}
use xfbin_lib.Chunk.{ChunkMap, NuccChunk, is_instance}
use xfbin_lib.Payload.Classes.{clump_class}
use xfbin_lib.Xfbin.FromKeys.{from_keys-All, All-from_keys, All-concat}
use xfbin_lib.Page.Types.{Page}
use xfbin_lib.Xfbin.Chunks.{empty_page, contains}
use xfbin_lib.Xfbin.Pages.{get_chunk_page, update_chunk_page}
use xfbin_lib.Xfbin.Clump.{
  Texture, Material, Model, Clump, has_bytes, concat, from_keys, pop, model_key, models_of,
  add_textures, is_stored, remove_clump_page, add_clump_page,
}
use xfbin_lib.Xfbin.AddChunk.{add_chunk-put_chunk}
use xfbin_lib.Xfbin.AddPage.{none-some, single, add_chunk-empty_page, overwrite_page}
use mathlib.Core.Path.{subst}
use xfbin_lib.Xfbin.ClumpAdds.{
  Holds, added, Holds-added, Holds-put_chunk, maps_of, add_chunks-Adds, model_maps, IsTexture,
  IsMaterial, IsModel, add_models-Adds, add_materials-Adds,
}

some_inj : {A : Type 0} {x y : A} → ◌≡◌ {A = Option A} (some x) (some y) → x ≡ y
some_inj {x = x} h = ap (λ o. elim o [ none ↦ x | some z ↦ z ]) h

module _ {P : Type 0} where
  update_chunk_page_returns :
      (pages : List (Page P)) (chunk : NuccChunk P)
      → (updated : List (Page P)) × (result : Option (Page P)) × (update_chunk_page pages chunk
          ≡ ok (updated, result))
  unfolding update_chunk_page
  update_chunk_page_returns pages chunk = elim (Option-cases (get_chunk_page pages chunk)) [
    | inl miss ↦ (pages, none, rw (add_chunk-empty_page chunk, update_chunk_page, miss))
    | inr ((i, page), hit) ↦
        let (updated, hs, _) = overwrite_page pages chunk i page hit in
        (updated, some (single chunk), rw (add_chunk-empty_page chunk, update_chunk_page, hit, hs))
  ]

  is_stored_returns :
      (t : Texture P) (has : Bool)
      → t.has_nut ≡ some has
      → (stored : Bool) × (is_stored t ≡ ok stored)
  unfolding is_stored
  is_stored_returns t has e = (has || has_bytes t.chunk, rw e refl)

  add_textures_returns :
      (pages texture_pages : List (Page P)) (ts : List (Texture P))
      → All IsTexture ts
      → (updated : List (Page P)) × (more : List (Page P)) × (add_textures pages texture_pages ts
          ≡ ok (updated, more))
  unfolding add_textures
  add_textures_returns pages texture_pages [] q = (pages, texture_pages, refl)
  add_textures_returns pages texture_pages (t ∷ ts) ((has, eh), q) =
      let (stored, hs) = is_stored_returns t has eh in
      elim (Bool-cases stored) [
        | inr e ↦
            let (u, m, h) = add_textures_returns pages texture_pages ts q in (u, m, rw (hs, e) h)
        | inl e ↦
            let (v, result, hv) = update_chunk_page_returns pages t.chunk in
            elim (Option-cases result) [
              | inl r ↦
                  let (u, m, h) =
                    add_textures_returns v (texture_pages ++ (single t.chunk ∷ [])) ts q in
                  (u, m, rw (hs, e, hv, r) h)
              | inr (page, r) ↦
                  let (u, m, h) = add_textures_returns v texture_pages ts q in
                  (u, m, rw (hs, e, hv, r) h)
            ]
      ]

  pop_found :
      (pages : List (Page P)) (chunk : NuccChunk P) (found : ℕ × Page P)
      → get_chunk_page pages chunk ≡ some found
      → (rest : List (Page P)) × (pop pages found.0 ≡ ok rest)
  unfolding pop get_chunk_page
  pop_found [] chunk found h = cc
  pop_found (p ∷ ps) chunk found h = elim (Bool-cases (contains p.chunks chunk)) [
    | inl e ↦ subst Q (some_inj (rw (e, get_chunk_page) at h)) (ps, refl)
    | inr e ↦ elim (Option-cases (get_chunk_page ps chunk)) [
      | inl miss ↦ absurd (none-some (rw (e, get_chunk_page, miss) at h))
      | inr (x, hit) ↦
          let (rest, hr) = pop_found ps chunk x hit in
          subst Q (some_inj (rw (e, get_chunk_page, hit) at h)) (p ∷ rest, rw (pop, hr))
    ]
  ]
    where
      Q : ℕ × Page P → Type 0
      Q x = (rest : List (Page P)) × (pop (p ∷ ps) x.0 ≡ ok rest)

  remove_clump_page_returns :
      (pages : List (Page P)) (chunk : NuccChunk P)
      → (rest : List (Page P)) × (remove_clump_page pages chunk ≡ ok rest)
  unfolding remove_clump_page
  remove_clump_page_returns pages chunk = elim (Option-cases (get_chunk_page pages chunk)) [
    | inl miss ↦ (pages, rw (miss, remove_clump_page))
    | inr (found, hit) ↦
        let (rest, h) = pop_found pages chunk found hit in (rest, rw (hit, remove_clump_page) h)
  ]

  All-Holds :
      (page p : Page P) (ms : List ChunkMap)
      → ((m : ChunkMap) → Holds page m → Holds p m)
      → All (Holds page) ms
      → All (Holds p) ms
  All-Holds page p [] k h = tt
  All-Holds page p (m ∷ ms) k (h, hs) = (k m h, All-Holds page p ms k hs)

  -- The page holds the chunk of an entry that is not None.
  abbrev pub HoldsKey : Page P → Option ChunkMap → Type 0
  HoldsKey page none = Unit {0}
  HoldsKey page (some m) = Holds page m

  holds_keys :
      (page : Page P) (ms : List (Option (Model P)))
      → All (Holds page) (model_maps ms)
      → All (λ x. HoldsKey page (model_key x)) ms
  holds_keys page [] h = tt
  holds_keys page (none ∷ ms) h = (tt, holds_keys page ms h)
  holds_keys page (some m ∷ ms) (h, hs) = (h, holds_keys page ms hs)

  All-map-some :
      (Q : Option (Model P) → Type 0) (ms : List (Model P))
      → All Q (map some ms)
      → All (λ m. Q (some m)) ms
  All-map-some Q [] h = tt
  All-map-some Q (m ∷ ms) (h, hs) = (h, All-map-some Q ms hs)

  -- Where the argument is a NuccChunkClump, every model of its list and groups has materials, each of them has texture
  -- groups, and each texture of these has the attribute `nut`, set or None: `add_clump_page` does not raise. The
  -- page that it returns is the last page of the file, and holds a chunk with the type, path and name of the clump, of
  -- every model of its list, of every entry of its groups that is not None, and of every coord.
  pub add_clump_page-Holds :
      (pages : List (Page P)) (clump : Clump P)
      → is_instance clump.chunk.chunk_map clump_class ≡ true
      → All IsModel (models_of clump)
      → (front : List (Page P)) × (page : Page P) × (add_clump_page pages clump
          ≡ ok (front ++ (page ∷ []), page))
        × Holds page clump.chunk.chunk_map
        × All (λ m. Holds page m.chunk.chunk_map) clump.model_chunks
        × All (All (λ x. HoldsKey page (model_key x))) clump.model_groups
        × All (Holds page) (maps_of clump.coord_chunks)
  unfolding add_clump_page
  add_clump_page-Holds pages clump is_clump complete =
      let (without, h₀) = remove_clump_page_returns pages clump.chunk in
      let models = from_keys model_key [] (models_of clump) in
      let (p₁, materials, h₁, a₁, q₁) =
        add_models-Adds empty_page [] models tt
          (All-from_keys model_key IsModel [] (models_of clump) tt complete) in
      let (p₂, h₂, a₂) = add_chunks-Adds p₁ clump.coord_chunks in
      let p₃ = added p₂ clump.chunk in
      let h₃ = add_chunk-put_chunk p₂ clump.chunk in
      let material_key = λ (m : Material P). some m.chunk.chunk_map in
      let texture_key = λ (x : Texture P). some x.chunk.chunk_map in
      let (p₄, textures, h₄, a₄, q₄) =
        add_materials-Adds p₃ [] (from_keys material_key [] materials) tt
          (All-from_keys material_key IsMaterial [] materials tt q₁) in
      let (u, ts, h₅) =
        add_textures_returns without [] (from_keys texture_key [] textures)
          (All-from_keys texture_key IsTexture [] textures tt q₄) in
      let keep₃ : (m : ChunkMap) → Holds p₂ m → Holds p₄ m =
        λ m h. a₄.kept m (Holds-put_chunk p₂ clump.chunk m h) in
      let held = from_keys-All model_key (HoldsKey p₄) [] (models_of clump) (
        holds_keys p₄ models
          (All-Holds p₁ p₄ (model_maps models) (λ m h. keep₃ m (a₂.kept m h)) a₁.new)) in
      let (in_list, in_groups) =
        All-split (λ x. HoldsKey p₄ (model_key x)) (map some clump.model_chunks)
          (concat clump.model_groups) held.1 in
      (
        u ++ ts,
        p₄,
        rw (is_clump, h₀, h₁, h₂, h₃, h₄, h₅)
            (ap (λ x. ok (x, p₄)) (sym (append_assoc u ts (p₄ ∷ [])))),
        a₄.kept clump.chunk.chunk_map (Holds-added p₂ clump.chunk),
        All-map-some (λ x. HoldsKey p₄ (model_key x)) clump.model_chunks in_list,
        All-concat (λ x. HoldsKey p₄ (model_key x)) clump.model_groups in_groups,
        All-Holds p₂ p₄ (maps_of clump.coord_chunks) keep₃ a₂.new,
      )
