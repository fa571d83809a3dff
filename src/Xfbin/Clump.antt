-- ===== src/Xfbin/Clump.antt =====
-- Xfbin.add_clump_page (xfbin/structure/xfbin.py).
use xfbin_lib.Base.{
  ℕ, zero, suc, Bool, true, false, ◌||◌, List, [], ◌∷◌, ◌++◌, map, Option, some, none, Result, ok,
  raise, map_ok, index_error, attribute_error, wrong_type, not, ◌>>=◌, if◌then◌else◌,
}
use xfbin_lib.Chunk.{ChunkMap, NuccChunk, chunk_eq, is_instance}
use xfbin_lib.Payload.Classes.{clump_class}
use xfbin_lib.Page.Types.{Page}
use xfbin_lib.Xfbin.Chunks.{empty_page, add_chunk}
use xfbin_lib.Xfbin.Pages.{get_chunk_page, update_chunk_page}

-- The chunks that a clump refers to (xfbin/structure/nucc.py). An attribute that the object does not have, because it
-- has not been read yet or is of another class, is none. A texture's `nut` is there or None.
pub record Texture (P : Type 0) : Type 0 where
  pub chunk : NuccChunk P
  pub has_nut : Option Bool

pub record Material (P : Type 0) : Type 0 where
  pub chunk : NuccChunk P
  pub texture_groups : Option (List (List (Texture P)))

pub record Model (P : Type 0) : Type 0 where
  pub chunk : NuccChunk P
  pub material_chunks : Option (List (Material P))

-- A group of a clump may hold None.
pub record Clump (P : Type 0) : Type 0 where
  pub chunk : NuccChunk P
  pub model_chunks : List (Model P)
  pub model_groups : List (List (Option (Model P)))
  pub coord_chunks : List (NuccChunk P)

-- An attribute of an object.
abbrev pub attribute {ℓ} : {A : Type ℓ} → Option A → Result A
attribute none = raise attribute_error
attribute (some a) = ok a

abbrev pub concat {ℓ} : {A : Type ℓ} → List (List A) → List A
concat [] = []
concat (xs ∷ xss) = xs ++ concat xss

-- `a == b`, where each may be None.
abbrev pub same_key : Option ChunkMap → Option ChunkMap → Bool
same_key none none = true
same_key none (some b) = false
same_key (some a) none = false
same_key (some a) (some b) = chunk_eq a b

-- Whether a key of `dict.fromkeys` is there already.
unfoldable pub has_key {ℓ} : {A : Type ℓ} → (A → Option ChunkMap) → List A → A → Bool
has_key key [] x = false
has_key key (y ∷ ys) x = same_key (key y) (key x) || has_key key ys x

-- `list(dict.fromkeys(xs))`, behind the keys `seen`.
unfoldable pub from_keys {ℓ} : {A : Type ℓ} → (A → Option ChunkMap) → List A → List A → List A
unfolding has_key
from_keys key seen [] = seen
from_keys key seen (x ∷ xs) =
    from_keys key (if has_key key seen x then seen else seen ++ (x ∷ [])) xs

-- `xs.pop(i)`
unfoldable pub pop {ℓ} : {A : Type ℓ} → List A → ℕ → Result (List A)
pop [] i = raise index_error
pop (x ∷ xs) zero = ok xs
pop (x ∷ xs) (suc i) = do ys ← pop xs i; ok (x ∷ ys)

module _ {P : Type 0} where
  abbrev pub model_key : Option (Model P) → Option ChunkMap
  model_key none = none
  model_key (some m) = some m.chunk.chunk_map

  -- `chain(clump.model_chunks, *clump.model_groups)`
  abbrev pub models_of : Clump P → List (Option (Model P))
  models_of clump = map some clump.model_chunks ++ concat clump.model_groups

  -- Every chunk is added to the page, in order.
  unfoldable pub add_chunks : Page P → List (NuccChunk P) → Result (Page P)
  unfolding add_chunk
  add_chunks page [] = ok page
  add_chunks page (c ∷ cs) = do page' ← add_chunk page c; add_chunks page' cs

  -- The loop over the models: the page, and the materials.
  unfoldable pub add_models :
      Page P → List (Material P) → List (Option (Model P)) → Result (Page P × List (Material P))
  unfolding add_chunk
  add_models page materials [] = ok (page, materials)
  add_models page materials (none ∷ models) = add_models page materials models
  add_models page materials (some model ∷ models) = do
    page' ← add_chunk page model.chunk
    more ← attribute model.material_chunks
    add_models page' (materials ++ more) models

  -- The loop over the materials: the page, and the textures.
  unfoldable pub add_materials :
      Page P → List (Texture P) → List (Material P) → Result (Page P × List (Texture P))
  unfolding add_chunk
  add_materials page textures [] = ok (page, textures)
  add_materials page textures (material ∷ materials) = do
    page' ← add_chunk page material.chunk
    groups ← attribute material.texture_groups
    add_materials page' (textures ++ concat groups) materials

  -- Whether `chunk.data` is there and not empty.
  abbrev pub has_bytes : NuccChunk P → Bool
  has_bytes chunk = elim chunk.content [
    | none ↦ false
    | some bytes ↦ elim bytes [ [] ↦ false | ◌∷◌ _ _ ↦ true ]
  ]

  -- `texture.nut or texture.data`
  unfoldable pub is_stored : Texture P → Result Bool
  is_stored texture = map_ok (λ nut. nut || has_bytes texture.chunk) (attribute texture.has_nut)

  -- The loop over the textures: the pages of the file, and the new texture pages.
  unfoldable pub add_textures :
      List (Page P) → List (Page P) → List (Texture P) → Result (List (Page P) × List (Page P))
  unfolding is_stored update_chunk_page
  add_textures pages texture_pages [] = ok (pages, texture_pages)
  add_textures pages texture_pages (texture ∷ textures) = is_stored texture >>= λ stored.
      elim stored [
        | false ↦ add_textures pages texture_pages textures
        | true ↦ do
          (updated, result) ← update_chunk_page pages texture.chunk
          elim result [
            | some _ ↦ add_textures updated texture_pages textures
            | none ↦ do
              page ← add_chunk empty_page texture.chunk
              add_textures updated (texture_pages ++ (page ∷ [])) textures
          ]
      ]

  -- The old page of the clump is removed.
  unfoldable pub remove_clump_page : List (Page P) → NuccChunk P → Result (List (Page P))
  unfolding get_chunk_page pop
  remove_clump_page pages chunk = elim (get_chunk_page pages chunk) [
    | none ↦ ok pages
    | some existing ↦ pop pages existing.0
  ]

  -- The pages after the call, and the clump page.
  unfoldable pub add_clump_page : List (Page P) → Clump P → Result (List (Page P) × Page P)
  unfolding remove_clump_page from_keys add_chunks add_models add_materials add_textures empty_page
      is_instance
  add_clump_page pages clump =
      if not (is_instance clump.chunk.chunk_map clump_class) then raise wrong_type else (do
        without ← remove_clump_page pages clump.chunk
        (p₁, materials) ← add_models empty_page [] (from_keys model_key [] (models_of clump))
        p₂ ← add_chunks p₁ clump.coord_chunks
        p₃ ← add_chunk p₂ clump.chunk
        (clump_page, textures) ←
            add_materials p₃ []
              (from_keys (λ (m : Material P). some m.chunk.chunk_map) [] materials)
        (updated, texture_pages) ←
            add_textures without []
              (from_keys (λ (x : Texture P). some x.chunk.chunk_map) [] textures)
        ok (updated ++ (texture_pages ++ (clump_page ∷ [])), clump_page))
