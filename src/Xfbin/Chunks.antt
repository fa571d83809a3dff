-- ===== src/Xfbin/Chunks.antt =====
-- The methods of Page (xfbin/structure/xfbin.py).
use xfbin_lib.Base.{
  ℕ, zero, suc, Bool, true, false, ◌||◌, not, List, [], ◌∷◌, ◌++◌, Result, ok, raise, value_error,
  index_error, ◌>>=◌, if◌then◌else◌,
}
use xfbin_lib.Binary.{Text}
use xfbin_lib.Chunk.{ClassName, NuccChunk, chunk_eq, text_eq, get_nucc_type_from_str}
use xfbin_lib.Page.Types.{Page}
use xfbin_lib.Page.Write.{is_leftover}

-- An argument `nucc_type`: a string, or a class.
pub data NuccType : Type 0 where
  type_str : Text → NuccType
  class_of : ClassName → NuccType

unfoldable pub resolve_type : NuccType → Result ClassName
unfolding get_nucc_type_from_str
resolve_type (type_str s) = get_nucc_type_from_str s
resolve_type (class_of t) = ok t

-- `xs[i] = x`
unfoldable pub set_item {ℓ} : {A : Type ℓ} → List A → ℕ → A → Result (List A)
set_item [] i x = raise index_error
set_item (y ∷ ys) zero x = ok (x ∷ ys)
set_item (y ∷ ys) (suc i) x = do zs ← set_item ys i x; ok (y ∷ zs)

-- `Page()`
unfoldable pub empty_page : {P : Type 0} → Page P
empty_page = record { chunks = []; chunk_references = [] }

module _ {P : Type 0} where
  -- `chunk in chunks`
  unfoldable pub contains : List (NuccChunk P) → NuccChunk P → Bool
  contains [] chunk = false
  contains (c ∷ cs) chunk = chunk_eq c.chunk_map chunk.chunk_map || contains cs chunk

  -- `chunks.index(chunk)`
  unfoldable pub index : List (NuccChunk P) → NuccChunk P → Result ℕ
  index [] chunk = raise value_error
  index (c ∷ cs) chunk = elim (chunk_eq c.chunk_map chunk.chunk_map) [
    | true ↦ ok 0
    | false ↦ do i ← index cs chunk; ok (suc i)
  ]

  unfoldable pub add_chunk : Page P → NuccChunk P → Result (Page P)
  unfolding contains index set_item
  add_chunk page chunk = elim (contains page.chunks chunk) [
    | true ↦ do
      i ← index page.chunks chunk
      chunks ← set_item page.chunks i chunk
      ok (record page { chunks = chunks })
    | false ↦ ok (record page { chunks = page.chunks ++ (chunk ∷ []) })
  ]

  unfoldable pub clear : Page P → Page P
  clear page = record page { chunks = [] }

  unfoldable pub without_leftovers : List (NuccChunk P) → List (NuccChunk P)
  unfolding is_leftover
  without_leftovers [] = []
  without_leftovers (c ∷ cs) =
      let rest = without_leftovers cs in if not (is_leftover c) then c ∷ rest else rest

  unfoldable pub cleanup : Page P → Page P
  unfolding without_leftovers
  cleanup page = record page { chunks = without_leftovers page.chunks }

  -- `[c for c in chunks if type(c) is nucc_type]`
  unfoldable pub of_class : ClassName → List (NuccChunk P) → List (NuccChunk P)
  unfolding text_eq
  of_class t [] = []
  of_class t (c ∷ cs) =
      let rest = of_class t cs in if text_eq c.chunk_map.type_name t then c ∷ rest else rest

  unfoldable pub get_chunks_by_type : Page P → NuccType → Result (List (NuccChunk P))
  unfolding resolve_type of_class
  get_chunks_by_type page nucc_type = do t ← resolve_type nucc_type; ok (of_class t page.chunks)
