-- ===== src/Xfbin/Pages.antt =====
-- The methods of Xfbin (xfbin/structure/xfbin.py), on its list of pages.
use xfbin_lib.Base.{
  ℕ, suc, Bool, true, false, ◌||◌, List, [], ◌∷◌, ◌++◌, Option, some, none, Result, ok, ◌>>=◌,
  if◌then◌else◌,
}
use xfbin_lib.Chunk.{ClassName, NuccChunk, null_class, page_class, text_eq}
use xfbin_lib.Page.Types.{Page}
use xfbin_lib.Xfbin.Chunks
use xfbin_lib.Xfbin.Chunks.{NuccType, contains, set_item, empty_page, add_chunk}

module _ {P : Type 0} where
  -- `chain.from_iterable(self.pages)`
  abbrev pub all_chunks : List (Page P) → List (NuccChunk P)
  all_chunks [] = []
  all_chunks (page ∷ pages) = page.chunks ++ all_chunks pages

  -- `result[type(c)].append(c)`, on the list that is there or a new one.
  unfoldable pub add_to_type :
      List (ClassName × List (NuccChunk P)) → NuccChunk P → List (ClassName × List (NuccChunk P))
  unfolding text_eq
  add_to_type [] c = (c.chunk_map.type_name, c ∷ []) ∷ []
  add_to_type ((t, cs) ∷ result) c =
      if text_eq t c.chunk_map.type_name
      then (t, cs ++ (c ∷ [])) ∷ result
      else (t, cs) ∷ add_to_type result c

  -- `type(c) is NuccChunkPage or type(c) is NuccChunkNull`
  unfoldable pub is_skipped : NuccChunk P → Bool
  unfolding text_eq
  is_skipped c =
      text_eq c.chunk_map.type_name page_class || text_eq c.chunk_map.type_name null_class

  unfoldable pub add_types :
      List (ClassName × List (NuccChunk P))
      → List (NuccChunk P)
      → List (ClassName × List (NuccChunk P))
  unfolding add_to_type is_skipped
  add_types result [] = result
  add_types result (c ∷ cs) = add_types (if is_skipped c then result else add_to_type result c) cs

  unfoldable pub get_type_chunk_dict : List (Page P) → List (ClassName × List (NuccChunk P))
  unfolding add_types
  get_type_chunk_dict pages = add_types [] (all_chunks pages)

  unfoldable pub get_chunks_by_type : List (Page P) → NuccType → Result (List (NuccChunk P))
  unfolding Chunks.get_chunks_by_type
  get_chunks_by_type [] nucc_type = ok []
  get_chunks_by_type (page ∷ pages) nucc_type = do
    here ← Chunks.get_chunks_by_type page nucc_type
    rest ← get_chunks_by_type pages nucc_type
    ok (here ++ rest)

  -- The pages with a chunk of the type.
  unfoldable pub get_pages_by_type : List (Page P) → NuccType → Result (List (Page P))
  unfolding Chunks.get_chunks_by_type
  get_pages_by_type [] nucc_type = ok []
  get_pages_by_type (page ∷ pages) nucc_type = do
    here ← Chunks.get_chunks_by_type page nucc_type
    rest ← get_pages_by_type pages nucc_type
    ok (elim here [ [] ↦ rest | ◌∷◌ _ _ ↦ page ∷ rest ])

  unfoldable pub clear : List (Page P) → List (Page P)
  clear pages = []

  -- The first page that contains the chunk, and its index.
  unfoldable pub get_chunk_page : List (Page P) → NuccChunk P → Option (ℕ × Page P)
  unfolding contains
  get_chunk_page [] chunk = none
  get_chunk_page (page ∷ pages) chunk = elim (contains page.chunks chunk) [
    | true ↦ some (0, page)
    | false ↦ elim (get_chunk_page pages chunk) [
      | none ↦ none
      | some found ↦ some (suc found.0, found.1)
    ]
  ]

  -- The pages after the call, and the page that it returns.
  unfoldable pub update_chunk_page :
      List (Page P) → NuccChunk P → Result (List (Page P) × Option (Page P))
  unfolding add_chunk get_chunk_page empty_page
  update_chunk_page pages chunk = do
    chunk_page ← add_chunk empty_page chunk
    elim (get_chunk_page pages chunk) [
      | some existing ↦ do
        updated ← set_item pages existing.0 chunk_page
        ok (updated, some chunk_page)
      | none ↦ ok (pages, none)
    ]

  unfoldable pub add_chunk_page : List (Page P) → NuccChunk P → Result (List (Page P) × Page P)
  unfolding update_chunk_page
  add_chunk_page pages chunk = do
    (updated, result) ← update_chunk_page pages chunk
    elim result [
      | some page ↦ ok (updated, page)
      | none ↦ do page ← add_chunk empty_page chunk; ok (updated ++ (page ∷ []), page)
    ]
