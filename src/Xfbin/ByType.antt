-- ===== src/Xfbin/ByType.antt =====
-- The chunks of a file by their class (Xfbin.get_type_chunk_dict, get_chunks_by_type), and Page.cleanup.
use xfbin_lib.Base.{
  ◌≡◌, refl, sym, ap, ◌∙◌, true, false, List, [], ◌∷◌, ◌++◌, append-nil, append_assoc, ok, ◌>>=◌,
  Bool-cases, >>=-cong, inl, inr, arith, if◌then◌else◌,
}
use xfbin_lib.Binary.{BinaryReader}
use xfbin_lib.Chunk.{ClassName, NuccChunk, null_class, page_class, text_eq, text_eq_iff}
use xfbin_lib.Page.Types.{Page, ChunkClasses}
use xfbin_lib.Page.Write.{PageDict, chunk_body, write_br_chunk, write_chunks, is_leftover}
use xfbin_lib.Xfbin.Chunks
use xfbin_lib.Xfbin.Chunks.{NuccType, resolve_type, of_class, cleanup, without_leftovers}
use xfbin_lib.Xfbin.Pages.{
  all_chunks, add_to_type, add_types, is_skipped, get_type_chunk_dict, get_chunks_by_type,
}

module _ {P : Type 0} where
  -- The list under a class, empty where the class is no key.
  abbrev pub type_chunks : ClassName → List (ClassName × List (NuccChunk P)) → List (NuccChunk P)
  type_chunks t [] = []
  type_chunks t ((k, cs) ∷ result) = if text_eq k t then cs else type_chunks t result

  of_class-append :
      (t : ClassName) (xs ys : List (NuccChunk P))
      → of_class t (xs ++ ys) ≡ of_class t xs ++ of_class t ys
  unfolding of_class
  of_class-append t [] ys = refl
  of_class-append t (x ∷ xs) ys = let rest = of_class-append t xs ys in ground arith

  type_chunks-add_to_type :
      (t : ClassName) (result : List (ClassName × List (NuccChunk P))) (c : NuccChunk P)
      → type_chunks t (add_to_type result c) ≡ type_chunks t result ++ of_class t (c ∷ [])
  unfolding add_to_type of_class
  type_chunks-add_to_type t [] c = ground arith
  type_chunks-add_to_type t ((k, cs) ∷ result) c =
      let rest = type_chunks-add_to_type t result c in
      ground (
        arith,
        text_eq_iff k t,
        text_eq_iff k c.chunk_map.type_name,
        text_eq_iff c.chunk_map.type_name t,
        append-nil cs,
        append-nil (type_chunks t result),
      )

  skipped_class :
      (t : ClassName) (c : NuccChunk P)
      → text_eq t page_class ≡ false
      → text_eq t null_class ≡ false
      → is_skipped c ≡ true
      → text_eq c.chunk_map.type_name t ≡ false
  unfolding is_skipped
  skipped_class t c p n h = ground (
    arith,
    text_eq_iff t page_class,
    text_eq_iff t null_class,
    text_eq_iff c.chunk_map.type_name page_class,
    text_eq_iff c.chunk_map.type_name null_class,
    text_eq_iff c.chunk_map.type_name t,
  )

  type_chunks-add_types :
      (t : ClassName) (result : List (ClassName × List (NuccChunk P))) (cs : List (NuccChunk P))
      → text_eq t page_class ≡ false
      → text_eq t null_class ≡ false
      → type_chunks t (add_types result cs) ≡ type_chunks t result ++ of_class t cs
  unfolding add_types of_class
  type_chunks-add_types t result [] p n = sym (append-nil _)
  type_chunks-add_types t result (c ∷ cs) p n = elim (Bool-cases (is_skipped c)) [
    | inl e ↦
        let no = skipped_class t c p n e in
        rw (e, add_types) (type_chunks-add_types t result cs p n ∙ ground arith)
    | inr e ↦
        rw (e, add_types)
          (type_chunks-add_types t (add_to_type result c) cs p n
            ∙ ap (λ xs. xs ++ of_class t cs) (type_chunks-add_to_type t result c)
            ∙ append_assoc (type_chunks t result) (of_class t (c ∷ [])) (of_class t cs)
            ∙ ap (λ xs. type_chunks t result ++ xs) (sym (of_class-append t (c ∷ []) cs)))
  ]

  get_chunks_by_type-of_class :
      (t : ClassName) (pages : List (Page P))
      → get_chunks_by_type pages (Chunks.class_of t) ≡ ok (of_class t (all_chunks pages))
  unfolding get_chunks_by_type Chunks.get_chunks_by_type resolve_type of_class
  get_chunks_by_type-of_class t [] = refl
  get_chunks_by_type-of_class t (page ∷ pages) =
      rw (get_chunks_by_type-of_class t pages)
        (ap ok (sym (of_class-append t page.chunks (all_chunks pages))))

  -- For every class but the null and the page class, `get_chunks_by_type` returns the list that stands under
  -- the class in the dictionary of `get_type_chunk_dict`, and the empty list where the class is no key.
  pub get_type_chunk_dict-get_chunks_by_type :
      (pages : List (Page P)) (t : ClassName)
      → text_eq t page_class ≡ false
      → text_eq t null_class ≡ false
      → get_chunks_by_type pages (Chunks.class_of t)
        ≡ ok (type_chunks t (get_type_chunk_dict pages))
  unfolding get_type_chunk_dict
  get_type_chunk_dict-get_chunks_by_type pages t p n =
      get_chunks_by_type-of_class t pages
      ∙ ap ok (sym (type_chunks-add_types t [] (all_chunks pages) p n))

  without_leftovers_twice :
      (cs : List (NuccChunk P)) → without_leftovers (without_leftovers cs) ≡ without_leftovers cs
  unfolding without_leftovers
  without_leftovers_twice [] = refl
  without_leftovers_twice (c ∷ cs) = let rest = without_leftovers_twice cs in ground arith

  module _ {Float : Type 0} (io : BinaryReader Float) (classes : ChunkClasses P) where
    write_chunks-without_leftovers :
        (cs : List (NuccChunk P)) (d : PageDict)
        → write_chunks io classes (without_leftovers cs) d ≡ write_chunks io classes cs d
    unfolding without_leftovers write_chunks
    write_chunks-without_leftovers [] d = refl
    write_chunks-without_leftovers (c ∷ cs) d = elim (Bool-cases (is_leftover c)) [
      | inl e ↦ rw (e, without_leftovers, write_chunks) (write_chunks-without_leftovers cs d)
      | inr e ↦
          rw (e, without_leftovers)
            (rw (e, write_chunks)
              (>>=-cong (write_br_chunk io c.chunk_map (chunk_body io classes c) d) _ _ λ x.
                ap (λ r. r >>= λ y. ok (y.0, x.1 ++ y.1)) (write_chunks-without_leftovers cs x.0)))
    ]

    -- The chunks of a page are written to the same bytes, and leave the same dictionary, before and after
    -- `cleanup`; doing `cleanup` twice is doing it once.
    pub write_chunks-cleanup :
        (page : Page P) (d : PageDict)
        → (write_chunks io classes (cleanup page).chunks d ≡ write_chunks io classes page.chunks d)
          × (cleanup (cleanup page) ≡ cleanup page)
    unfolding cleanup
    write_chunks-cleanup page d = (
      write_chunks-without_leftovers page.chunks d,
      ap (λ cs. record page { chunks = cs }) (without_leftovers_twice page.chunks),
    )
