-- ===== src/File/Objects/Reads.antt =====
-- A page of a file that was written, made of the objects of the file.
use mathlib.Core.Option
use xfbin_lib.Base.{
  ap, none, ◌++◌, ◌⊎◌, Option, Error, raise, if◌then◌else◌, ◌≢◌, Result-cases, ℕ, ◌≡◌, refl, sym,
  ◌∙◌, Bool-cases, inl, inr, ==_iff, ◌==◌, List, [], ◌∷◌, All, ok, some, get_elem?,
  get_elem?-Forall₂, at_index_of_get_elem?, Forall₂, nil, cons,
}
use xfbin_lib.Chunk.{ChunkMap, NuccChunk}
use xfbin_lib.Table.RoundTrip.{Indexed}
use xfbin_lib.Page.Types.{BrNuccChunk}
use xfbin_lib.Page.Read.{put}
use xfbin_lib.Page.Loop.{put_all}
use xfbin_lib.File.Objects.{maps_of, InitData, init_entries}
use xfbin_lib.File.Objects.Store.{get_elem?-maps_of}
use mathlib.Core.Path.{subst}

module _ {V : Type 0} (Q : ℕ × V → Type 0) where
  All-put : (k : ℕ) (v : V) (d : List (ℕ × V)) → Q (k, v) → All Q d → All Q (put k v d)
  unfolding put
  All-put k v [] q h = (q, tt)
  All-put k v ((j, w) ∷ d) q (h, hs) = elim (Bool-cases (j == k)) [
    | inl e ↦ rw (e, put) (subst (λ i. Q (i, v)) (sym ((==_iff j k).0 e)) q, hs)
    | inr e ↦ rw (e, put) (h, All-put k v d q hs)
  ]

  pub All-put_all : (d es : List (ℕ × V)) → All Q d → All Q es → All Q (put_all d es)
  unfolding put_all
  All-put_all d [] h q = h
  All-put_all d ((k, v) ∷ es) h (q, qs) = All-put_all (put k v d) es (All-put k v d q h) qs

module _ {P : Type 0} where
  -- The entry that was read last for the object at a place; the newest stand first.
  abbrev pub latest : ℕ → List (ℕ × BrNuccChunk P) → Option (BrNuccChunk P)
  latest j [] = none
  latest j ((i, b) ∷ us) = if i == j then some b else latest j us

  -- The entries `es` are read for the objects at the places `js`, one after another.
  abbrev pub add_inits :
      List (ℕ × BrNuccChunk P) → List (ℕ × BrNuccChunk P) → List ℕ → List (ℕ × BrNuccChunk P)
  add_inits us [] js = us
  add_inits us (e ∷ es) [] = us
  add_inits us (e ∷ es) (j ∷ js) = add_inits ((j, e.1) ∷ us) es js

  abbrev pub IsObject : List ChunkMap → ℕ × BrNuccChunk P → ℕ → Type 0
  IsObject maps e j = get_elem? maps j ≡ some e.1.chunk_map

  module _ (Shows : BrNuccChunk P → NuccChunk P → Type 0) where
    -- The object at a place shows an entry.
    abbrev pub ShowsAt : List (NuccChunk P) → ℕ → BrNuccChunk P → Type 0
    ShowsAt store j b = (c : NuccChunk P) × (get_elem? store j ≡ some c) × Shows b c

    -- Every object shows the entry that was read last for it.
    abbrev pub Filled : List (NuccChunk P) → List (ℕ × BrNuccChunk P) → Type 0
    Filled store us = (j : ℕ) (b : BrNuccChunk P) → latest j us ≡ some b → ShowsAt store j b

    module _ (init_data : InitData P) where
      -- Where `init_data` of an object returns, no object has another type, path or name, the object shows the entry,
      -- and the other objects show what they showed.
      pub record Keeps : Type 0 where
        pub same :
            (store store' : List (NuccChunk P)) (indices : List ℕ) (j : ℕ) (b : BrNuccChunk P)
            → init_data store indices j b ≡ ok store'
            → maps_of store' ≡ maps_of store
        pub shows :
            (store store' : List (NuccChunk P)) (indices : List ℕ) (j : ℕ) (b : BrNuccChunk P)
            → init_data store indices j b ≡ ok store'
            → ShowsAt store' j b
        pub others :
            (store store' : List (NuccChunk P)) (indices : List ℕ) (j : ℕ) (b : BrNuccChunk P)
            → init_data store indices j b ≡ ok store'
            → (i : ℕ) (x : BrNuccChunk P) → j ≢ i
            → ShowsAt store i x
            → ShowsAt store' i x

      -- Where the loop over the entries ends, after the entries `us`.
      pub record EntriesDone (indices : List ℕ) (us es : List (ℕ × BrNuccChunk P))
          (store : List (NuccChunk P)) : Type 0 where
        pub store' : List (NuccChunk P)
        pub chunks : List ℕ
        pub runs : init_entries init_data indices es store ≡ ok (store', chunks)
        pub same : maps_of store' ≡ maps_of store
        pub found : Forall₂ (IsObject (maps_of store)) es chunks
        pub filled : Filled store' (add_inits us es chunks)

      -- Where the `init_data` of one of the entries `es` raises: the entries before it have been read.
      pub record Stopped (maps : List ChunkMap) (indices : List ℕ)
          (us es : List (ℕ × BrNuccChunk P)) (error : Error) : Type 0 where
        pub earlier : List (ℕ × BrNuccChunk P)
        pub entry : ℕ × BrNuccChunk P
        pub later : List (ℕ × BrNuccChunk P)
        pub split : es ≡ earlier ++ (entry ∷ later)
        pub chunks : List ℕ
        pub found : Forall₂ (IsObject maps) earlier chunks
        pub place : ℕ
        pub is_object : IsObject maps entry place
        pub store : List (NuccChunk P)
        pub same : maps_of store ≡ maps
        pub filled : Filled store (add_inits us earlier chunks)
        pub raised : init_data store indices place entry.1 ≡ raise error

      abbrev pub EntriesStopped :
          List ℕ → List (ℕ × BrNuccChunk P) → List (ℕ × BrNuccChunk P) → List (NuccChunk P) → Type 0
      EntriesStopped indices us es store =
          (error : Error) × (init_entries init_data indices es store ≡ raise error)
          × Stopped (maps_of store) indices us es error

      Filled-cons :
          (us : List (ℕ × BrNuccChunk P)) (store store' : List (NuccChunk P)) (indices : List ℕ)
          (j : ℕ) (b : BrNuccChunk P)
          → Keeps
          → init_data store indices j b ≡ ok store'
          → Filled store us
          → Filled store' ((j, b) ∷ us)
      Filled-cons us store store' indices j b keeps run filled i x h = elim (Bool-cases (j == i)) [
        | inl e ↦
            let newest : b ≡ x = Option.some-injective _ _ (rw e at h) in
            subst (λ y. ShowsAt store' i y) newest
              (subst (λ k. ShowsAt store' k b) ((==_iff j i).0 e)
                (keeps.shows store store' indices j b run))
        | inr e ↦
            keeps.others store store' indices j b run i x (λ q. cc (e, (==_iff j i).1 q))
              (filled i x (rw e at h))
      ]

      stop_later :
          (maps : List ChunkMap) (indices : List ℕ) (us es : List (ℕ × BrNuccChunk P))
          (e : ℕ × BrNuccChunk P) (j : ℕ) (error : Error)
          → IsObject maps e j
          → Stopped maps indices ((j, e.1) ∷ us) es error
          → Stopped maps indices us (e ∷ es) error
      stop_later maps indices us es e j error at s = record {
        earlier = e ∷ s.earlier;
        entry = s.entry;
        later = s.later;
        split = ap (◌∷◌ e) s.split;
        chunks = j ∷ s.chunks;
        found = cons at s.found;
        place = s.place;
        is_object = s.is_object;
        store = s.store;
        same = s.same;
        filled = s.filled;
        raised = s.raised;
      }

      pub init_entries_ends :
          (ks : List ChunkMap) (indices : List ℕ) (us es : List (ℕ × BrNuccChunk P))
          (store : List (NuccChunk P))
          → Keeps
          → Forall₂ (Indexed (maps_of store)) ks indices
          → All (λ e. get_elem? ks e.0 ≡ some e.1.chunk_map) es
          → Filled store us
          → EntriesDone indices us es store ⊎ EntriesStopped indices us es store
      unfolding init_entries
      init_entries_ends ks indices us [] store keeps hs q filled = inl (record {
        store' = store;
        chunks = [];
        runs = refl;
        same = refl;
        found = nil;
        filled = filled;
      })
      init_entries_ends ks indices us (e ∷ es) store keeps hs (placed, qs) filled =
          let (j, hj, ij) = get_elem?-Forall₂ e.0 e.1.chunk_map hs placed in
          let (c, hc, ec) = get_elem?-maps_of store j e.1.chunk_map ij in
          let found_j = at_index_of_get_elem? indices e.0 hj in
          let found_c = at_index_of_get_elem? store j hc in
          elim (Result-cases (init_data store indices j e.1)) [
            | inr (error, run) ↦ inr (
              error,
              rw (found_j, found_c, run) refl,
              record {
                earlier = [];
                entry = e;
                later = es;
                split = refl;
                chunks = [];
                found = nil;
                place = j;
                is_object = ij;
                store = store;
                same = refl;
                filled = filled;
                raised = run;
              },
            )
            | inl (after, run) ↦
                let same = keeps.same store after indices j e.1 run in
                elim (init_entries_ends ks indices ((j, e.1) ∷ us) es after keeps
                  (subst (λ ms. Forall₂ (Indexed ms) ks indices) (sym same) hs) qs
                  (Filled-cons us store after indices j e.1 keeps run filled)) [
                    | inl d ↦ inl (record {
                      store' = d.store';
                      chunks = j ∷ d.chunks;
                      runs = rw (found_j, found_c, run, d.runs) refl;
                      same = d.same ∙ same;
                      found =
                          cons ij (subst (λ ms. Forall₂ (IsObject ms) es d.chunks) same d.found);
                      filled = d.filled;
                    })
                    | inr (error, fails, s) ↦ inr (
                      error,
                      rw (found_j, found_c, run, fails) refl,
                      stop_later (maps_of store) indices us es e j error ij
                          (subst (λ ms. Stopped ms indices ((j, e.1) ∷ us) es error) same s),
                    )
                  ]
          ]
