-- ===== src/Dict/Numbering.antt =====
-- The invariant of an IterativeDict: its keys are distinct and numbered 0, 1, 2, ... in order.
use xfbin_lib.Base.{
  ℕ, suc, ◌+◌, ◌≡◌, refl, List, [], ◌∷◌, ◌++◌, map, map-append, none, some, arith, length,
  append-nil, append_assoc, sym, ap, ◌∙◌, length-append, get_elem?, get_elem?-append_length,
  Option-cases, inl, inr,
}
use xfbin_lib.Dict.{IterativeDict, keys, init, get_or_next, update_or_next}
use mathlib.Core.List.{
  lookup, Mem, Nodup, Nodup-append, mem-cons_self, mem-cons_of_mem, Nodup-nil, Nodup-concat,
  concat-eq-append, not-mem-nil, eq-or-mem_of_mem-cons,
}
use mathlib.Core.Path.{subst}
use native.Mathlib.Nat.{zero-add}
use mathlib.Core.HLevel.{⊥_prop}
use mathlib.Core.Logic.Or

module _ {ℓ} {K : Type ℓ} where
  -- The entries that number `ks` from `i` on.
  abbrev pub number : ℕ → List K → List (K × ℕ)
  number i [] = []
  number i (k ∷ ks) = (k, i) ∷ number (suc i) ks

  pub record IsNumbered (d : IterativeDict K) : Type ℓ where
    pub numbered : d.items ≡ number 0 (keys d)
    pub counted : d.index ≡ length (keys d)
    pub distinct : Nodup (keys d)

  number-append :
      (i : ℕ) (ks : List K) (k : K)
      → number i (ks ++ (k ∷ [])) ≡ number i ks ++ ((k, i + length ks) ∷ [])
  number-append i [] k = ground arith
  number-append i (j ∷ ks) k = rw (number-append (suc i) ks k) (ground arith)

  -- The constructor builds a numbered dictionary.
  pub init-IsNumbered : IsNumbered (init {K = K})
  unfolding init
  init-IsNumbered = record { numbered = refl; counted = refl; distinct = Nodup-nil }

  keys-push :
      (d : IterativeDict K) (k : K) (i : ℕ)
      → map (λ (e : K × ℕ). e.0) (d.items ++ ((k, i) ∷ [])) ≡ keys d ++ (k ∷ [])
  keys-push d k i = map-append (λ (e : K × ℕ). e.0) d.items ((k, i) ∷ [])

  Nodup-push : (ks : List K) (k : K) → ¬ Mem k ks → Nodup ks → Nodup (ks ++ (k ∷ []))
  Nodup-push ks k fresh h = subst Nodup (concat-eq-append ks k) ((Nodup-concat ks k).1 (fresh, h))

  -- Adding a key that is not there, under the next index, keeps the numbering.
  push-IsNumbered :
      (d : IterativeDict K) (k : K)
      → IsNumbered d
      → ¬ Mem k (keys d)
      → IsNumbered (record d { items = d.items ++ ((k, d.index) ∷ []); index = d.index + 1 })
  push-IsNumbered d k n fresh = record {
    numbered =
        rw (keys-push d k d.index, number-append)
          (cc (n.numbered, n.counted, zero-add (length (keys d))));
    counted = rw (keys-push d k d.index) (omega (arith, length-append (keys d) (k ∷ [])));
    distinct = rw (keys-push d k d.index) (Nodup-push (keys d) k fresh n.distinct);
  }

module _ {ℓ} {K : Type ℓ} (dec : Discrete K) where
  pub not-mem_of_lookup :
      (k : K) (l : List (K × ℕ)) → lookup dec k l ≡ none → ¬ Mem k (map (λ e. e.0) l)
  unfolding lookup
  not-mem_of_lookup k [] h = not-mem-nil
  not-mem_of_lookup k (e ∷ l) h = λ m.
      Or.elim ⊥_prop (eq-or-mem_of_mem-cons m) (λ here. ground arith)
        (not-mem_of_lookup k l (ground arith))

  pub lookup-number :
      (i : ℕ) (ks : List K) (k : K) (j : ℕ)
      → lookup dec k (number i ks) ≡ some j
      → (m : ℕ) × (j ≡ i + m) × (get_elem? ks m ≡ some k)
  unfolding lookup
  lookup-number i [] k j h = cc
  lookup-number i (x ∷ ks) k j h = elim (dec k x) [
    | yes p ↦ (0, ground arith, ground arith)
    | no p ↦ let (m, e, g) = lookup-number (suc i) ks k j (ground arith) in (suc m, omega arith, g)
  ]

  -- Where the keys of a dictionary are distinct and numbered from 0 in order, and its next index is their
  -- count, so are they after `get_or_next`.
  pub get_or_next-IsNumbered :
      (d : IterativeDict K) (k : K) → IsNumbered d → IsNumbered (get_or_next dec d k).0
  unfolding get_or_next
  get_or_next-IsNumbered d k n = elim (Option-cases (lookup dec k d.items)) [
    | inl miss ↦ rw (miss, get_or_next) (push-IsNumbered d k n (not-mem_of_lookup k d.items miss))
    | inr (i, hit) ↦ rw (hit, get_or_next) n
  ]

  -- Where a dictionary is numbered, it is numbered after `update_or_next` with any list of keys.
  pub update_or_next-IsNumbered :
      (d : IterativeDict K) (ks : List K) → IsNumbered d → IsNumbered (update_or_next dec d ks)
  unfolding update_or_next
  update_or_next-IsNumbered d [] n = n
  update_or_next-IsNumbered d (k ∷ ks) n =
      update_or_next-IsNumbered (get_or_next dec d k).0 ks (get_or_next-IsNumbered d k n)

  -- Where a dictionary is numbered, the index that `get_or_next` returns is the position of the key among the
  -- keys of the dictionary that the call leaves.
  pub get_elem?-get_or_next :
      (d : IterativeDict K) (k : K)
      → IsNumbered d
      → get_elem? (keys (get_or_next dec d k).0) (get_or_next dec d k).1 ≡ some k
  unfolding get_or_next
  get_elem?-get_or_next d k n = elim (Option-cases (lookup dec k d.items)) [
    | inl miss ↦
        rw (miss, get_or_next, keys-push d k d.index, n.counted)
          (get_elem?-append_length (keys d) k [])
    | inr (i, hit) ↦
        let (m, e, g) = lookup-number 0 (keys d) k i (rw (← n.numbered) hit) in
        rw (hit, get_or_next) (subst (λ j. get_elem? (keys d) j ≡ some k) (omega arith) g)
  ]

  mem-lookup_some :
      (k : K) (l : List (K × ℕ)) (i : ℕ) → lookup dec k l ≡ some i → Mem k (map (λ e. e.0) l)
  unfolding lookup
  mem-lookup_some k [] i h = cc
  mem-lookup_some k (e ∷ l) i h = elim (dec k e.0) [
    | yes p ↦ subst (λ x. Mem x (map (λ (e : K × ℕ). e.0) (e ∷ l))) (sym p) mem-cons_self
    | no p ↦ mem-cons_of_mem e.0 (mem-lookup_some k l i (ground arith))
  ]

  -- Where the keys of a dictionary and a list are all distinct, `update_or_next` with the list leaves the keys
  -- of the dictionary, and behind them the list in order.
  pub keys-update_or_next :
      (d : IterativeDict K) (ks : List K)
      → Nodup (keys d ++ ks)
      → keys (update_or_next dec d ks) ≡ keys d ++ ks
  unfolding update_or_next get_or_next
  keys-update_or_next d [] h = sym (append-nil (keys d))
  keys-update_or_next d (k ∷ ks) h = elim (Option-cases (lookup dec k d.items)) [
    | inl miss ↦
        let pushed : IterativeDict K = record d {
          items = d.items ++ ((k, d.index) ∷ []);
          index = d.index + 1;
        } in
        let e : keys pushed ++ ks ≡ keys d ++ (k ∷ ks) =
          ap (λ xs. xs ++ ks) (keys-push d k d.index) ∙ append_assoc (keys d) (k ∷ []) ks in
        let stored : get_or_next dec d k ≡ (pushed, d.index) = rw (miss, get_or_next) refl in
        ap (λ r. keys (update_or_next dec r.0 ks)) stored
        ∙ keys-update_or_next pushed ks (subst Nodup (sym e) h)
        ∙ e
    | inr (i, hit) ↦ absurd ((Nodup-append.0 h).2 k (mem-lookup_some k d.items i hit) mem-cons_self)
  ]
