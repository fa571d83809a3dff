-- ===== src/Dict/Growth.antt =====
-- An IterativeDict only grows: what a call has numbered keeps its number in every later state.
use xfbin_lib.Base.{
  ℕ, ◌≡◌, refl, ◌∙◌, List, [], ◌∷◌, ◌++◌, map, map-append, append-nil, append_assoc, none, some,
  arith, get_elem?, get_elem?-append_left, Option-cases, inl, inr, All, All-append, sym, ap,
}
use xfbin_lib.Base.{Result, ok, raise, key_error}
use xfbin_lib.Dict.{IterativeDict, keys, get_or_next, update_or_next}
use xfbin_lib.Dict.Numbering.{IsNumbered, lookup-number}
use mathlib.Core.List.{lookup}
use mathlib.Core.Logic.{if_pos}
use mathlib.Core.Path.{subst}

module _ {ℓ} {K : Type ℓ} where
  -- The entries of `d` are the first entries of `d'`.
  pub record Grows (d d' : IterativeDict K) : Type ℓ where
    pub more : List (K × ℕ)
    pub appended : d'.items ≡ d.items ++ more

  pub Grows-refl : (d : IterativeDict K) → Grows d d
  Grows-refl d = record { more = []; appended = sym (append-nil d.items) }

  pub Grows-trans : {a b c : IterativeDict K} → Grows a b → Grows b c → Grows a c
  Grows-trans {a} g h = record {
    more = g.more ++ h.more;
    appended = h.appended ∙ ap (λ xs. xs ++ h.more) g.appended ∙ append_assoc a.items g.more h.more;
  }

  -- The keys of the later dictionary begin with those of the earlier one.
  pub keys-Grows :
      {d d' : IterativeDict K} (g : Grows d d') → keys d' ≡ keys d ++ map (λ e. e.0) g.more
  keys-Grows {d} g = ap (map (λ e. e.0)) g.appended ∙ map-append (λ e. e.0) d.items g.more

  -- A number that is given stays given.
  pub get_elem?-Grows :
      {d d' : IterativeDict K} (i : ℕ) {k : K}
      → Grows d d'
      → get_elem? (keys d) i ≡ some k
      → get_elem? (keys d') i ≡ some k
  get_elem?-Grows {d} i g h = rw (keys-Grows g) (get_elem?-append_left (keys d) _ i h)

module _ {ℓ} {K : Type ℓ} (dec : Discrete K) where
  -- `d[key]`.
  unfoldable pub index_of : IterativeDict K → K → Result ℕ
  index_of d key = elim (lookup dec key d.items) [ some i ↦ ok i | none ↦ raise key_error ]

  lookup-append_left :
      (k : K) (xs ys : List (K × ℕ)) (i : ℕ)
      → lookup dec k xs ≡ some i
      → lookup dec k (xs ++ ys) ≡ some i
  unfolding lookup
  lookup-append_left k [] ys i h = cc
  lookup-append_left k (e ∷ xs) ys i h = ground (arith, lookup-append_left k xs ys i)

  lookup-append_none :
      (k : K) (xs : List (K × ℕ)) (i : ℕ)
      → lookup dec k xs ≡ none
      → lookup dec k (xs ++ ((k, i) ∷ [])) ≡ some i
  unfolding lookup
  lookup-append_none k [] i h = if_pos (dec k k) refl _ _
  lookup-append_none k (e ∷ xs) i h = ground (arith, lookup-append_none k xs i)

  pub index_of-Grows :
      {d d' : IterativeDict K} (k : K) {i : ℕ}
      → Grows d d'
      → index_of d k ≡ ok i
      → index_of d' k ≡ ok i
  unfolding index_of
  index_of-Grows {d} k {i} g h =
      rw (g.appended, index_of) (ground (arith, lookup-append_left k d.items g.more i))

  pub get_elem?-index_of :
      (d : IterativeDict K) (k : K) {i : ℕ}
      → IsNumbered d
      → index_of d k ≡ ok i
      → get_elem? (keys d) i ≡ some k
  unfolding index_of
  get_elem?-index_of d k {i} n h =
      let (m, e, g) = lookup-number dec 0 (keys d) k i (rw (← n.numbered) (ground arith)) in
      subst (λ j. get_elem? (keys d) j ≡ some k) (omega arith) g

  -- The entries of a dictionary are the first entries of the one that `get_or_next` leaves.
  pub get_or_next-Grows : (d : IterativeDict K) (k : K) → Grows d (get_or_next dec d k).0
  unfolding get_or_next
  get_or_next-Grows d k = elim (Option-cases (lookup dec k d.items)) [
    | inl miss ↦ rw (miss, get_or_next) (record { more = (k, d.index) ∷ []; appended = refl })
    | inr (i, hit) ↦ rw (hit, get_or_next) (Grows-refl d)
  ]

  -- Where a key is in the dictionary under an index, `get_or_next` leaves the dictionary as it is and returns
  -- that index.
  pub get_or_next_again :
      (d : IterativeDict K) (k : K) {i : ℕ} → index_of d k ≡ ok i → get_or_next dec d k ≡ (d, i)
  unfolding get_or_next index_of
  get_or_next_again d k h = ground arith

  pub update_or_next-Grows : (d : IterativeDict K) (ks : List K) → Grows d (update_or_next dec d ks)
  unfolding update_or_next
  update_or_next-Grows d [] = Grows-refl d
  update_or_next-Grows d (k ∷ ks) =
      Grows-trans (get_or_next-Grows d k) (update_or_next-Grows (get_or_next dec d k).0 ks)

  -- A property of the keys that are there and of the new key holds of all keys afterwards.
  pub All-get_or_next {κ} :
      (P : K → Type κ) (d : IterativeDict K) (k : K)
      → All P (keys d)
      → P k
      → All P (keys (get_or_next dec d k).0)
  unfolding get_or_next
  All-get_or_next P d k h hk = elim (Option-cases (lookup dec k d.items)) [
    | inl miss ↦
        rw (miss, get_or_next, map-append (λ (e : K × ℕ). e.0) d.items ((k, d.index) ∷ []))
          (All-append P (keys d) (k ∷ []) h (hk, tt))
    | inr (i, hit) ↦ rw (hit, get_or_next) h
  ]

  pub All-update_or_next {κ} :
      (P : K → Type κ) (d : IterativeDict K) (ks : List K)
      → All P (keys d)
      → All P ks
      → All P (keys (update_or_next dec d ks))
  unfolding update_or_next
  All-update_or_next P d [] h hs = h
  All-update_or_next P d (k ∷ ks) h (hk, hs) =
      All-update_or_next P (get_or_next dec d k).0 ks (All-get_or_next P d k h hk) hs
