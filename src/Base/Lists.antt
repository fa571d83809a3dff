-- ===== src/Base/Lists.antt =====
-- Lists measured and indexed by native numbers, under the library's names.
use Prim.Native.Nat.{ℕ, zero, suc, ◌+◌, ◌<◌, ◌≤◌}
use mathlib.Core.Path.{◌≡◌, refl, ap, subst}
use mathlib.Core.List.Forall₂.{Forall₂, nil, cons}
use mathlib.Core.List.{List, [], ◌∷◌, ◌++◌, map}
use mathlib.Core.Option
use mathlib.Core.Option.{Option, none, some}
use native.Mathlib.Nat.{zero-add, suc-add}
use native.Mathlib.Omega.{arith}

module _ {ℓ} {A : Type ℓ} where
  abbrev pub length : List A → ℕ
  length [] = 0
  length (x ∷ xs) = suc (length xs)

  abbrev pub get_elem? : List A → ℕ → Option A
  get_elem? [] i = none
  get_elem? (x ∷ xs) zero = some x
  get_elem? (x ∷ xs) (suc i) = get_elem? xs i

  abbrev pub take : ℕ → List A → List A
  take zero xs = []
  take (suc n) [] = []
  take (suc n) (x ∷ xs) = x ∷ take n xs

  abbrev pub drop : ℕ → List A → List A
  drop zero xs = xs
  drop (suc n) [] = []
  drop (suc n) (x ∷ xs) = drop n xs

  -- `P` holds of every element.
  abbrev pub All {κ} : (A → Type κ) → List A → Type κ
  All P [] = Unit {κ}
  All P (x ∷ xs) = P x × All P xs

  pub length-append : (xs ys : List A) → length (xs ++ ys) ≡ length xs + length ys
  length-append [] ys = omega arith
  length-append (x ∷ xs) ys = omega (arith, length-append xs ys)

module _ {ℓ} {A : Type ℓ} where
  pub All-append {κ} : (P : A → Type κ) (xs ys : List A) → All P xs → All P ys → All P (xs ++ ys)
  All-append P [] ys hx hy = hy
  All-append P (x ∷ xs) ys hx hy = (hx.0, All-append P xs ys hx.1 hy)

  pub every_element {κ} : {P : A → Type κ} → ((x : A) → P x) → (xs : List A) → All P xs
  every_element f [] = tt
  every_element f (x ∷ xs) = (f x, every_element f xs)

  pub All-both {κ μ} :
      (P : A → Type κ) (Q : A → Type μ) (xs : List A)
      → All P xs
      → All Q xs
      → All (λ x. P x × Q x) xs
  All-both P Q [] h k = tt
  All-both P Q (x ∷ xs) (h, hs) (k, ks) = ((h, k), All-both P Q xs hs ks)

  pub All-imp {κ μ} :
      (P : A → Type κ) (Q : A → Type μ) (xs : List A) → ((x : A) → P x → Q x) → All P xs → All Q xs
  All-imp P Q [] f h = tt
  All-imp P Q (x ∷ xs) f (h, hs) = (f x h, All-imp P Q xs f hs)

  pub All-split {κ} : (P : A → Type κ) (xs ys : List A) → All P (xs ++ ys) → All P xs × All P ys
  All-split P [] ys h = (tt, h)
  All-split P (x ∷ xs) ys (h, hs) = let (hx, hy) = All-split P xs ys hs in ((h, hx), hy)

  pub get_elem?-append_left :
      (xs ys : List A) (i : ℕ) {x : A} → get_elem? xs i ≡ some x → get_elem? (xs ++ ys) i ≡ some x
  get_elem?-append_left [] ys i h = absurd (Option.none-ne-some _ h)
  get_elem?-append_left (x ∷ xs) ys zero h = h
  get_elem?-append_left (x ∷ xs) ys (suc i) h = get_elem?-append_left xs ys i h

  pub get_elem?-append_length :
      (xs : List A) (y : A) (ys : List A) → get_elem? (xs ++ (y ∷ ys)) (length xs) ≡ some y
  get_elem?-append_length [] y ys = refl
  get_elem?-append_length (x ∷ xs) y ys = get_elem?-append_length xs y ys

  pub get_elem?-append_right :
      (xs ys : List A) (i : ℕ) → get_elem? (xs ++ ys) (length xs + i) ≡ get_elem? ys i
  get_elem?-append_right [] ys i = rw zero-add
  get_elem?-append_right (x ∷ xs) ys i = rw (suc-add, get_elem?-append_right xs ys i)

  pub get_elem?-lt-length : (xs : List A) (i : ℕ) {x : A} → get_elem? xs i ≡ some x → i < length xs
  get_elem?-lt-length [] i h = absurd (Option.none-ne-some _ h)
  get_elem?-lt-length (x ∷ xs) zero h = omega arith
  get_elem?-lt-length (x ∷ xs) (suc i) h = omega (arith, get_elem?-lt-length xs i h)

  pub length-map {κ} : {B : Type κ} (f : A → B) (xs : List A) → length (map f xs) ≡ length xs
  length-map f [] = refl
  length-map f (x ∷ xs) = ap suc (length-map f xs)

  pub length-take : (n : ℕ) (xs : List A) → n ≤ length xs → length (take n xs) ≡ n
  length-take zero xs h = refl
  length-take (suc n) [] h = absurd (omega arith)
  length-take (suc n) (x ∷ xs) h = ap suc (length-take n xs (omega (arith, h)))

  pub take-nil : (n : ℕ) → ◌≡◌ {A = List A} (take n []) []
  take-nil zero = refl
  take-nil (suc n) = refl

  pub take-append : (xs ys : List A) → take (length xs) (xs ++ ys) ≡ xs
  take-append [] ys = refl
  take-append (x ∷ xs) ys = ap (◌∷◌ x) (take-append xs ys)

  pub drop-append : (xs ys : List A) → drop (length xs) (xs ++ ys) ≡ ys
  drop-append [] ys = refl
  drop-append (x ∷ xs) ys = drop-append xs ys

module _ {ℓ κ μ} {A : Type ℓ} {B : Type κ} {R : A → B → Type μ} where
  pub length-Forall₂ : {xs : List A} {ys : List B} → Forall₂ R xs ys → length ys ≡ length xs
  length-Forall₂ nil = refl
  length-Forall₂ (cons h hs) = ap suc (length-Forall₂ hs)

  -- What stands at a place of the first list has a partner at that place of the second.
  pub get_elem?-Forall₂ :
      {xs : List A} {ys : List B} (i : ℕ) (a : A)
      → Forall₂ R xs ys
      → get_elem? xs i ≡ some a
      → (b : B) × (get_elem? ys i ≡ some b) × R a b
  get_elem?-Forall₂ i a nil e = absurd (Option.none-ne-some _ e)
  get_elem?-Forall₂ zero a (cons {b = y} h hs) e =
      (y, refl, subst (λ x. R x y) (Option.some-injective _ _ e) h)
  get_elem?-Forall₂ (suc i) a (cons h hs) e = get_elem?-Forall₂ i a hs e

  pub Forall₂-imp {ν} :
      {S : A → B → Type ν} {xs : List A} {ys : List B}
      → ((a : A) (b : B) → R a b → S a b)
      → Forall₂ R xs ys
      → Forall₂ S xs ys
  Forall₂-imp f nil = nil
  Forall₂-imp f (cons h hs) = cons (f _ _ h) (Forall₂-imp f hs)

  pub Forall₂-drop :
      (before rest : List A) (ys : List B)
      → Forall₂ R (before ++ rest) ys
      → Forall₂ R rest (drop (length before) ys)
  Forall₂-drop [] rest ys h = h
  Forall₂-drop (x ∷ before) rest [] h = elim h [ ]
  Forall₂-drop (x ∷ before) rest (y ∷ ys) (cons h hs) = Forall₂-drop before rest ys hs

  pub Forall₂-take :
      (xs rest : List A) (ys : List B)
      → Forall₂ R (xs ++ rest) ys
      → Forall₂ R xs (take (length xs) ys)
  Forall₂-take [] rest ys h = nil
  Forall₂-take (x ∷ xs) rest [] h = elim h [ ]
  Forall₂-take (x ∷ xs) rest (y ∷ ys) (cons h hs) = cons h (Forall₂-take xs rest ys hs)

  pub Forall₂-append :
      {xs : List A} {ys : List B} {xs' : List A} {ys' : List B}
      → Forall₂ R xs ys
      → Forall₂ R xs' ys'
      → Forall₂ R (xs ++ xs') (ys ++ ys')
  Forall₂-append nil k = k
  Forall₂-append (cons h hs) k = cons h (Forall₂-append hs k)

  -- What holds of every element of the first list holds of its partner, given the relation.
  pub All-Forall₂ {ν ξ} :
      {P : A → Type ν} {Q : B → Type ξ} {xs : List A} {ys : List B}
      → ((a : A) (b : B) → R a b → P a → Q b)
      → Forall₂ R xs ys
      → All P xs
      → All Q ys
  All-Forall₂ f nil h = tt
  All-Forall₂ f (cons r rs) (h, hs) = (f _ _ r h, All-Forall₂ f rs hs)
