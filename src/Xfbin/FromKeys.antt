-- ===== src/Xfbin/FromKeys.antt =====
-- `list(dict.fromkeys(xs))`: what it keeps.
use xfbin_lib.Base.{
  ◌≡◌, refl, ap, true, Bool-cases, inl, inr, List, [], ◌∷◌, ◌++◌, Option, none, some, All,
  All-append, All-split,
}
use xfbin_lib.Chunk.{ChunkMap}
use xfbin_lib.Chunk.Equality.{chunk_eq_iff}
use xfbin_lib.Xfbin.Clump.{concat, same_key, has_key, from_keys}
use mathlib.Core.Path.{subst}

same_key_eq : (a b : Option ChunkMap) → same_key a b ≡ true → a ≡ b
same_key_eq none none h = refl
same_key_eq none (some b) h = cc
same_key_eq (some a) none h = cc
same_key_eq (some a) (some b) h = ap some ((chunk_eq_iff a b).0 h)

key_there :
    {A : Type 0} (key : A → Option ChunkMap) (R : Option ChunkMap → Type 0) (x : A) (ys : List A)
    → All (λ y. R (key y)) ys
    → has_key key ys x ≡ true
    → R (key x)
unfolding has_key
key_there key R x [] h e = cc
key_there key R x (y ∷ ys) (h, hs) e = elim (Bool-cases (same_key (key y) (key x))) [
  | inl s ↦ subst R (same_key_eq (key y) (key x) s) h
  | inr s ↦ key_there key R x ys hs (rw s at e)
]

-- What holds of the elements that `from_keys` leaves holds of all elements, where it depends on the key.
pub from_keys-All :
    {A : Type 0} (key : A → Option ChunkMap) (R : Option ChunkMap → Type 0) (seen xs : List A)
    → All (λ x. R (key x)) (from_keys key seen xs)
    → All (λ x. R (key x)) seen × All (λ x. R (key x)) xs
unfolding from_keys
from_keys-All key R seen [] h = (h, tt)
from_keys-All key R seen (x ∷ xs) h = elim (Bool-cases (has_key key seen x)) [
  | inl e ↦
      let (hs, ht) = from_keys-All key R seen xs (rw e at h) in
      (hs, (key_there key R x seen hs e, ht))
  | inr e ↦
      let (hs, ht) = from_keys-All key R (seen ++ (x ∷ [])) xs (rw e at h) in
      let (here, last) = All-split (λ y. R (key y)) seen (x ∷ []) hs in (here, (last.0, ht))
]

-- `from_keys` leaves nothing but what was there.
pub All-from_keys :
    {A : Type 0} (key : A → Option ChunkMap) (Q : A → Type 0) (seen xs : List A)
    → All Q seen
    → All Q xs
    → All Q (from_keys key seen xs)
unfolding from_keys
All-from_keys key Q seen [] h hs = h
All-from_keys key Q seen (x ∷ xs) h (hx, hs) = elim (Bool-cases (has_key key seen x)) [
  | inl e ↦ rw e (All-from_keys key Q seen xs h hs)
  | inr e ↦
      rw e (All-from_keys key Q (seen ++ (x ∷ [])) xs (All-append Q seen (x ∷ []) h (hx, tt)) hs)
]

pub All-concat :
    {A : Type 0} (Q : A → Type 0) (xss : List (List A)) → All Q (concat xss) → All (All Q) xss
All-concat Q [] h = tt
All-concat Q (xs ∷ xss) h = let (a, b) = All-split Q xs (concat xss) h in (a, All-concat Q xss b)
