-- ===== src/Dict.antt =====
-- xfbin/util/iterative_dict.py: a dictionary that numbers its keys in the order of insertion.
pub mod Numbering
pub mod Growth
use xfbin_lib.Base.{ℕ, ◌+◌, List, [], ◌∷◌, ◌++◌, map, Option, none, some}
use mathlib.Core.List.{lookup}

-- `items` holds the entries of the underlying `dict`, oldest first; `index` is `__index`.
pub record IterativeDict {ℓ} (K : Type ℓ) : Type ℓ where
  pub items : List (K × ℕ)
  pub index : ℕ

module _ {ℓ} {K : Type ℓ} where
  -- `IterativeDict()`
  unfoldable pub init : IterativeDict K
  init = record { items = []; index = 0 }

  -- `d.keys()`
  abbrev pub keys : IterativeDict K → List K
  keys d = map (λ e. e.0) d.items

  -- `d.clear()`
  unfoldable pub clear : IterativeDict K → IterativeDict K
  clear d = record d { items = []; index = 0 }

module _ {ℓ} {K : Type ℓ} (dec : Discrete K) where
  -- The dictionary after the call, and the index that it returns.
  unfoldable pub get_or_next : IterativeDict K → K → IterativeDict K × ℕ
  get_or_next d key = elim (lookup dec key d.items) [
    | some i ↦ (d, i)
    | none ↦ (record d { items = d.items ++ ((key, d.index) ∷ []); index = d.index + 1 }, d.index)
  ]

  unfoldable pub update_or_next : IterativeDict K → List K → IterativeDict K
  update_or_next d [] = d
  update_or_next d (k ∷ other) = update_or_next (get_or_next d k).0 other
