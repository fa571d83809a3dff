-- ===== src/Base/Outcome.antt =====
-- What a call returns: a value, or the Python exception that it raises.
use Prim.Native.Nat.{ℕ}
use mathlib.Core.Path.{◌≡◌, refl, ap}
use mathlib.Core.List.{List, [], ◌∷◌}
use mathlib.Core.Option.{none, some}
use mathlib.Core.Logic.{◌⊎◌, inl, inr}
use xfbin_lib.Base.Lists.{get_elem?}

pub data Error : Type 0 where
  -- `Exception('Invalid magic.')`, and the same with the remark on CPK compression
  invalid_magic cpk_magic : Error
  -- `Exception(f'Unsupported vertex type: {vertexType}')`, and the same for the bone type
  unsupported_vertex_type unsupported_bone_type : Error
  index_error key_error value_error attribute_error stop_iteration : Error
  -- an argument that is no instance of the class that is asked for
  wrong_type : Error
  -- an error raised inside the binary reader, such as a read past the end
  read_error : Error
  -- not a Python value: the fuel of a loop ran out
  stuck : Error

pub data Result {ℓ} (A : Type ℓ) : Type ℓ where
  ok : A → Result A
  raise : Error → Result A

infixl 5 ◌>>=◌
abbrev pub ◌>>=◌ {ℓ κ} : {A : Type ℓ} {B : Type κ} → Result A → (A → Result B) → Result B
ok a >>= f = f a
raise e >>= f = raise e

pub ok_injective {ℓ} : {A : Type ℓ} {a b : A} → ok a ≡ ok b → a ≡ b
ok_injective {a = a} h = ap (λ r. elim r [ ok x ↦ x | raise e ↦ a ]) h

-- A call, and what is made of its value.
abbrev pub map_ok {ℓ κ} : {A : Type ℓ} {B : Type κ} → (A → B) → Result A → Result B
map_ok f m = m >>= λ a. ok (f a)

pub map_ok->>= {ℓ κ μ} :
    {A : Type ℓ} {B : Type κ} {C : Type μ} (f : A → Result B) (g : B → C) (m : Result A)
    → map_ok g (m >>= f) ≡ (m >>= λ a. map_ok g (f a))
map_ok->>= f g (ok a) = refl
map_ok->>= f g (raise e) = refl

pub map_ok-ok {ℓ κ} :
    {A : Type ℓ} {B : Type κ} (f : A → B) (m : Result A) (b : B)
    → map_ok f m ≡ ok b
    → (a : A) × (m ≡ ok a) × (f a ≡ b)
map_ok-ok f (ok a) b h = (a, refl, ok_injective h)
map_ok-ok f (raise e) b h = cc

-- `xs[i]` for an index that is not negative.
abbrev pub at_index {ℓ} : {A : Type ℓ} → List A → ℕ → Result A
at_index xs i = elim (get_elem? xs i) [ none ↦ raise index_error | some x ↦ ok x ]

pub at_index_of_get_elem? {ℓ} :
    {A : Type ℓ} (xs : List A) (i : ℕ) {x : A} → get_elem? xs i ≡ some x → at_index xs i ≡ ok x
at_index_of_get_elem? xs i h = rw (h, at_index)

-- `[f(x) for x in xs]`, where a call may raise.
abbrev pub map_result {ℓ κ} : {A : Type ℓ} {B : Type κ} → (A → Result B) → List A → Result (List B)
map_result f [] = ok []
map_result f (x ∷ xs) = do y ← f x; ys ← map_result f xs; ok (y ∷ ys)

-- What a sequence that succeeds says of its first call, and of the rest.
pub >>=-ok_elim {ℓ κ μ} :
    {A : Type ℓ} {B : Type κ} (P : Type μ) (m : Result A) (f : A → Result B) {b : B}
    → (m >>= f) ≡ ok b
    → ((a : A) → m ≡ ok a → f a ≡ ok b → P)
    → P
>>=-ok_elim P (ok a) f h k = k a refl h
>>=-ok_elim P (raise e) f h k = cc

-- Two sequences with the same first call and the same rest.
pub >>=-cong {ℓ κ} :
    {A : Type ℓ} {B : Type κ} (m : Result A) (f g : A → Result B)
    → ((a : A) → f a ≡ g a)
    → (m >>= f) ≡ (m >>= g)
>>=-cong (ok a) f g h = h a
>>=-cong (raise e) f g h = refl

pub Result-cases {ℓ} :
    {A : Type ℓ} (m : Result A) → ((a : A) × (m ≡ ok a)) ⊎ ((e : Error) × (m ≡ raise e))
Result-cases (ok a) = inl (a, refl)
Result-cases (raise e) = inr (e, refl)
