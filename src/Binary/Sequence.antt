-- ===== src/Binary/Sequence.antt =====
-- Lists of values: written one after another, read by a counted loop.
use xfbin_lib.Base.{
  ℕ, zero, suc, ◌*◌, ◌≡◌, sym, ap, List, [], ◌∷◌, Result, ok, length, length-append, All, arith,
  map, Forall₂, nil, cons, every_element, ◌++◌, ◌∙◌,
}
use mathlib.Core.Path.{subst}
use xfbin_lib.Binary.{Bytes, Reader, ◌>>=◌, pure, ◌<+>◌, Decodes}
use xfbin_lib.Binary.Rules.{
  <+>-eq-ok, nil-<+>, <+>-nil, <+>_assoc, Decodes-bind, Decodes-map, Decodes-pure, Decodes_of_ok,
}

module _ {ℓ} {A : Type ℓ} where
  -- `for x in xs: write(x)`
  abbrev pub write_each : (A → Result Bytes) → List A → Result Bytes
  write_each write [] = ok []
  write_each write (x ∷ xs) = write x <+> write_each write xs

  -- `for _ in range(n): result.append(read())`, which is `br.read_struct(T, n)` and `read_uint32(n)` too.
  unfoldable pub read_n : ℕ → Reader A → Reader (List A)
  read_n zero read = pure []
  read_n (suc n) read = do x ← read; xs ← read_n n read; pure (x ∷ xs)

module _ {ℓ κ} {A : Type ℓ} {B : Type κ} where
  -- A list of `A` is written, and a list of as many `B` is read.
  pub Decodes-each :
      (write : A → Result Bytes) (read : Reader B) (view : A → B) (xs : List A)
      → All (λ x. Decodes (write x) read (view x)) xs
      → Decodes (write_each write xs) (read_n (length xs) read) (map view xs)
  unfolding read_n
  Decodes-each write read view [] hs = Decodes-pure []
  Decodes-each write read view (x ∷ xs) (h, hs) =
      Decodes-bind _ (view x) h
        (Decodes-map (λ ys. view x ∷ ys) _ (Decodes-each write read view xs hs))

module _ {ℓ} {A : Type ℓ} where
  -- Values that read back as themselves.
  pub Decodes-list :
      (write : A → Result Bytes) (read : Reader A) (xs : List A)
      → All (λ x. Decodes (write x) read x) xs
      → Decodes (write_each write xs) (read_n (length xs) read) xs
  unfolding read_n
  Decodes-list write read [] hs = Decodes-pure []
  Decodes-list write read (x ∷ xs) (h, hs) =
      Decodes-bind _ x h (Decodes-map (λ ys. x ∷ ys) xs (Decodes-list write read xs hs))

  -- As many are read as there are.
  pub Decodes-length :
      (write : A → Result Bytes) (read : Reader A) (n : ℕ) (xs : List A)
      → All (λ x. Decodes (write x) read x) xs
      → length xs ≡ n
      → Decodes (write_each write xs) (read_n n read) xs
  Decodes-length write read n xs reads e =
      subst (λ k. Decodes (write_each write xs) (read_n k read) xs) e
        (Decodes-list write read xs reads)

  -- Values that all read back, as many as are read.
  pub Decodes-count :
      (write : A → Result Bytes) (read : Reader A) (n : ℕ) (xs : List A)
      → ((x : A) → Decodes (write x) read x)
      → length xs ≡ n
      → Decodes (write_each write xs) (read_n n read) xs
  Decodes-count write read n xs reads e = Decodes-length write read n xs (every_element reads xs) e

  pub write_each-append :
      (write : A → Result Bytes) (xs ys : List A)
      → write_each write (xs ++ ys) ≡ (write_each write xs <+> write_each write ys)
  write_each-append write [] ys = sym (nil-<+> (write_each write ys))
  write_each-append write (x ∷ xs) ys =
      ap (λ w. write x <+> w) (write_each-append write xs ys)
      ∙ sym (<+>_assoc (write x) (write_each write xs) (write_each write ys))

  -- A list that is written in pieces of a fixed size.
  pub length-write_each :
      (write : A → Result Bytes) (k : ℕ) (xs : List A) (bs : Bytes)
      → ((x : A) (ys : Bytes) → write x ≡ ok ys → length ys ≡ k)
      → write_each write xs ≡ ok bs
      → length bs ≡ length xs * k
  length-write_each write k [] bs size h = ground arith
  length-write_each write k (x ∷ xs) bs size h =
      let (ys, zs, hy, hz, e) = <+>-eq-ok (write x) (write_each write xs) bs h in
      rw (e, length-append) (omega (arith, size x ys hy, length-write_each write k xs zs size hz))

  -- Each piece is read to a value that `R` relates to what was written.
  pub Decodes-related {κ μ} :
      {B : Type κ} (R : A → B → Type μ) (write : A → Result Bytes) (read : Reader B) (xs : List A)
      (bs : Bytes)
      → ((x : A) (ys : Bytes) → write x ≡ ok ys → (b : B) × R x b × Decodes (ok ys) read b)
      → write_each write xs ≡ ok bs
      → (zs : List B) × Forall₂ R xs zs × Decodes (ok bs) (read_n (length xs) read) zs
  unfolding read_n
  Decodes-related R write read [] bs step h = ([], nil, Decodes_of_ok (Decodes-pure []) h)
  Decodes-related R write read (x ∷ xs) bs step h =
      let (ys, zs, hy, hz, e) = <+>-eq-ok (write x) (write_each write xs) bs h in
      let (b, r, d) = step x ys hy in
      let (cs, rs, ds) = Decodes-related R write read xs zs step hz in
      (
        b ∷ cs,
        cons r rs,
        Decodes_of_ok {w = ok ys <+> ok zs} (Decodes-bind _ b d (Decodes-map (λ c. b ∷ c) cs ds))
            (ap ok (sym e)),
      )

module _ {ℓ} {A : Type ℓ} where
  write_each-last :
      (write : A → Result Bytes) (xs : List A) (z : A)
      → write_each write (xs ++ (z ∷ [])) ≡ (write_each write xs <+> write z)
  write_each-last write xs z =
      write_each-append write xs (z ∷ []) ∙ ap (λ w. write_each write xs <+> w) (<+>-nil (write z))

  -- One more value behind a list, read with it.
  pub Decodes-last :
      (write : A → Result Bytes) (read : Reader A) (n : ℕ) (xs : List A) (z : A)
      → All (λ x. Decodes (write x) read x) (xs ++ (z ∷ []))
      → length (xs ++ (z ∷ [])) ≡ n
      → Decodes (write_each write xs <+> write z) (read_n n read) (xs ++ (z ∷ []))
  Decodes-last write read n xs z reads e =
      subst (λ w. Decodes w (read_n n read) (xs ++ (z ∷ []))) (write_each-last write xs z)
        (Decodes-length write read n (xs ++ (z ∷ [])) reads e)
