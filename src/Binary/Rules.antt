-- ===== src/Binary/Rules.antt =====
-- How reads in sequence decode writes in sequence.
use xfbin_lib.Base.{
  ℕ, ◌+◌, ◌≡◌, refl, sym, ◌∙◌, ap, [], ◌++◌, append_assoc, append-nil, Result, ok, raise, length,
  length-append, arith,
}
use xfbin_lib.Binary.{Bytes, Cursor, Reader, ◌>>=◌, ◌>>◌, pure, lift, ◌<+>◌, DecodesAt, Decodes}
use native.Mathlib.Nat.{add_assoc, add-zero}
use mathlib.Core.Path.{subst}

-- Two writes that succeed one after the other.
pub <+>-eq-ok :
    (w v : Result Bytes) (bs : Bytes)
    → (w <+> v) ≡ ok bs
    → (xs : Bytes) × (ys : Bytes) × (w ≡ ok xs) × (v ≡ ok ys) × (bs ≡ xs ++ ys)
<+>-eq-ok (ok xs) (ok ys) bs h = (xs, ys, refl, refl, ground arith)
<+>-eq-ok (ok xs) (raise e) bs h = cc
<+>-eq-ok (raise e) v bs h = cc

pub nil-<+> : (w : Result Bytes) → (ok [] <+> w) ≡ w
nil-<+> (ok xs) = refl
nil-<+> (raise e) = refl

pub <+>-nil : (w : Result Bytes) → (w <+> ok []) ≡ w
<+>-nil (ok xs) = ap ok (append-nil xs)
<+>-nil (raise e) = refl

pub <+>_assoc : (u v w : Result Bytes) → ((u <+> v) <+> w) ≡ (u <+> v <+> w)
<+>_assoc (ok xs) (ok ys) (ok zs) = ap ok (append_assoc xs ys zs)
<+>_assoc (ok xs) (ok ys) (raise e) = refl
<+>_assoc (ok xs) (raise e) w = refl
<+>_assoc (raise e) v w = refl

stops {ℓ} : {A : Type ℓ} → A → ℕ → Bytes → Result (A × Cursor)
stops a n rest = ok (a, record { pos = n; rest = rest })

module _ {ℓ κ} {A : Type ℓ} {B : Type κ} where
  pub DecodesAt-bind :
      (p : ℕ) {w v : Result Bytes} {m : Reader A} (f : A → Reader B) (a : A) {b : B}
      → DecodesAt p w m a
      → ((xs : Bytes) → w ≡ ok xs → DecodesAt (p + length xs) v (f a) b)
      → DecodesAt p (w <+> v) (m >>= f) b
  unfolding ◌>>=◌ stops
  DecodesAt-bind p {w} {v} {m} f a {b} first second = record {
    run = λ bs rest h.
        let (xs, ys, hw, hv, e) = <+>-eq-ok w v bs h in
        rw (e, append_assoc, first.run xs (ys ++ rest) hw, length-append)
          ((second xs hw).run ys rest hv
            ∙ ap (λ n. stops b n rest) (add_assoc p (length xs) (length ys)));
  }

  -- First `w`, read by `m`; then `v`, read by the rest of the block.
  pub Decodes-bind :
      {w v : Result Bytes} {m : Reader A} (f : A → Reader B) (a : A) {b : B}
      → Decodes w m a
      → Decodes v (f a) b
      → Decodes (w <+> v) (m >>= f) b
  Decodes-bind f a first second = record {
    at_pos = λ p. DecodesAt-bind p f a (first.at_pos p) (λ xs _. second.at_pos _);
  }

  -- The same where the first of the two was written in two parts.
  pub Decodes-bind_parts :
      (w z : Result Bytes) {v : Result Bytes} {m : Reader A} (f : A → Reader B) (a : A) {b : B}
      → Decodes (w <+> z) m a
      → Decodes v (f a) b
      → Decodes (w <+> z <+> v) (m >>= f) b
  Decodes-bind_parts w z {v} {m} f a {b} first second =
      subst (λ u. Decodes u (m >>= f) b) (<+>_assoc w z v) (Decodes-bind f a first second)

  -- The value that is read is the last thing that the block needs.
  pub Decodes-map :
      {w : Result Bytes} {m : Reader A} (f : A → B) (a : A)
      → Decodes w m a
      → Decodes w (m >>= λ x. pure (f x)) (f a)
  unfolding ◌>>=◌ pure
  Decodes-map f a first = record {
    at_pos = λ p. record { run = λ bs rest h. rw ((first.at_pos p).run bs rest h) };
  }

  -- A step that reads nothing.
  pub Decodes-lift :
      {w : Result Bytes} {r : Result A} (f : A → Reader B) (a : A) {b : B}
      → r ≡ ok a
      → Decodes w (f a) b
      → Decodes w (lift r >>= f) b
  unfolding ◌>>=◌ lift
  Decodes-lift {w} {r} f a e next = record {
    at_pos = λ p. record { run = λ bs rest h. rw e ((next.at_pos p).run bs rest h) };
  }

-- Bytes that a successful write has made decode as the write does.
pub Decodes_of_ok {ℓ} :
    {A : Type ℓ} {w : Result Bytes} {m : Reader A} {a : A} {bs : Bytes}
    → Decodes w m a
    → w ≡ ok bs
    → Decodes (ok bs) m a
Decodes_of_ok {m = m} {a = a} d h = subst (λ w. Decodes w m a) h d

module _ {ℓ} {B : Type ℓ} where
  pub Decodes-then :
      {w v : Result Bytes} {m : Reader (Unit {0})} {k : Reader B} {b : B}
      → Decodes w m tt
      → Decodes v k b
      → Decodes (w <+> v) (m >> k) b
  Decodes-then {k} first second = Decodes-bind (λ _. k) tt first second

  pub Decodes-pure : (b : B) → Decodes (ok []) (pure b) b
  unfolding pure stops
  Decodes-pure b = record {
    at_pos = λ p. record {
      run = λ bs rest h. rw (ok_nil bs h) (ap (λ n. stops b n rest) (sym (add-zero p)));
    };
  }
    where
      ok_nil : (bs : Bytes) → ◌≡◌ {A = Result Bytes} (ok []) (ok bs) → bs ≡ []
      ok_nil bs h = ground arith

  -- A check that passes reads nothing.
  pub Decodes-check :
      {w : Result Bytes} {k : Reader B} {b : B} (m : Reader (Unit {0}))
      → ((c : Cursor) → m c ≡ ok (tt, c))
      → Decodes w k b
      → Decodes w (m >> k) b
  unfolding ◌>>=◌
  Decodes-check m passes next = record {
    at_pos = λ p. record { run = λ bs rest h. rw (passes _) ((next.at_pos p).run bs rest h) };
  }

-- A write that appends `n` bytes, where it does not raise.
abbrev pub HasSize : Result Bytes → ℕ → Type 0
HasSize w n = (bs : Bytes) → w ≡ ok bs → length bs ≡ n

pub HasSize-<+> :
    (w v : Result Bytes) (a b : ℕ) → HasSize w a → HasSize v b → HasSize (w <+> v) (a + b)
HasSize-<+> w v a b hw hv bs h =
    let (xs, ys, ex, ey, e) = <+>-eq-ok w v bs h in
    rw (e, length-append) (omega (arith, hw xs ex, hv ys ey))

pub HasSize-nil : HasSize (ok []) 0
HasSize-nil bs h = ground arith
