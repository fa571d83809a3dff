-- ===== src/Nud/Strips.antt =====
-- What the faces of `add_faces` are, in terms of the entries that were read.
use xfbin_lib.Base.{
  ℕ, ◌≤◌, ◌≡◌, refl, sym, ap, ◌∙◌, ◌⊎◌, inl, inr, Bool, true, false, Bool-cases, ◌==◌, List, [],
  ◌∷◌, ◌++◌, append_assoc, ok, length, All, bit_and, arith, not,
}
use xfbin_lib.Base.Int.{ℤ, negsuc, ◌==ℤ◌}
use xfbin_lib.Nud.Types.{Face}
use xfbin_lib.Nud.Faces.{
  Strip, at_start, have_one, have_two, face_of, run_strip, add_face, add_faces,
}

-- The face is made of three entries in a row, `f1`, `f2` and `f3`: no two neighbours are equal, the last is
-- not -1, and the face is one of the two windings.
pub record Window (entries : List ℤ) (face : Face) : Type 0 where
  pub before : List ℤ
  pub after : List ℤ
  pub f1 : ℤ
  pub f2 : ℤ
  pub f3 : ℤ
  pub split : entries ≡ before ++ (f1 ∷ f2 ∷ f3 ∷ after)
  pub f1_f2 : (f1 ==ℤ f2) ≡ false
  pub f2_f3 : (f2 ==ℤ f3) ≡ false
  pub f3_end : (f3 ==ℤ negsuc 0) ≡ false
  pub winding : (face ≡ (f3, (f2, f1))) ⊎ (face ≡ (f2, (f3, f1)))

-- The entries that the state remembers are the last that were read.
abbrev Remembers : List ℤ → Strip → Type 0
Remembers pre at_start = Unit {0}
Remembers pre (have_one a) = (p : List ℤ) × (pre ≡ p ++ (a ∷ []))
Remembers pre (have_two a b forward) = (p : List ℤ) × (pre ≡ p ++ (a ∷ b ∷ []))

face_of-Window :
    (before after : List ℤ) (f1 f2 f3 : ℤ) (forward : Bool) (entries : List ℤ)
    → (f3 ==ℤ negsuc 0) ≡ false
    → entries ≡ before ++ (f1 ∷ f2 ∷ f3 ∷ after)
    → All (Window entries) (face_of f1 f2 f3 forward)
unfolding face_of
face_of-Window before after f1 f2 f3 forward entries e s = elim (Bool-cases (f1 ==ℤ f2)) [
  | inl h ↦ rw h tt
  | inr h ↦ elim (Bool-cases (f2 ==ℤ f3)) [
    | inl g ↦ rw (h, g) tt
    | inr g ↦ elim (Bool-cases forward) [
      | inl w ↦
          rw (h, g, w)
            (
              record {
                before = before;
                after = after;
                f1 = f1;
                f2 = f2;
                f3 = f3;
                split = s;
                f1_f2 = h;
                f2_f3 = g;
                f3_end = e;
                winding = inl refl;
              },
              tt,
            )
      | inr w ↦
          rw (h, g, w)
            (
              record {
                before = before;
                after = after;
                f1 = f1;
                f2 = f2;
                f3 = f3;
                split = s;
                f1_f2 = h;
                f2_f3 = g;
                f3_end = e;
                winding = inr refl;
              },
              tt,
            )
    ]
  ]
]

All-add_face :
    (entries : List ℤ) (fs gs : List Face)
    → All (Window entries) fs
    → All (Window entries) gs
    → All (Window entries) (add_face fs gs)
All-add_face entries [] gs h g = g
All-add_face entries (f ∷ fs) gs (h, hs) g = (h, g)

-- Reading on from a state whose memory is right.
run_strip-Window :
    (s : Strip) (pre fs : List ℤ) (entries : List ℤ)
    → Remembers pre s
    → entries ≡ pre ++ fs
    → All (Window entries) (run_strip s fs)
unfolding run_strip
run_strip-Window s pre [] entries r e = tt
run_strip-Window at_start pre (f ∷ fs) entries r e =
    run_strip-Window (have_one f) (pre ++ (f ∷ [])) fs entries (pre, refl)
      (e ∙ sym (append_assoc pre (f ∷ []) fs))
run_strip-Window (have_one a) pre (f ∷ fs) entries (p, h) e =
    run_strip-Window (have_two a f true) (pre ++ (f ∷ [])) fs entries
      (p, ap (λ x. x ++ (f ∷ [])) h ∙ append_assoc p (a ∷ []) (f ∷ []))
      (e ∙ sym (append_assoc pre (f ∷ []) fs))
run_strip-Window (have_two a b forward) pre (f ∷ fs) entries (p, h) e =
    let e' = e ∙ sym (append_assoc pre (f ∷ []) fs) in
    elim (Bool-cases (f ==ℤ negsuc 0)) [
      | inl c ↦ rw (c, run_strip) (run_strip-Window at_start (pre ++ (f ∷ [])) fs entries tt e')
      | inr c ↦
          let here =
            face_of-Window p fs a b f (not forward) entries c
              (e ∙ ap (λ x. x ++ (f ∷ fs)) h ∙ append_assoc p (a ∷ b ∷ []) (f ∷ fs)) in
          let rest =
            run_strip-Window (have_two b f (not forward)) (pre ++ (f ∷ [])) fs entries
              (
                p ++ (a ∷ []),
                ap (λ x. x ++ (f ∷ [])) h
                    ∙ append_assoc p (a ∷ b ∷ []) (f ∷ [])
                    ∙ sym (append_assoc p (a ∷ []) (b ∷ f ∷ [])),
              )
              e' in
          rw (c, run_strip) (All-add_face entries (face_of a b f (not forward)) _ here rest)
    ]

-- In the strip format, and with two entries at least, `add_faces` does not raise, and every face is made of
-- three entries in a row, `f1`, `f2` and `f3`, where `f1` differs from `f2`, `f2` from `f3`, and `f3` from -1:
-- it is `(f3, f2, f1)` or `(f2, f3, f1)`.
pub add_faces-Window :
    (entries : List ℤ) (face_size : ℕ)
    → (bit_and face_size 0x40 == 0) ≡ true
    → 2 ≤ length entries
    → (faces : List Face) × (add_faces entries face_size ≡ ok faces) × All (Window entries) faces
unfolding add_faces
add_faces-Window [] face_size e h = absurd (omega arith)
add_faces-Window (a ∷ []) face_size e h = absurd (omega arith)
add_faces-Window (a ∷ b ∷ fs) face_size e h = (
  run_strip (have_two a b true) fs,
  rw (e, add_faces) refl,
  run_strip-Window (have_two a b true) (a ∷ b ∷ []) fs (a ∷ b ∷ fs) ([], refl) refl,
)
