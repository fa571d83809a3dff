-- ===== src/Nud/FaceEntries.antt =====
-- The faces of a mesh as BrNudMesh writes them (xfbin/structure/br/br_nud.py), and as `add_faces` makes
-- them of what is read.
use xfbin_lib.Base.{
  ℕ, suc, ◌+◌, ◌*◌, ◌-◌, ◌≡◌, refl, ap, false, List, [], ◌∷◌, length, Result, ok, raise,
  index_error, map_ok, map_ok-ok, All, arith, >>=-ok_elim, ok_injective, ◌∙◌,
}
use mathlib.Core.Path.{subst}
use xfbin_lib.Base
use xfbin_lib.Base.Int.{ℤ, negsuc, ◌==ℤ◌}
use xfbin_lib.Binary.{Bytes, BinaryReader, Decodes}
use xfbin_lib.Binary.Rules.{Decodes_of_ok}
use xfbin_lib.Binary.Sequence.{write_each, read_n, Decodes-count}
use xfbin_lib.Nud.Types.{Face}
use xfbin_lib.Nud.Faces.{at_start, have_two, face_of, run_strip, add_faces}

-- `(face[2], face[0], face[1])`, and -1 behind every face but the last; `mesh.faces[-1]` of no faces raises.
unfoldable pub face_entries : List Face → Result (List ℤ)
face_entries [] = raise index_error
face_entries ((f0, (f1, f2)) ∷ []) = ok (f2 ∷ f0 ∷ f1 ∷ [])
face_entries ((f0, (f1, f2)) ∷ g ∷ faces) =
    map_ok (λ entries. f2 ∷ f0 ∷ f1 ∷ negsuc 0 ∷ entries) (face_entries (g ∷ faces))

-- `(len(mesh.faces) * 4) - 1`
abbrev pub face_count : List Face → ℕ
face_count faces = length faces * 4 - 1

module _ {Float : Type 0} (io : BinaryReader Float) where
  open io use {write_int16, read_int16, int16_reads}

  -- The part of BrNudMesh.__br_write__ that fills the buffer `polyClump`.
  unfoldable pub write_faces : List Face → Result Bytes
  unfolding face_entries
  write_faces faces = Base.◌>>=◌ (face_entries faces) (write_each write_int16)

-- No two of the three that stand side by side are equal, and the last is not the end of a strip.
pub record IsTriangle (face : Face) : Type 0 where
  pub ends_apart : (face.1.1 ==ℤ face.0) ≡ false
  pub starts_apart : (face.0 ==ℤ face.1.0) ≡ false
  pub goes_on : (face.1.0 ==ℤ negsuc 0) ≡ false

face_of-IsTriangle :
    (f0 f1 f2 : ℤ) → IsTriangle (f0, (f1, f2)) → face_of f2 f0 f1 false ≡ (f0, (f1, f2)) ∷ []
unfolding face_of
face_of-IsTriangle f0 f1 f2 t = rw (t.ends_apart, t.starts_apart) refl

length-face_entries :
    (faces : List Face) (entries : List ℤ)
    → face_entries faces ≡ ok entries
    → length entries ≡ face_count faces
unfolding face_entries
length-face_entries [] entries h = cc
length-face_entries ((f0, (f1, f2)) ∷ []) entries h = ground arith
length-face_entries ((f0, (f1, f2)) ∷ g ∷ faces) entries h =
    let (rest, hr, e) = map_ok-ok _ (face_entries (g ∷ faces)) entries h in
    rw (← e) (omega (arith, length-face_entries (g ∷ faces) rest hr))

run_strip-IsTriangle :
    (f0 f1 f2 : ℤ) (rest : List ℤ)
    → IsTriangle (f0, (f1, f2))
    → run_strip at_start (f2 ∷ f0 ∷ f1 ∷ rest)
      ≡ (f0, (f1, f2)) ∷ run_strip (have_two f0 f1 false) rest
unfolding run_strip
run_strip-IsTriangle f0 f1 f2 rest t = rw (t.goes_on, run_strip, face_of-IsTriangle f0 f1 f2 t) refl

-- Read from the start of a strip, the entries give the faces.
run_strip-face_entries :
    (faces : List Face) (entries : List ℤ)
    → All IsTriangle faces
    → face_entries faces ≡ ok entries
    → run_strip at_start entries ≡ faces
unfolding face_entries run_strip
run_strip-face_entries [] entries t h = cc
run_strip-face_entries ((f0, (f1, f2)) ∷ []) entries (t, ts) h =
    subst (λ es. run_strip at_start es ≡ (f0, (f1, f2)) ∷ []) (ok_injective h)
      (run_strip-IsTriangle f0 f1 f2 [] t)
run_strip-face_entries ((f0, (f1, f2)) ∷ g ∷ faces) entries (t, ts) h =
    let (rest, hr, e) = map_ok-ok _ (face_entries (g ∷ faces)) entries h in
    subst (λ es. run_strip at_start es ≡ (f0, (f1, f2)) ∷ g ∷ faces) e
      (run_strip-IsTriangle f0 f1 f2 (negsuc 0 ∷ rest) t
        ∙ ap (◌∷◌ (f0, (f1, f2))) (run_strip-face_entries (g ∷ faces) rest ts hr))

-- There are three entries at least.
add_faces-run_strip :
    (faces : List Face) (entries : List ℤ)
    → face_entries faces ≡ ok entries
    → add_faces entries 0 ≡ ok (run_strip at_start entries)
unfolding face_entries run_strip add_faces
add_faces-run_strip [] entries h = cc
add_faces-run_strip ((f0, (f1, f2)) ∷ []) entries h =
    subst (λ es. add_faces es 0 ≡ ok (run_strip at_start es)) (ok_injective h) refl
add_faces-run_strip ((f0, (f1, f2)) ∷ g ∷ faces) entries h =
    let (rest, hr, e) = map_ok-ok _ (face_entries (g ∷ faces)) entries h in
    subst (λ es. add_faces es 0 ≡ ok (run_strip at_start es)) e refl

module _ {Float : Type 0} (io : BinaryReader Float) where
  open io use {write_int16, read_int16, int16_reads}

  -- Where the third entry of every face differs from the first, the first from the second, and the second from -1:
  -- the entries that are written read back, as many as the face count that is written tells, from any
  -- position, and `add_faces` makes of them the same faces in the same order.
  pub add_faces-write_faces :
      (faces : List Face) (bs : Bytes)
      → All IsTriangle faces
      → write_faces io faces ≡ ok bs
      → (entries : List ℤ) × Decodes (ok bs) (read_n (face_count faces) read_int16) entries
        × (add_faces entries 0 ≡ ok faces)
  unfolding write_faces
  add_faces-write_faces faces bs t h = >>=-ok_elim _ (face_entries faces) _ h λ entries he hw. (
    entries,
    Decodes_of_ok
        (Decodes-count write_int16 read_int16 (face_count faces) entries int16_reads
          (length-face_entries faces entries he))
        hw,
    add_faces-run_strip faces entries he ∙ ap ok (run_strip-face_entries faces entries t he),
  )
