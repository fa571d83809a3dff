-- ===== src/Nud/Faces.antt =====
-- NudMesh.add_faces of xfbin/structure/nud.py.
use xfbin_lib.Base.{
  ℕ, ◌==◌, Bool, true, false, ◌&&◌, not, List, [], ◌∷◌, Result, ok, raise, stop_iteration, bit_and,
  if◌then◌else◌,
}
use xfbin_lib.Base.Int.{ℤ, negsuc, ◌==ℤ◌}
use xfbin_lib.Nud.Types.{Face}

-- `zip(faces, faces, faces)` on one iterator: the list of what it gives.
unfoldable pub triples : List ℤ → List Face
triples [] = []
triples (a ∷ []) = []
triples (a ∷ b ∷ []) = []
triples (a ∷ b ∷ c ∷ faces) = (a, (b, c)) ∷ triples faces

-- Where the loop stands: before `f1`, before `f2`, or before `f3`; `face_dir` is 1 where `forward` is true.
pub data Strip : Type 0 where
  at_start : Strip
  have_one : ℤ → Strip
  have_two : (f1 : ℤ) → (f2 : ℤ) → (forward : Bool) → Strip

-- `if f1 != f2 != f3`, with the direction that was just turned.
unfoldable pub face_of : ℤ → ℤ → ℤ → Bool → List Face
face_of f1 f2 f3 forward =
    if not (f1 ==ℤ f2) && not (f2 ==ℤ f3)
    then (if forward then (f3, (f2, f1)) ∷ [] else (f2, (f3, f1)) ∷ [])
    else []

abbrev pub add_face : List Face → List Face → List Face
add_face [] faces = faces
add_face (f ∷ fs) faces = f ∷ faces

-- The loop, up to StopIteration.
unfoldable pub run_strip : Strip → List ℤ → List Face
unfolding face_of
run_strip s [] = []
run_strip at_start (f1 ∷ faces) = run_strip (have_one f1) faces
run_strip (have_one f1) (f2 ∷ faces) = run_strip (have_two f1 f2 true) faces
run_strip (have_two f1 f2 forward) (f3 ∷ faces) = elim (f3 ==ℤ negsuc 0) [
  | true ↦ run_strip at_start faces
  | false ↦
      add_face (face_of f1 f2 f3 (not forward)) (run_strip (have_two f2 f3 (not forward)) faces)
]

-- The two reads in front of the loop are outside its `try`.
unfoldable pub add_faces : List ℤ → ℕ → Result (List Face)
unfolding triples run_strip
add_faces faces face_size = elim (bit_and face_size 0x40 == 0) [
  | false ↦ ok (triples faces)
  | true ↦ strip faces
]
  where
    strip : List ℤ → Result (List Face)
    strip [] = raise stop_iteration
    strip (f1 ∷ []) = raise stop_iteration
    strip (f1 ∷ f2 ∷ rest) = ok (run_strip (have_two f1 f2 true) rest)
