-- ===== src/Examples/Codes.antt =====
-- Dictionaries of numbers, and class names.
use xfbin_lib.Base.{ℕ, ◌≡◌, refl, [], ◌∷◌, some, ok, ◌>>=◌, ℕ_discrete, get_elem?}
use xfbin_lib.Dict
use xfbin_lib.Dict.{IterativeDict, keys, get_or_next, update_or_next}
use xfbin_lib.Dict.Numbering.{
  IsNumbered, init-IsNumbered, get_or_next-IsNumbered, update_or_next-IsNumbered,
  get_elem?-get_or_next,
}
use xfbin_lib.Dict.Growth.{Grows, get_or_next-Grows}
use xfbin_lib.Chunk.{codes, null_map, chunk_eq, get_nucc_type_from_str, get_nucc_str_from_type}
use xfbin_lib.Chunk.Equality.{chunk_eq_iff}
use xfbin_lib.Chunk.TypeNames.{str_from_type_from_str, type_from_str_from_type}
use xfbin_lib.Examples.Data.{binary_map}
use mathlib.Core.Logic.{◌↔◌}
use mathlib.Core.Bool.{true}
use mathlib.Core.List.{lookup}

abbrev numbers : IterativeDict ℕ
numbers = record { items = (7, 0) ∷ (9, 1) ∷ []; index = 2 }

abbrev start : IterativeDict ℕ
start = record { items = []; index = 0 }

start-IsNumbered : IsNumbered start
unfolding Dict.init
start-IsNumbered = init-IsNumbered

numbers-IsNumbered : IsNumbered numbers
unfolding update_or_next get_or_next lookup ℕ_discrete
numbers-IsNumbered = update_or_next-IsNumbered ℕ_discrete start (7 ∷ 9 ∷ []) start-IsNumbered

get_or_next-IsNumbered_example : IsNumbered (get_or_next ℕ_discrete numbers 8).0
get_or_next-IsNumbered_example = get_or_next-IsNumbered ℕ_discrete numbers 8 numbers-IsNumbered

update_or_next-IsNumbered_example : IsNumbered (update_or_next ℕ_discrete numbers (8 ∷ 7 ∷ 8 ∷ []))
update_or_next-IsNumbered_example =
    update_or_next-IsNumbered ℕ_discrete numbers (8 ∷ 7 ∷ 8 ∷ []) numbers-IsNumbered

get_elem?-get_or_next_example :
    get_elem? (keys (get_or_next ℕ_discrete numbers 8).0) (get_or_next ℕ_discrete numbers 8).1
    ≡ some 8
get_elem?-get_or_next_example = get_elem?-get_or_next ℕ_discrete numbers 8 numbers-IsNumbered

get_or_next-Grows_example : Grows numbers (get_or_next ℕ_discrete numbers 8).0
get_or_next-Grows_example = get_or_next-Grows ℕ_discrete numbers 8

chunk_eq_iff_example : (chunk_eq null_map binary_map ≡ true) ↔ (null_map ≡ binary_map)
chunk_eq_iff_example = chunk_eq_iff null_map binary_map

str_from_type_from_str_example :
    (get_nucc_type_from_str (codes "nuccChunkClump") >>= get_nucc_str_from_type)
    ≡ ok (codes "nuccChunkClump")
str_from_type_from_str_example = str_from_type_from_str (codes "nuccChunkClump") refl

type_from_str_from_type_example :
    get_nucc_type_from_str (codes "nuccChunkClump") ≡ ok (codes "NuccChunkClump")
unfolding get_nucc_str_from_type
type_from_str_from_type_example =
    type_from_str_from_type (codes "NuccChunkClump") (codes "nuccChunkClump") refl refl
