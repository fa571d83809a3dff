-- ===== src/Chunk/TypeNames.antt =====
-- The two conversions between class names and the type strings of a file.
use xfbin_lib.Base.{◌≡◌, Bool, true, false, ◌&&◌, arith, [], ◌∷◌, ok, ◌>>=◌, leb}
use xfbin_lib.Binary.{Text}
use xfbin_lib.Chunk.{ClassName, get_nucc_type_from_str, get_nucc_str_from_type}

abbrev pub starts_lower : Text → Bool
starts_lower [] = false
starts_lower (c ∷ s) = leb b'a' c && leb c b'z'

-- A type string that begins with a lower case letter names a class that gives the type string back.
pub str_from_type_from_str :
    (s : Text)
    → starts_lower s ≡ true
    → (get_nucc_type_from_str s >>= get_nucc_str_from_type) ≡ ok s
unfolding get_nucc_type_from_str get_nucc_str_from_type
str_from_type_from_str [] h = cc
str_from_type_from_str (c ∷ s) h = ground arith

-- A class whose name does not begin with a lower case letter, and that has a type string, is found again
-- from the type string.
pub type_from_str_from_type :
    (t : ClassName) (s : Text)
    → starts_lower t ≡ false
    → get_nucc_str_from_type t ≡ ok s
    → get_nucc_type_from_str s ≡ ok t
unfolding get_nucc_type_from_str get_nucc_str_from_type
type_from_str_from_type [] s h e = cc
type_from_str_from_type (c ∷ t) [] h e = cc
type_from_str_from_type (c ∷ t) (x ∷ s) h e = ground arith
