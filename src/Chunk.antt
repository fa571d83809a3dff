-- ===== src/Chunk.antt =====
-- xfbin/structure/nucc.py, the class NuccChunk: what identifies a chunk, and what every chunk holds.
pub mod Equality
pub mod TypeNames
use xfbin_lib.Base.{
  ℕ, ◌+◌, ◌-◌, ◌≡◌, ◌↔◌, arith, Bool, true, false, ◌&&◌, ◌||◌, not, List, [], ◌∷◌, Option, some,
  none, Result, ok, raise, index_error, attribute_error, ◌>>=◌, map_result, at_index, ltb, leb,
  if◌then◌else◌, ℕ_discrete,
}
use xfbin_lib.Binary.{Text, Bytes}
use mathlib.Core.Bool.{decide}
use mathlib.Core.List.{filter}
use Prim.Native.Char.{code}
use Prim.Native.Nat.{bit_xor}
use Prim.Native.String.{String}

-- The code points of a literal.
abbrev pub codes : String → Text
codes String.[] = []
codes (String.◌∷◌ c s) = code c ∷ codes s

unfoldable pub Text-discrete : Discrete Text
unfolding ℕ_discrete
Text-discrete = hlevel ℕ_discrete

-- A class is known by its name, `type(chunk).__name__`.
abbrev pub ClassName : Type 0
ClassName = Text

-- The type, file path and name of a chunk, which decide its equality.
pub record ChunkMap : Type 0 where
  pub type_name : ClassName
  pub file_path : Text
  pub name : Text

unfoldable pub ChunkMap-discrete : Discrete ChunkMap
unfolding Text-discrete
ChunkMap-discrete = hlevel Text-discrete

-- `s[0].upper() + s[1:]` and `s[0].lower() + s[1:]`, on ASCII letters; an empty string raises.
unfoldable pub upper_first : Text → Result Text
upper_first [] = raise index_error
upper_first (c ∷ s) = ok ((if leb b'a' c && leb c b'z' then c - 32 else c) ∷ s)

unfoldable pub lower_first : Text → Result Text
lower_first [] = raise index_error
lower_first (c ∷ s) = ok ((if leb b'A' c && leb c b'Z' then c + 32 else c) ∷ s)

-- `get_nucc_type_from_str`: the class of that name, made on demand if there is none.
unfoldable pub get_nucc_type_from_str : Text → Result ClassName
unfolding upper_first
get_nucc_type_from_str = upper_first

unfoldable pub get_nucc_str_from_type : ClassName → Result Text
unfolding lower_first
get_nucc_str_from_type = lower_first

abbrev pub base_class : ClassName
base_class = codes "NuccChunk"

abbrev pub null_class : ClassName
null_class = codes "NuccChunkNull"

abbrev pub page_class : ClassName
page_class = codes "NuccChunkPage"

abbrev pub index_class : ClassName
index_class = codes "NuccChunkIndex"

-- What `NuccChunkNull()`, `NuccChunkPage()` and `NuccChunkIndex()` are identified by.
abbrev pub null_map : ChunkMap
null_map = record { type_name = null_class; file_path = []; name = [] }

abbrev pub page_map : ChunkMap
page_map = record { type_name = page_class; file_path = []; name = codes "Page0" }

abbrev pub index_map : ChunkMap
index_map = record { type_name = index_class; file_path = []; name = codes "index" }

unfoldable pub text_eq : Text → Text → Bool
unfolding Text-discrete
text_eq s t = elim (Text-discrete s t) [ yes _ ↦ true | no _ ↦ false ]

pub text_eq_iff : (s t : Text) → (text_eq s t ≡ true) ↔ (s ≡ t)
unfolding text_eq
text_eq_iff s t = ground arith

-- `isinstance(o, cls)`: every other class is a direct subclass of NuccChunk.
unfoldable pub is_instance : ChunkMap → ClassName → Bool
is_instance o cls = text_eq o.type_name cls || text_eq cls base_class

-- The method `__eq__`.
unfoldable pub eq_method : ChunkMap → ChunkMap → Bool
unfolding is_instance
eq_method self o =
    is_instance o self.type_name && text_eq self.file_path o.file_path && text_eq self.name o.name

-- `a == b`: Python asks the right operand first if its class is a proper subclass of the left's.
unfoldable pub chunk_eq : ChunkMap → ChunkMap → Bool
unfolding eq_method
chunk_eq a b =
    if not (text_eq a.type_name b.type_name) && text_eq a.type_name base_class
    then eq_method b a
    else eq_method a b

-- The method `__hash__`, over Python's hash of a string.
unfoldable pub chunk_hash : (Text → ℕ) → ChunkMap → ℕ
chunk_hash hash self =
    bit_xor (bit_xor (hash self.type_name) (hash self.file_path)) (hash self.name)

-- A chunk object. `content` is its attribute `data`; it and `file_data` may be absent; `props` are the attributes of its subclass.
pub record NuccChunk (P : Type 0) : Type 0 where
  pub chunk_map : ChunkMap
  pub extension : Text
  pub content : Option Bytes
  pub file_data : Option Bytes
  pub has_data : Bool
  pub has_props : Bool
  pub chunks : List ChunkMap
  pub props : Option P

-- The constructors: only the three classes without data begin with `has_props`.
unfoldable pub is_bare_class : ClassName → Bool
is_bare_class t = text_eq t null_class || text_eq t page_class || text_eq t index_class

unfoldable pub init : {P : Type 0} → ChunkMap → NuccChunk P
unfolding is_bare_class
init m = record {
  chunk_map = m;
  extension = [];
  content = none;
  file_data = none;
  has_data = false;
  has_props = is_bare_class m.type_name;
  chunks = [];
  props = none;
}

-- `create_from_nucc_type(type_str, file_path, name)`.
unfoldable pub create_from_nucc_type : {P : Type 0} → Text → Text → Text → Result (NuccChunk P)
unfolding get_nucc_type_from_str init
create_from_nucc_type type_str file_path name = do
  cls ← get_nucc_type_from_str type_str
  ok (init (record { type_name = cls; file_path = file_path; name = name }))

-- `[c for c in chunks if not isinstance(c, (NuccChunkPage, NuccChunkIndex))]`
unfoldable pub without_page_index : List ChunkMap → List ChunkMap
unfolding is_instance
without_page_index [] = []
without_page_index (c ∷ cs) =
    if is_instance c page_class || is_instance c index_class
    then without_page_index cs
    else c ∷ without_page_index cs

module _ {P : Type 0} where
  unfoldable pub set_data : NuccChunk P → Bytes → List ChunkMap → NuccChunk P
  unfolding without_page_index
  set_data c bytes chunks = record c {
    content = some bytes;
    has_data = true;
    chunks = without_page_index chunks;
  }

  -- `NuccChunk.init_data`, for a class that does not override it.
  unfoldable pub init_data : NuccChunk P → Bytes → List ChunkMap → List ℕ → Result (NuccChunk P)
  unfolding without_page_index
  init_data c bytes chunk_list chunk_indices = do
    referenced ← map_result (at_index chunk_list) chunk_indices
    ok (record c { content = some bytes; has_data = true; chunks = without_page_index referenced })

  -- `self.data`
  unfoldable pub stored_data : NuccChunk P → Result Bytes
  stored_data c = elim c.content [ some d ↦ ok d | none ↦ raise attribute_error ]

  unfoldable pub get_data : NuccChunk P → Bool → Result Bytes
  unfolding stored_data
  get_data c file_data_only = elim c.file_data [
    | some fd ↦ if file_data_only then ok fd else stored_data c
    | none ↦ stored_data c
  ]
