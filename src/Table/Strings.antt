-- ===== src/Table/Strings.antt =====
-- The three string dictionaries while the chunk maps are numbered.
use xfbin_lib.Base.{ℕ, ◌≡◌, List, ok, some, get_elem?, All, at_index_of_get_elem?}
use xfbin_lib.Binary.{Text, IsText}
use xfbin_lib.Dict
use xfbin_lib.Dict.{keys, get_or_next}
use xfbin_lib.Dict.Numbering.{
  IsNumbered, init-IsNumbered, get_or_next-IsNumbered, get_elem?-get_or_next,
}
use xfbin_lib.Dict.Growth.{
  Grows, Grows-refl, Grows-trans, get_or_next-Grows, get_elem?-Grows, All-get_or_next,
}
use xfbin_lib.Chunk.{Text-discrete}
use xfbin_lib.Table.Types.{
  BrChunkMap, BrChunkTable, Strings, no_strings, Props, number_props, get_props_from_chunk_map,
}

pub record IsText₃ (p : Props) : Type 0 where
  pub type_str : IsText p.type_str
  pub file_path : IsText p.file_path
  pub name : IsText p.name

-- Every dictionary is numbered, and holds texts without a zero.
pub record IsValid (d : Strings) : Type 0 where
  pub types : IsNumbered d.types
  pub paths : IsNumbered d.paths
  pub names : IsNumbered d.names
  pub type_texts : All IsText (keys d.types)
  pub path_texts : All IsText (keys d.paths)
  pub name_texts : All IsText (keys d.names)

pub record Extends (d d' : Strings) : Type 0 where
  pub types : Grows d.types d'.types
  pub paths : Grows d.paths d'.paths
  pub names : Grows d.names d'.names

pub Extends-refl : (d : Strings) → Extends d d
Extends-refl d = record {
  types = Grows-refl d.types;
  paths = Grows-refl d.paths;
  names = Grows-refl d.names;
}

pub Extends-trans : {a b c : Strings} → Extends a b → Extends b c → Extends a c
Extends-trans g h = record {
  types = Grows-trans g.types h.types;
  paths = Grows-trans g.paths h.paths;
  names = Grows-trans g.names h.names;
}

pub no_strings-IsValid : IsValid no_strings
unfolding no_strings Dict.init
no_strings-IsValid = record {
  types = init-IsNumbered;
  paths = init-IsNumbered;
  names = init-IsNumbered;
  type_texts = tt;
  path_texts = tt;
  name_texts = tt;
}

-- The chunk map `m` stands for the strings of `p`.
pub record Resolves (d : Strings) (m : BrChunkMap) (p : Props) : Type 0 where
  pub type_str : get_elem? (keys d.types) m.chunk_type_index ≡ some p.type_str
  pub file_path : get_elem? (keys d.paths) m.file_path_index ≡ some p.file_path
  pub name : get_elem? (keys d.names) m.chunk_name_index ≡ some p.name

-- It still does in every later state of the dictionaries.
pub Resolves-Extends :
    {d d' : Strings} {m : BrChunkMap} {p : Props} → Extends d d' → Resolves d m p → Resolves d' m p
Resolves-Extends {m = m} g r = record {
  type_str = get_elem?-Grows m.chunk_type_index g.types r.type_str;
  file_path = get_elem?-Grows m.file_path_index g.paths r.file_path;
  name = get_elem?-Grows m.chunk_name_index g.names r.name;
}

module _ (d : Strings) (p : Props) where
  pub number_props-IsValid : IsValid d → IsText₃ p → IsValid (number_props d p).0
  unfolding number_props
  number_props-IsValid v t = record {
    types = get_or_next-IsNumbered Text-discrete d.types p.type_str v.types;
    paths = get_or_next-IsNumbered Text-discrete d.paths p.file_path v.paths;
    names = get_or_next-IsNumbered Text-discrete d.names p.name v.names;
    type_texts = All-get_or_next Text-discrete IsText d.types p.type_str v.type_texts t.type_str;
    path_texts = All-get_or_next Text-discrete IsText d.paths p.file_path v.path_texts t.file_path;
    name_texts = All-get_or_next Text-discrete IsText d.names p.name v.name_texts t.name;
  }

  pub number_props-Extends : Extends d (number_props d p).0
  unfolding number_props
  number_props-Extends = record {
    types = get_or_next-Grows Text-discrete d.types p.type_str;
    paths = get_or_next-Grows Text-discrete d.paths p.file_path;
    names = get_or_next-Grows Text-discrete d.names p.name;
  }

  pub number_props-Resolves : IsValid d → Resolves (number_props d p).0 (number_props d p).1 p
  unfolding number_props
  number_props-Resolves v = record {
    type_str = get_elem?-get_or_next Text-discrete d.types p.type_str v.types;
    file_path = get_elem?-get_or_next Text-discrete d.paths p.file_path v.paths;
    name = get_elem?-get_or_next Text-discrete d.names p.name v.names;
  }

-- A table that has the keys of the dictionaries finds the strings again.
pub get_props-Resolves :
    (d : Strings) (t : BrChunkTable) (m : BrChunkMap) (p : Props)
    → t.chunk_types ≡ keys d.types
    → t.file_paths ≡ keys d.paths
    → t.chunk_names ≡ keys d.names
    → Resolves d m p
    → get_props_from_chunk_map t m ≡ ok p
unfolding get_props_from_chunk_map
get_props-Resolves d t m p e₁ e₂ e₃ r =
    let found = λ (ks : List Text) (i : ℕ) (x : Text) (h : get_elem? ks i ≡ some x).
      at_index_of_get_elem? ks i h in
    rw (e₁, e₂, e₃, found _ _ _ r.type_str, found _ _ _ r.file_path, found _ _ _ r.name)
