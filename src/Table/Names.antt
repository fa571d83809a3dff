-- ===== src/Table/Names.antt =====
-- The names of the references join the strings of a table (BrChunkTable.__br_write__), and chunks have numbers.
use xfbin_lib.Base.{
  ℕ, ◌≡◌, List, [], ◌∷◌, map, ok, >>=-ok_elim, ok_injective, some, get_elem?, All, Forall₂, nil,
  cons, map_result,
}
use xfbin_lib.Binary.{IsText}
use xfbin_lib.Dict.{IterativeDict, keys}
use xfbin_lib.Dict.Numbering.{IsNumbered, update_or_next-IsNumbered}
use xfbin_lib.Dict.Growth.{
  Grows-refl, index_of, get_elem?-index_of, update_or_next-Grows, All-update_or_next,
}
use xfbin_lib.Chunk.{ChunkMap, Text-discrete, ChunkMap-discrete}
use xfbin_lib.Table.Types.{ChunkReference, Strings, add_reference_names}
use xfbin_lib.Table.Strings.{IsValid, Extends}
use mathlib.Core.Path.{subst}

pub add_reference_names-IsValid :
    (d : Strings) (references : List ChunkReference)
    → IsValid d
    → All (λ r. IsText r.name) references
    → IsValid (add_reference_names d references)
add_reference_names-IsValid d references v t = record {
  types = v.types;
  paths = v.paths;
  names = update_or_next-IsNumbered Text-discrete d.names _ v.names;
  type_texts = v.type_texts;
  path_texts = v.path_texts;
  name_texts =
      All-update_or_next Text-discrete IsText d.names _ v.name_texts (names_of references t);
}
  where
    names_of :
        (rs : List ChunkReference) → All (λ r. IsText r.name) rs → All IsText (map (λ r. r.name) rs)
    names_of [] h = tt
    names_of (r ∷ rs) (h, hs) = (h, names_of rs hs)

pub add_reference_names-Extends :
    (d : Strings) (references : List ChunkReference) → Extends d (add_reference_names d references)
add_reference_names-Extends d references = record {
  types = Grows-refl d.types;
  paths = Grows-refl d.paths;
  names = update_or_next-Grows Text-discrete d.names _;
}

-- The numbers of a list of chunks.
pub numbers_of :
    (maps : IterativeDict ChunkMap) (cs : List ChunkMap) (is : List ℕ)
    → IsNumbered maps
    → map_result (index_of ChunkMap-discrete maps) cs ≡ ok is
    → Forall₂ (λ c i. get_elem? (keys maps) i ≡ some c) cs is
numbers_of maps [] is n h = subst (Forall₂ _ []) (ok_injective h) nil
numbers_of maps (c ∷ cs) is n h = >>=-ok_elim _ (index_of ChunkMap-discrete maps c) _ h λ i hi h₁.
    >>=-ok_elim _ (map_result (index_of ChunkMap-discrete maps) cs) _ h₁ λ js hs h₂.
      subst (Forall₂ _ (c ∷ cs)) (ok_injective h₂)
        (cons (get_elem?-index_of ChunkMap-discrete maps c n hi) (numbers_of maps cs js n hs))
