-- ===== src/Examples/Clumps.antt =====
-- A clump with a model that stands twice, a coord, a material and a texture.
use xfbin_lib.Base.{◌≡◌, refl, List, [], ◌∷◌, ◌++◌, none, some, ok, All, false}
use xfbin_lib.Binary.{Bytes}
use xfbin_lib.Chunk.{ChunkMap, NuccChunk, codes, is_instance, text_eq}
use xfbin_lib.Page.Types.{Page}
use xfbin_lib.Xfbin.Clump.{Texture, Material, Model, Clump, model_key, add_clump_page}
use xfbin_lib.Xfbin.ClumpAdds.{Holds, maps_of, IsModel}
use xfbin_lib.Xfbin.ClumpPage.{HoldsKey, add_clump_page-Holds}
use xfbin_lib.Examples.Data.{binary_chunk, binary_page}

abbrev chunk_of : ChunkMap → NuccChunk Bytes
chunk_of m = record binary_chunk { chunk_map = m }

abbrev texture : Texture Bytes
texture = record {
  chunk = chunk_of (record {
    type_name = codes "NuccChunkTexture";
    file_path = codes "t.nut";
    name = codes "t";
  });
  has_nut = some false;
}

abbrev material : Material Bytes
material = record {
  chunk = chunk_of (record {
    type_name = codes "NuccChunkMaterial";
    file_path = codes "c.max";
    name = codes "m";
  });
  texture_groups = some ((texture ∷ []) ∷ []);
}

abbrev model : Model Bytes
model = record {
  chunk = chunk_of (record {
    type_name = codes "NuccChunkModel";
    file_path = codes "c.max";
    name = codes "body";
  });
  material_chunks = some (material ∷ []);
}

abbrev clump : Clump Bytes
clump = record {
  chunk =
      chunk_of (record {
        type_name = codes "NuccChunkClump";
        file_path = codes "c.max";
        name = codes "c";
      });
  model_chunks = model ∷ [];
  model_groups = (none ∷ some model ∷ []) ∷ [];
  coord_chunks =
      chunk_of (record {
        type_name = codes "NuccChunkCoord";
        file_path = codes "c.max";
        name = codes "root";
      })
      ∷ [];
}

complete_model : IsModel (some model)
complete_model = (material ∷ [], refl, (((texture ∷ []) ∷ [], refl, ((false, refl), tt)), tt))

add_clump_page-Holds_example :
    (front : List (Page Bytes)) × (page : Page Bytes) × (add_clump_page (binary_page ∷ []) clump
      ≡ ok (front ++ (page ∷ []), page))
    × Holds page clump.chunk.chunk_map
    × All (λ m. Holds page m.chunk.chunk_map) clump.model_chunks
    × All (All (λ x. HoldsKey page (model_key x))) clump.model_groups
    × All (Holds page) (maps_of clump.coord_chunks)
unfolding is_instance text_eq
add_clump_page-Holds_example =
    add_clump_page-Holds (binary_page ∷ []) clump refl (complete_model, (tt, (complete_model, tt)))
