-- ===== src/Xfbin/ClumpAdds.antt =====
-- What the loops of Xfbin.add_clump_page (xfbin/structure/xfbin.py) add to the new page.
use xfbin_lib.Base.{
  Bool, All-append, ◌≡◌, refl, ◌∙◌, List, [], ◌∷◌, ◌++◌, Option, none, some, ok, All, arith,
}
use xfbin_lib.Chunk.{ChunkMap, ChunkMap-discrete, NuccChunk}
use xfbin_lib.Page.Types.{Page}
use xfbin_lib.Xfbin.Clump.{Texture, Material, Model, concat, add_chunks, add_models, add_materials}
use xfbin_lib.Xfbin.AddChunk.{find, put_chunk, add_chunk-put_chunk, find-put_chunk}

module _ {P : Type 0} where
  -- A chunk of the page has the type, path and name.
  abbrev pub Holds : Page P → ChunkMap → Type 0
  Holds page m = (c : NuccChunk P) × (find m page.chunks ≡ some c)

  -- What adding chunks leaves: the page has all of `ms`, and what it had before.
  pub record Adds (page added : Page P) (ms : List ChunkMap) : Type 0 where
    pub new : All (Holds added) ms
    pub kept : (m : ChunkMap) → Holds page m → Holds added m

  abbrev pub added : Page P → NuccChunk P → Page P
  added page c = record page { chunks = put_chunk c page.chunks }

  pub Holds-added : (page : Page P) (c : NuccChunk P) → Holds (added page c) c.chunk_map
  Holds-added page c = (c, find-put_chunk page.chunks c c.chunk_map ∙ ground arith)

  pub Holds-put_chunk :
      (page : Page P) (c : NuccChunk P) (m : ChunkMap) → Holds page m → Holds (added page c) m
  Holds-put_chunk page c m (x, h) = elim (ChunkMap-discrete c.chunk_map m) [
    | yes e ↦ (c, find-put_chunk page.chunks c m ∙ ground arith)
    | no n ↦ (x, find-put_chunk page.chunks c m ∙ ground arith)
  ]

  Adds-cons :
      (page : Page P) (c : NuccChunk P) (p : Page P) (ms : List ChunkMap)
      → Adds (added page c) p ms
      → Adds page p (c.chunk_map ∷ ms)
  Adds-cons page c p ms a = record {
    new = (a.kept c.chunk_map (Holds-added page c), a.new);
    kept = λ m h. a.kept m (Holds-put_chunk page c m h);
  }

  Adds-nil : (page : Page P) → Adds page page []
  Adds-nil page = record { new = tt; kept = λ m h. h }

  abbrev pub maps_of : List (NuccChunk P) → List ChunkMap
  maps_of [] = []
  maps_of (c ∷ cs) = c.chunk_map ∷ maps_of cs

  pub add_chunks-Adds :
      (page : Page P) (cs : List (NuccChunk P))
      → (p : Page P) × (add_chunks page cs ≡ ok p) × Adds page p (maps_of cs)
  unfolding add_chunks
  add_chunks-Adds page [] = (page, refl, Adds-nil page)
  add_chunks-Adds page (c ∷ cs) =
      let (p, h, a) = add_chunks-Adds (added page c) cs in
      (p, rw (add_chunk-put_chunk page c, add_chunks) h, Adds-cons page c p (maps_of cs) a)

  abbrev pub model_maps : List (Option (Model P)) → List ChunkMap
  model_maps [] = []
  model_maps (none ∷ ms) = model_maps ms
  model_maps (some m ∷ ms) = m.chunk.chunk_map ∷ model_maps ms

  -- The attributes that `add_clump_page` asks for are there.
  abbrev pub IsTexture : Texture P → Type 0
  IsTexture t = (has : Bool) × (t.has_nut ≡ some has)

  abbrev pub IsMaterial : Material P → Type 0
  IsMaterial m =
      (groups : List (List (Texture P))) × (m.texture_groups ≡ some groups)
      × All IsTexture (concat groups)

  abbrev pub IsModel : Option (Model P) → Type 0
  IsModel none = Unit {0}
  IsModel (some m) =
      (materials : List (Material P)) × (m.material_chunks ≡ some materials)
      × All IsMaterial materials

  pub add_models-Adds :
      (page : Page P) (materials : List (Material P)) (ms : List (Option (Model P)))
      → All IsMaterial materials
      → All IsModel ms
      → (p : Page P) × (found : List (Material P)) × (add_models page materials ms ≡ ok (p, found))
        × Adds page p (model_maps ms)
        × All IsMaterial found
  unfolding add_models
  add_models-Adds page materials [] q h = (page, materials, refl, Adds-nil page, q)
  add_models-Adds page materials (none ∷ ms) q (h, hs) = add_models-Adds page materials ms q hs
  add_models-Adds page materials (some m ∷ ms) q ((more, e, r), hs) =
      let (p, found, run, a, f) =
        add_models-Adds (added page m.chunk) (materials ++ more) ms
          (All-append IsMaterial materials more q r) hs in
      (
        p,
        found,
        rw (add_chunk-put_chunk page m.chunk, add_models, e) run,
        Adds-cons page m.chunk p (model_maps ms) a,
        f,
      )

  abbrev pub material_maps : List (Material P) → List ChunkMap
  material_maps [] = []
  material_maps (m ∷ ms) = m.chunk.chunk_map ∷ material_maps ms

  pub add_materials-Adds :
      (page : Page P) (textures : List (Texture P)) (ms : List (Material P))
      → All IsTexture textures
      → All IsMaterial ms
      → (p : Page P) × (found : List (Texture P)) × (add_materials page textures ms ≡ ok (p, found))
        × Adds page p (material_maps ms)
        × All IsTexture found
  unfolding add_materials
  add_materials-Adds page textures [] q h = (page, textures, refl, Adds-nil page, q)
  add_materials-Adds page textures (m ∷ ms) q ((groups, e, r), hs) =
      let (p, found, run, a, f) =
        add_materials-Adds (added page m.chunk) (textures ++ concat groups) ms
          (All-append IsTexture textures (concat groups) q r) hs in
      (
        p,
        found,
        rw (add_chunk-put_chunk page m.chunk, add_materials, e) run,
        Adds-cons page m.chunk p (material_maps ms) a,
        f,
      )
