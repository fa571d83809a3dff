-- ===== src/Examples/Objects.antt =====
-- The file with one page, read into objects of a class that does not override `init_data`.
use xfbin_lib.Base.{
  ℕ, true, some, ◌≡◌, ◌≢◌, ◌⊎◌, refl, sym, ap, ◌∙◌, List, [], ◌∷◌, All, ok, at_index, get_elem?,
  >>=-ok_elim, map_result, ◌>>=◌, ok_injective, Option, none,
}
use xfbin_lib.Base.Int.{ℤ}
use xfbin_lib.Binary.{Bytes}
use xfbin_lib.Binary.BigEndian.{big_endian}
use xfbin_lib.Dict.{keys, get_or_next}
use xfbin_lib.Chunk
use xfbin_lib.Chunk.{ChunkMap, ChunkMap-discrete, NuccChunk, text_eq}
use xfbin_lib.Page.Types.{BrNuccChunk}
use xfbin_lib.Page.Write.{PageWritten}
use xfbin_lib.File.Write.{with_index}
use xfbin_lib.File.Objects.{InitData, maps_of, set_object}
use xfbin_lib.File.Objects.Store.{
  maps_of-set_object, get_elem?-set_object, get_elem?-set_object_apart,
}
use xfbin_lib.File.Objects.Reads.{ShowsAt, Keeps}
use xfbin_lib.File.Objects.RoundTrip.{FileMade, FileStopped, read_xfbin-write_xfbin}
use xfbin_lib.File.Parts.{IsUpper, AreUpper}
use xfbin_lib.Payload.Clump.Ready.{get_elem?-ok}
use xfbin_lib.Examples.Data.{plain, binary_page, file_bytes, write_page_run, write_xfbin_run}
use xfbin_lib.Examples.Files.{binary_page-CanRead, binary_page-StartsNull}
use mathlib.Core.List.{lookup}
use mathlib.Core.Path.{subst}

-- `init_data` of the base class.
unfoldable pub init_base : {P : Type 0} → InitData P
unfolding set_object Chunk.init_data
init_base store indices j b = do
  c ← at_index store j
  c' ← Chunk.init_data c b.content (maps_of store) indices
  ok (set_object store j c')

-- The object has the data of the entry.
abbrev HasData : {P : Type 0} → BrNuccChunk P → NuccChunk P → Type 0
HasData b c = (c.content ≡ some b.content) × (c.has_data ≡ true)

module _ {P : Type 0} where
  -- What a call of it leaves.
  record BaseSet (store store' : List (NuccChunk P)) (j : ℕ) (b : BrNuccChunk P) : Type 0 where
    object_before : NuccChunk P
    is_before : get_elem? store j ≡ some object_before
    object_after : NuccChunk P
    is_after : store' ≡ set_object store j object_after
    same : object_after.chunk_map ≡ object_before.chunk_map
    has_data : HasData b object_after

  init_data_keeps :
      (c c' : NuccChunk P) (b : BrNuccChunk P) (maps : List ChunkMap) (indices : List ℕ)
      → Chunk.init_data c b.content maps indices ≡ ok c'
      → (c'.chunk_map ≡ c.chunk_map) × HasData b c'
  unfolding Chunk.init_data
  init_data_keeps c c' b maps indices h =
      >>=-ok_elim _ (map_result (at_index maps) indices) _ h λ ms hm e. (
        ap (λ (x : NuccChunk P). x.chunk_map) (sym (ok_injective e)),
        (
          ap (λ (x : NuccChunk P). x.content) (sym (ok_injective e)),
          ap (λ (x : NuccChunk P). x.has_data) (sym (ok_injective e)),
        ),
      )

  base_set :
      (store store' : List (NuccChunk P)) (indices : List ℕ) (j : ℕ) (b : BrNuccChunk P)
      → init_base store indices j b ≡ ok store'
      → BaseSet store store' j b
  unfolding init_base
  base_set store store' indices j b h = >>=-ok_elim _ (at_index store j) _ h λ c hc h₁.
      >>=-ok_elim _ (Chunk.init_data c b.content (maps_of store) indices) _ h₁ λ c' hc' h₂.
        let (same, kept) = init_data_keeps c c' b (maps_of store) indices hc' in
        record {
          object_before = c;
          is_before = get_elem?-ok store j hc;
          object_after = c';
          is_after = sym (ok_injective h₂);
          same = same;
          has_data = kept;
        }

  maps_kept :
      {store store' : List (NuccChunk P)} {j : ℕ} {b : BrNuccChunk P}
      → BaseSet store store' j b
      → maps_of store' ≡ maps_of store
  maps_kept {store} {j = j} z =
      ap maps_of z.is_after
      ∙ maps_of-set_object store j z.object_before z.object_after z.is_before z.same

  data_there :
      {store store' : List (NuccChunk P)} {j : ℕ} {b : BrNuccChunk P}
      → BaseSet store store' j b
      → ShowsAt HasData store' j b
  data_there {store} {j = j} z = (
    z.object_after,
    ap (λ xs. get_elem? xs j) z.is_after
        ∙ get_elem?-set_object store j z.object_before z.object_after z.is_before,
    z.has_data,
  )

  others_kept :
      (Shows : BrNuccChunk P → NuccChunk P → Type 0) {store store' : List (NuccChunk P)} {j : ℕ}
      {b : BrNuccChunk P}
      → BaseSet store store' j b
      → (i : ℕ) (x : BrNuccChunk P) → j ≢ i
      → ShowsAt Shows store i x
      → ShowsAt Shows store' i x
  others_kept Shows {store} {j = j} z i x apart (c, at, shown) = (
    c,
    ap (λ xs. get_elem? xs i) z.is_after
        ∙ get_elem?-set_object_apart store j i z.object_after apart
        ∙ at,
    shown,
  )

base_Keeps : Keeps HasData (init_base {P = Bytes})
base_Keeps = record {
  same = λ store store' indices j b h. maps_kept (base_set store store' indices j b h);
  shows = λ store store' indices j b h. data_there (base_set store store' indices j b h);
  others = λ store store' indices j b h. others_kept HasData (base_set store store' indices j b h);
}

binary_page-AreUpper : AreUpper big_endian plain binary_page
unfolding get_or_next lookup ChunkMap-discrete
binary_page-AreUpper w h =
    subst (λ (v : PageWritten). All (IsUpper big_endian plain) (keys (with_index v)))
      (ok_injective (sym write_page_run ∙ h)) (refl, (refl, (refl, (refl, tt))))

read_xfbin-write_xfbin_example :
    FileMade big_endian plain init_base HasData base_Keeps (binary_page ∷ []) file_bytes
    ⊎ FileStopped big_endian plain init_base HasData base_Keeps (binary_page ∷ []) file_bytes
read_xfbin-write_xfbin_example =
    read_xfbin-write_xfbin big_endian plain init_base HasData base_Keeps binary_page [] file_bytes
      (binary_page-CanRead, tt) (binary_page-AreUpper, tt) binary_page-StartsNull write_xfbin_run

abbrev no_index : Bytes → Option ℤ
no_index bs = none
