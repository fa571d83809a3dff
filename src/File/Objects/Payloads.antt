-- ===== src/File/Objects/Payloads.antt =====
-- `init_data` of the five payload classes (xfbin/structure/nucc.py), as `read_xfbin` calls it.
use xfbin_lib.Base.{
  ℕ, ◌≡◌, ◌≢◌, true, false, List, [], ◌∷◌, some, none, Option, Result, ok, raise, wrong_type,
  at_index, get_elem?, ◌>>=◌,
}
use xfbin_lib.Base.Int.{ℤ}
use xfbin_lib.Binary.{Bytes}
use xfbin_lib.Chunk.{NuccChunk, codes}
use xfbin_lib.Page.Types.{BrNuccChunk}
use xfbin_lib.File.Objects.{InitData, maps_of, set_object}
use xfbin_lib.File.Objects.Reads.{ShowsAt}
use xfbin_lib.Payload.Types.{View, Seen}
use xfbin_lib.Payload.Classes.{Payload, BrPayload, texture, coord, init_payload}
use xfbin_lib.Payload.Attributes.{Attributes, object, struct, other}

module _ {F P : Type 0} where
  -- What `init_data` sets on an object of one of the five classes.
  unfoldable pub set_payload :
      NuccChunk (Attributes F P) → Bytes → Payload F → NuccChunk (Attributes F P)
  set_payload c bytes (texture t) = record c {
    extension = codes ".nut";
    content = some bytes;
    file_data = some t.file_data;
    has_data = true;
    has_props = true;
    props = some (object (texture t));
  }
  set_payload c bytes p = record c {
    content = some bytes;
    has_data = true;
    has_props = true;
    props = some (object p);
  }

  -- The attributes of an object that `init_data` of a clump looks up; `coord_index` tells that of the classes other
  -- than the five.
  abbrev pub view_of : (P → Option ℤ) → Option (Attributes F P) → View
  view_of coord_index (some (object (coord node))) = record { has_node = true; coord_index = none }
  view_of coord_index (some (object p)) = record { has_node = false; coord_index = none }
  view_of coord_index (some (struct s)) = record { has_node = false; coord_index = none }
  view_of coord_index (some (other q)) = record { has_node = false; coord_index = coord_index q }
  view_of coord_index none = record { has_node = false; coord_index = none }

  abbrev pub see : (P → Option ℤ) → List (NuccChunk (Attributes F P)) → List Seen
  see coord_index [] = []
  see coord_index (c ∷ store) = (c.chunk_map, view_of coord_index c.props) ∷ see coord_index store

  module _ (coord_index : P → Option ℤ) (init_others : InitData (Attributes F P)) where
    unfoldable pub init_by_class :
        List (NuccChunk (Attributes F P))
        → List ℕ
        → ℕ
        → BrNuccChunk (Attributes F P)
        → Attributes F P
        → Result (List (NuccChunk (Attributes F P)))
    unfolding set_payload init_payload set_object
    init_by_class store indices j b (struct s) = do
      c ← at_index store j
      q ← init_payload (see coord_index store) indices s
      ok (set_object store j (set_payload c b.content q))
    init_by_class store indices j b (other q) = init_others store indices j b
    init_by_class store indices j b (object p) = raise wrong_type

    -- `chunk.init_data`, by the class that the reader has found. The parent and the children of a node are kept with
    -- the clump, and the `coord_chunk` of a model is left out, so that only the object itself changes.
    unfoldable pub init_attributes : InitData (Attributes F P)
    unfolding init_by_class
    init_attributes store indices j b = init_by_class store indices j b b.props

  -- The attributes are what `init_data` has made of a struct; another class tells by `ShowsOther` what it keeps.
  abbrev pub HoldsProps :
      (BrNuccChunk (Attributes F P) → NuccChunk (Attributes F P) → Type 0)
      → BrNuccChunk (Attributes F P)
      → NuccChunk (Attributes F P)
      → Attributes F P
      → Type 0
  HoldsProps ShowsOther b c (struct s) =
      (chunk_list : List Seen) × (indices : List ℕ) × (q : Payload F) × (init_payload chunk_list
          indices s
        ≡ ok q)
      × (c.props ≡ some (object q))
      × (c.has_props ≡ true)
      × (c.has_data ≡ true)
      × (c.content ≡ some b.content)
  HoldsProps ShowsOther b c (other q) = ShowsOther b c
  HoldsProps ShowsOther b c (object p) = ⊥

  module _ (ShowsOther : BrNuccChunk (Attributes F P) → NuccChunk (Attributes F P) → Type 0)
      (coord_index : P → Option ℤ) (init_others : InitData (Attributes F P)) where
    abbrev pub ShowsEntry : BrNuccChunk (Attributes F P) → NuccChunk (Attributes F P) → Type 0
    ShowsEntry b c = HoldsProps ShowsOther b c b.props

    -- What is asked of `init_data` of the other classes, where it returns.
    pub record OthersKeep : Type 0 where
      pub same :
          (store store' : List (NuccChunk (Attributes F P))) (indices : List ℕ) (j : ℕ)
          (b : BrNuccChunk (Attributes F P)) (q : P)
          → b.props ≡ other q
          → init_others store indices j b ≡ ok store'
          → maps_of store' ≡ maps_of store
      pub shows :
          (store store' : List (NuccChunk (Attributes F P))) (indices : List ℕ) (j : ℕ)
          (b : BrNuccChunk (Attributes F P)) (q : P)
          → b.props ≡ other q
          → init_others store indices j b ≡ ok store'
          → (c : NuccChunk (Attributes F P)) × (get_elem? store' j ≡ some c) × ShowsOther b c
      pub others :
          (store store' : List (NuccChunk (Attributes F P))) (indices : List ℕ) (j : ℕ)
          (b : BrNuccChunk (Attributes F P)) (q : P)
          → b.props ≡ other q
          → init_others store indices j b ≡ ok store'
          → (i : ℕ) (x : BrNuccChunk (Attributes F P)) → j ≢ i
          → ShowsAt ShowsEntry store i x
          → ShowsAt ShowsEntry store' i x

    -- What a call for a struct leaves.
    pub record StructSet (store store' : List (NuccChunk (Attributes F P))) (j : ℕ)
        (b : BrNuccChunk (Attributes F P)) : Type 0 where
      pub object_before : NuccChunk (Attributes F P)
      pub is_before : get_elem? store j ≡ some object_before
      pub object_after : NuccChunk (Attributes F P)
      pub is_after : store' ≡ set_object store j object_after
      pub same : object_after.chunk_map ≡ object_before.chunk_map
      pub holds : ShowsEntry b object_after

    -- The entry is a struct of one of the five classes, or is read by another class.
    data EntryKind (b : BrNuccChunk (Attributes F P)) : Type 0 where
      is_struct : (s : BrPayload F) → b.props ≡ struct s → EntryKind b
      is_other : (q : P) → b.props ≡ other q → EntryKind b
