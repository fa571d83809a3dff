-- ===== src/File/Resolve.antt =====
-- Reading a chunk of a page finds the class, path and name that it was written with.
use xfbin_lib.Base.{
  ℕ, ◌+◌, ◌≡◌, refl, sym, ap, false, List, ◌++◌, ok, >>=-ok_elim, ok_injective,
  at_index_of_get_elem?, some, get_elem?, get_elem?-Forall₂, get_elem?-append_left,
  get_elem?-append_right, length,
}
use xfbin_lib.Binary.{BinaryReader}
use xfbin_lib.Chunk.{ChunkMap, get_nucc_str_from_type}
use xfbin_lib.Chunk.TypeNames.{starts_lower, type_from_str_from_type}
use xfbin_lib.Table.Types.{BrChunkTable, ChunkReference, Props, props_of}
use xfbin_lib.Table.RoundTrip.{Describes}
use xfbin_lib.Page.Types.{BrNuccChunk, ChunkClasses}
use xfbin_lib.Page.Read.{chunk_map_at, get_br_nucc_chunk}
use xfbin_lib.Page.Frames.{Frame}
use xfbin_lib.Page.Loop.{Loads}
use mathlib.Core.Path.{subst}

pub props_of-eq :
    (c : ChunkMap) (p : Props)
    → props_of c ≡ ok p
    → (get_nucc_str_from_type c.type_name ≡ ok p.type_str)
      × (p.file_path ≡ c.file_path)
      × (p.name ≡ c.name)
unfolding props_of
props_of-eq c p h = >>=-ok_elim _ (get_nucc_str_from_type c.type_name) _ h λ t e h₁. (
  subst (λ (q : Props). get_nucc_str_from_type c.type_name ≡ ok q.type_str) (ok_injective h₁) e,
  ap (λ (q : Props). q.file_path) (sym (ok_injective h₁)),
  ap (λ (q : Props). q.name) (sym (ok_injective h₁)),
)

module _ (maps : List ChunkMap) (refs : List ChunkReference) (cs : List ChunkMap) (t : BrChunkTable)
    (d : Describes maps refs cs t) where
  -- Where a table describes the chunks, and the k-th index was written for a chunk whose class name does not
  -- begin in lower case, following the k-th index through the chunk maps and strings gives that chunk's
  -- class, path and name.
  pub chunk_map_at-Describes :
      (k : ℕ) (m : ChunkMap)
      → get_elem? cs k ≡ some m
      → starts_lower m.type_name ≡ false
      → chunk_map_at t k ≡ ok m
  unfolding chunk_map_at
  chunk_map_at-Describes k m h low =
      let (i, hi, gi) = get_elem?-Forall₂ k m d.indices h in
      let (b, hb, (p, hp, hg)) = get_elem?-Forall₂ i m d.chunk_maps gi in
      let (ht, hf, hn) = props_of-eq m p hp in
      rw (
        at_index_of_get_elem? t.chunk_map_indices k hi,
        at_index_of_get_elem? t.chunk_maps i hb,
        hg,
        type_from_str_from_type m.type_name p.type_str low ht,
        hf,
        hn,
      )

  module _ {Float : Type 0} (io : BinaryReader Float) {P : Type 0} (classes : ChunkClasses P) where
    abbrev pub entry_of : Frame → P → ℕ × BrNuccChunk P
    entry_of f q = (f.index, record { chunk_map = f.chunk_map; content = f.payload; props = q })

    pub frame-Loads :
        (before mid after : List ChunkMap) (f : Frame) (q : P)
        → cs ≡ before ++ (mid ++ after)
        → get_elem? mid f.index ≡ some f.chunk_map
        → starts_lower f.chunk_map.type_name ≡ false
        → classes.read_props f.chunk_map.type_name f.payload ≡ ok q
        → Loads io classes t (length before) f (entry_of f q)
    unfolding get_br_nucc_chunk
    frame-Loads before mid after f q e h low hq =
        let place : get_elem? cs (length before + f.index) ≡ some f.chunk_map =
          rw (e, get_elem?-append_right before (mid ++ after) f.index)
            (get_elem?-append_left mid after f.index h) in
        record {
          key = refl;
          loaded = rw (chunk_map_at-Describes (length before + f.index) f.chunk_map place low, hq);
          is_chunk = refl;
          has_payload = refl;
        }
