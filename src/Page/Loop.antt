-- ===== src/Page/Loop.antt =====
-- BrPage reads the frames of a page back, up to the page chunk.
use xfbin_lib.Base
use xfbin_lib.Base.{
  ℕ, zero, suc, ◌+◌, ◌<◌, ◌≡◌, refl, sym, ap, ◌∙◌, Bool, true, false, List, [], ◌∷◌, ◌++◌, Result,
  ok, raise, length, take, drop, All, Forall₂, nil, cons, arith, append-nil,
}
use xfbin_lib.Binary.{Bytes, Cursor, BinaryReader, open_buffer, Decodes}
use xfbin_lib.Binary.Rules.{Decodes-bind, Decodes-lift, Decodes-pure, Decodes_of_ok}
use xfbin_lib.Chunk.{page_class, text_eq}
use xfbin_lib.Table.Types.{BrChunkTable}
use xfbin_lib.Page.Types.{BrNuccChunk, BrPage, ChunkClasses}
use xfbin_lib.Page.Write.{write_page_sizes}
use xfbin_lib.Page.Read.{put, read_br_chunk, read_page_sizes, get_br_nucc_chunk, read_page_loop}
use xfbin_lib.Page.Frames.{Frame, raw, Stream, done, next}
use mathlib.Core.Path.{subst}

-- Assigning entries to a `dict`, one after another.
unfoldable pub put_all {ℓ} : {V : Type ℓ} → List (ℕ × V) → List (ℕ × V) → List (ℕ × V)
unfolding put
put_all d [] = d
put_all d ((k, v) ∷ es) = put_all (put k v d) es

pub put_all-append {ℓ} :
    {V : Type ℓ} (d es : List (ℕ × V)) (k : ℕ) (v : V)
    → put_all d (es ++ ((k, v) ∷ [])) ≡ put k v (put_all d es)
unfolding put_all
put_all-append d [] k v = refl
put_all-append d ((j, w) ∷ es) k v = put_all-append (put j w d) es k v

module _ {Float : Type 0} (io : BinaryReader Float) where
  -- The first frame of a stream, and the rest.
  pub record Head (f : Frame) (fs : List Frame) (bs : Bytes) : Type 0 where
    pub first : Bytes
    pub rest : Bytes
    pub split : bs ≡ first ++ rest
    pub reads : Decodes (ok first) (read_br_chunk io) (raw f)
    pub stream : Stream io fs rest

  pub Stream-Head :
      {f : Frame} {fs : List Frame} {bs : Bytes} → Stream io (f ∷ fs) bs → Head f fs bs
  Stream-Head (next {bs = xs} {rest = ys} d h s) = record {
    first = xs;
    rest = ys;
    split = refl;
    reads = d;
    stream = s;
  }

  Stream-end : {bs : Bytes} → Stream io [] bs → bs ≡ []
  Stream-end done = refl

  pub page_sizes_read :
      (n r : ℕ) (bs : Bytes)
      → write_page_sizes io n r ≡ ok bs
      → Base.◌>>=◌ (read_page_sizes io (open_buffer bs)) (λ x. ok x.0) ≡ ok (n, r)
  unfolding write_page_sizes read_page_sizes
  page_sizes_read n r bs h =
      let d =
        Decodes-bind _ n (io.uint32_reads n)
          (Decodes-bind _ r (io.uint32_reads r) (Decodes-pure (n, r))) in
      let end : Cursor = record { pos = 0 + length bs; rest = [] } in
      ap (λ x. Base.◌>>=◌ x (λ y. ok y.0))
        (subst (λ xs. read_page_sizes io (open_buffer xs) ≡ ok ((n, r), end)) (append-nil bs)
          (((Decodes_of_ok d h).at_pos 0).run bs [] refl))

  module _ {P : Type 0} (classes : ChunkClasses P) (t : BrChunkTable) (page_start : ℕ) where
    -- The entry that the page's dictionary gets for a frame.
    pub record Loads (f : Frame) (e : ℕ × BrNuccChunk P) : Type 0 where
      pub key : e.0 ≡ f.index
      pub loaded : get_br_nucc_chunk io classes t (raw f) page_start ≡ ok e.1
      pub is_chunk : e.1.chunk_map ≡ f.chunk_map
      pub has_payload : e.1.content ≡ f.payload

    abbrev pub page_of : ℕ → List (ℕ × BrNuccChunk P) → ℕ → ℕ → BrPage P
    page_of reference_start d n r = record {
      chunks_dict = d;
      page_size = n;
      reference_size = r;
      page_chunk_indices = take n (drop page_start t.chunk_map_indices);
      page_chunk_references = take r (drop reference_start t.chunk_map_references);
    }

    module _ (reference_start : ℕ) where
      -- A frame that is no page chunk adds its entry, and the loop goes on.
      loop_step :
          (f : Frame) (e : ℕ × BrNuccChunk P) (xs ys : Bytes) (fuel : ℕ)
          (d : List (ℕ × BrNuccChunk P)) (page : BrPage P)
          → Decodes (ok xs) (read_br_chunk io) (raw f)
          → Loads f e
          → text_eq f.chunk_map.type_name page_class ≡ false
          → Decodes
              (ok ys)
              (read_page_loop io classes t page_start reference_start fuel (put e.0 e.1 d))
              page
          → Decodes
              (ok (xs ++ ys))
              (read_page_loop io classes t page_start reference_start (suc fuel) d)
              page
      unfolding read_page_loop
      loop_step f e xs ys fuel d page r l no_page go =
          let no_page' : text_eq e.1.chunk_map.type_name page_class ≡ false =
            rw l.is_chunk no_page in
          Decodes-bind {w = ok xs} {v = ok ys} _ (raw f) r
            (Decodes-lift _ e.1 l.loaded (rw no_page' (rw (← l.key) go)))

      loop_end :
          (f : Frame) (e : ℕ × BrNuccChunk P) (xs : Bytes) (fuel : ℕ) (d : List (ℕ × BrNuccChunk P))
          (n r : ℕ)
          → Decodes (ok xs) (read_br_chunk io) (raw f)
          → Loads f e
          → text_eq f.chunk_map.type_name page_class ≡ true
          → write_page_sizes io n r ≡ ok f.payload
          → Decodes
              (ok (xs ++ []))
              (read_page_loop io classes t page_start reference_start (suc fuel) d)
              (page_of reference_start (put e.0 e.1 d) n r)
      unfolding read_page_loop
      loop_end f e xs fuel d n r dr l is_page sizes =
          let is_page' : text_eq e.1.chunk_map.type_name page_class ≡ true =
            rw l.is_chunk is_page in
          Decodes-bind {w = ok xs} {v = ok []} _ (raw f) dr (
            Decodes-lift _ e.1 l.loaded (
              rw is_page' (
                Decodes-lift _ (n, r) (page_sizes_read n r f.payload sizes)
                  (rw (← l.key) (Decodes-pure _)))))

      pub page_loop_reads :
          (fs : List Frame) (es : List (ℕ × BrNuccChunk P)) (pf : Frame) (pe : ℕ × BrNuccChunk P)
          (bs : Bytes) (fuel : ℕ) (d : List (ℕ × BrNuccChunk P)) (n r : ℕ)
          → Stream io (fs ++ (pf ∷ [])) bs
          → Forall₂ Loads fs es
          → All (λ f. text_eq f.chunk_map.type_name page_class ≡ false) fs
          → Loads pf pe
          → text_eq pf.chunk_map.type_name page_class ≡ true
          → write_page_sizes io n r ≡ ok pf.payload
          → length fs < fuel
          → Decodes
              (ok bs)
              (read_page_loop io classes t page_start reference_start fuel d)
              (page_of reference_start (put pe.0 pe.1 (put_all d es)) n r)
      unfolding put_all
      page_loop_reads fs es pf pe bs zero d n r s l np lp ip sz h = absurd (omega arith)
      page_loop_reads _ _ pf pe bs (suc fuel) d n r s nil np lp ip sz h =
          let x = Stream-Head s in
          Decodes_of_ok {w = ok (x.first ++ [])}
            (loop_end pf pe x.first fuel d n r x.reads lp ip sz)
            (ap ok (sym (x.split ∙ ap (λ ys. x.first ++ ys) (Stream-end x.stream))))
      page_loop_reads _ _ pf pe bs (suc fuel) d n r s
            (cons {a = f} {b = e} {l₁ = fs} {l₂ = es} l ls) (np, nps) lp ip sz h =
          let x = Stream-Head s in
          Decodes_of_ok {w = ok (x.first ++ x.rest)}
            (loop_step f e x.first x.rest fuel d _ x.reads l np (
              page_loop_reads fs es pf pe x.rest fuel (put e.0 e.1 d) n r x.stream ls nps lp ip sz
                (omega arith)))
            (ap ok (sym x.split))
