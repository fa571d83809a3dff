-- ===== src/Payload/Clump/Groups.antt =====
-- The model groups of a clump, up to the count -1, read back as they were written.
use xfbin_lib.Base.{
  ℕ, zero, suc, ◌+◌, ◌<◌, ◌≤◌, ◌≡◌, refl, sym, Bool, false, List, [], ◌∷◌, ◌++◌, map, length,
  length-append, All, none, some, Result, ok, arith,
}
use xfbin_lib.Base.Int.{pos, negsuc, ℤ}
use xfbin_lib.Binary.{Bytes, Reader, ◌>>=◌, pure, ◌<+>◌, BinaryReader, Decodes}
use xfbin_lib.Binary.Rules.{<+>-eq-ok, nil-<+>, <+>_assoc, Decodes-bind, Decodes-map}
use xfbin_lib.Binary.Sequence.{write_each, Decodes-count}
use xfbin_lib.Payload.Types.{ModelGroup, BrModelGroup}
use xfbin_lib.Payload.Clump.{
  write_model_group, at_end, is_last, read_models, read_group_fields, read_model_group,
  read_groups_loop, read_groups,
}
use xfbin_lib.Payload.Clump.Indices.{br_group}
use mathlib.Core.Path.{subst}

-- A count that the reader takes for a signed number.
abbrev pub IsSmall : {C : Type 0} → ModelGroup C → Type 0
IsSmall g = length g.models < 0x8000

-- A write that appends `n` bytes at least, where it does not raise.
abbrev AtLeast : ℕ → Result Bytes → Type 0
AtLeast n w = (bs : Bytes) → w ≡ ok bs → n ≤ length bs

AtLeast-<+> : (a b : ℕ) (w v : Result Bytes) → AtLeast a w → AtLeast b v → AtLeast (a + b) (w <+> v)
AtLeast-<+> a b w v hw hv bs h =
    let (xs, ys, ex, ey, e) = <+>-eq-ok w v bs h in
    rw (e, length-append) (omega (arith, hw xs ex, hv ys ey))

module _ {Float : Type 0} (io : BinaryReader Float) where
  open io use {
    write_uint8, write_uint16, write_int16, write_int32, read_uint8, read_int16, read_int32,
    uint8_reads, uint16_reads_signed, int16_reads, int32_reads, uint8_size, uint16_size, int16_size,
    eof, not_eof,
  }

  not_at_end :
      (p : ℕ) (bs rest : Bytes)
      → 1 ≤ length bs
      → eof (record { pos = p; rest = bs ++ rest }) ≡ false
  not_at_end p [] rest h = absurd (omega (arith, h))
  not_at_end p (b ∷ bs) rest h = not_eof p b (bs ++ rest)

  Decodes-at_end {ℓ} :
      {B : Type ℓ} {w : Result Bytes} (k : Bool → Reader B) {b : B}
      → AtLeast 1 w
      → Decodes w (k false) b
      → Decodes w (at_end io >>= k) b
  unfolding at_end ◌>>=◌
  Decodes-at_end k size next = record {
    at_pos = λ p. record {
      run = λ bs rest h. rw (not_at_end p bs rest (size bs h)) ((next.at_pos p).run bs rest h);
    };
  }

  fields_size :
      (g : ModelGroup ℤ)
      → AtLeast 1 (
          write_uint8 g.flag0
          <+> write_uint8 g.flag1
          <+> write_int32 g.unk
          <+> write_each write_int32 g.models)
  fields_size g bs h =
      let (xs, ys, ex, ey, e) = <+>-eq-ok (write_uint8 g.flag0) _ bs h in
      rw (e, length-append) (omega (arith, uint8_size g.flag0 xs ex))

  group_size : (g : ModelGroup ℤ) → AtLeast 1 (write_model_group io g)
  unfolding write_model_group
  group_size g bs h =
      let (xs, ys, ex, ey, e) = <+>-eq-ok (write_uint16 (length g.models)) _ bs h in
      rw (e, length-append) (omega (arith, uint16_size (length g.models) xs ex))

  read_group_fields-decodes :
      (g : ModelGroup ℤ)
      → Decodes
          (write_uint8 g.flag0
            <+> write_uint8 g.flag1
            <+> write_int32 g.unk
            <+> write_each write_int32 g.models)
          (read_group_fields io (pos (length g.models)))
          g
  unfolding read_group_fields read_models
  read_group_fields-decodes g = Decodes-bind _ g.flag0 (uint8_reads _) (
      Decodes-bind _ g.flag1 (uint8_reads _) (
        Decodes-bind _ g.unk (int32_reads _) (
          Decodes-map _ g.models
            (Decodes-count write_int32 read_int32 _ g.models int32_reads refl))))

  read_model_group-write_model_group :
      (g : ModelGroup ℤ)
      → IsSmall g
      → Decodes (write_model_group io g) (read_model_group io) (br_group g)
  unfolding write_model_group read_model_group is_last
  read_model_group-write_model_group g s =
      Decodes-bind _ (pos (length g.models)) (uint16_reads_signed _ s) (
        Decodes-at_end _ (fields_size g)
          (Decodes-map _ (some g) (Decodes-map some g (read_group_fields-decodes g))))

  terminator : BrModelGroup
  terminator = record { model_count = negsuc 0; fields = none }

  terminator_reads : Decodes (write_int16 (negsuc 0)) (read_model_group io) terminator
  unfolding read_model_group is_last ◌>>=◌ pure terminator
  terminator_reads = record {
    at_pos = λ p. record {
      run = λ bs rest h. rw (((int16_reads (negsuc 0)).at_pos p).run bs rest h) refl;
    };
  }

  terminator_ends :
      (fuel : ℕ) → Decodes (write_int16 (negsuc 0)) (read_groups_loop io (suc fuel)) []
  unfolding read_groups_loop is_last ◌>>=◌ pure terminator
  terminator_ends fuel = record {
    at_pos = λ p. record { run = λ bs rest h. rw ((terminator_reads.at_pos p).run bs rest h) refl };
  }

  abbrev pub write_groups : List (ModelGroup ℤ) → Result Bytes
  write_groups gs = write_each (write_model_group io) gs <+> write_int16 (negsuc 0)

  groups_size :
      (gs : List (ModelGroup ℤ)) → AtLeast (length gs) (write_each (write_model_group io) gs)
  groups_size [] bs h = omega arith
  groups_size (g ∷ gs) bs h = omega (
    arith,
    AtLeast-<+> 1 (length gs) (write_model_group io g) (write_each (write_model_group io) gs)
        (group_size g) (groups_size gs) bs h,
  )

  terminator_size : AtLeast 2 (write_int16 (negsuc 0))
  terminator_size bs h = omega (arith, int16_size (negsuc 0) bs h)

  write_groups-size : (gs : List (ModelGroup ℤ)) → AtLeast (length gs + 2) (write_groups gs)
  write_groups-size gs =
      AtLeast-<+> (length gs) 2 (write_each (write_model_group io) gs) (write_int16 (negsuc 0))
        (groups_size gs) terminator_size

  read_groups_loop-decodes :
      (gs : List (ModelGroup ℤ)) (fuel : ℕ)
      → All IsSmall gs
      → length gs ≤ fuel
      → Decodes (write_groups gs) (read_groups_loop io (suc fuel)) (map br_group gs)
  unfolding read_groups_loop is_last
  read_groups_loop-decodes [] fuel s h =
      subst (λ w. Decodes w (read_groups_loop io (suc fuel)) []) (sym (nil-<+> _))
        (terminator_ends fuel)
  read_groups_loop-decodes (g ∷ gs) zero s h = absurd (omega (arith, h))
  read_groups_loop-decodes (g ∷ gs) (suc fuel) (s, ss) h =
      subst (λ w. Decodes w (read_groups_loop io (suc (suc fuel))) (map br_group (g ∷ gs)))
        (sym (
          <+>_assoc (write_model_group io g) (write_each (write_model_group io) gs)
            (write_int16 (negsuc 0))))
        (Decodes-bind _ (br_group g) (read_model_group-write_model_group g s) (
          Decodes-at_end _ (λ bs e. omega (arith, write_groups-size gs bs e))
            (Decodes-map (◌∷◌ (br_group g)) _
              (read_groups_loop-decodes gs fuel ss (omega (arith, h))))))

  -- Model groups that have less than 0x8000 models each, written one after another with the terminator -1
  -- behind them, are read back by the loop up to the terminator, whatever follows: the fuel that it takes from
  -- the number of bytes is enough.
  pub read_groups-write_groups :
      (gs : List (ModelGroup ℤ))
      → All IsSmall gs
      → Decodes (write_groups gs) (read_groups io) (map br_group gs)
  unfolding read_groups
  read_groups-write_groups gs s = record {
    at_pos = λ p. record {
      run = λ bs rest h.
          ((read_groups_loop-decodes gs (length (bs ++ rest)) s
                (rw length-append (omega (arith, write_groups-size gs bs h)))).at_pos
              p).run
            bs rest h;
    };
  }
