-- ===== src/Payload/Texture.antt =====
-- BrNuccChunkTexture (xfbin/structure/br/br_nucc.py), and NuccChunkTexture (xfbin/structure/nucc.py).
use xfbin_lib.Base
use xfbin_lib.Base.{◌≢◌, invalid_magic, arith}
use xfbin_lib.Base.{
  ℕ, ◌≡◌, refl, sym, ap, ◌∙◌, List, [], ◌∷◌, ◌++◌, length, take, take-append, Option, none, some,
  Result, ok, raise, map_ok, >>=-ok_elim, append-nil, ok_injective,
}
use xfbin_lib.Binary.{Bytes, Reader, ◌>>=◌, ◌>>◌, pure, ◌<+>◌, BinaryReader, Decodes, open_buffer}
use xfbin_lib.Binary.Rules.{Decodes-bind, Decodes_of_ok}
use xfbin_lib.Payload.Nut.{Nut, NutTexture, read_nut}

pub record Texture : Type 0 where
  pub width : ℕ
  pub height : ℕ
  pub file_data : Bytes

pub record BrTexture : Type 0 where
  pub field00 : ℕ
  pub width : ℕ
  pub height : ℕ
  pub field06 : ℕ
  pub nut_size : ℕ
  pub nut_data : Bytes
  pub br_nut : Option Nut

-- NuccChunkTexture.init_data; the height is the width.
unfoldable pub init_texture : BrTexture → Texture
init_texture br = record { width = br.width; height = br.width; file_data = br.nut_data }

-- `br_nut.textures[0].width if br_nut.textures else 0`, and the same for the height.
abbrev pub first_or_zero : (NutTexture → ℕ) → List NutTexture → ℕ
first_or_zero size [] = 0
first_or_zero size (t ∷ ts) = size t

-- `br.buffer()[br.pos() : br.pos() + n]`
unfoldable pub peek : ℕ → Reader Bytes
peek n c = ok (take n c.rest, c)

module _ {Float : Type 0} (io : BinaryReader Float) where
  open io use {
    write_uint16, write_uint32, read_uint16, read_uint32, skip, uint16_reads, uint32_reads, skips,
  }

  -- `BinaryReader(data, Endian.BIG).read_struct(BrNut)`
  unfoldable pub parse_nut : Bytes → Result Nut
  unfolding read_nut
  parse_nut bytes = map_ok (λ r. r.0) (read_nut io (open_buffer bytes))

  -- The value that the `try` statement leaves.
  unfoldable pub try_nut : Bytes → Option Nut
  unfolding parse_nut
  try_nut bytes = elim (parse_nut bytes) [ ok nut ↦ some nut | raise e ↦ none ]

  -- BrNuccChunkTexture.__br_write__
  unfoldable pub write_texture : Texture → Result Bytes
  unfolding parse_nut
  write_texture t = Base.◌>>=◌ (parse_nut t.file_data) (λ nut.
      write_uint16 0
      <+> write_uint16 (first_or_zero (λ (x : NutTexture). x.width) nut.textures)
      <+> write_uint16 (first_or_zero (λ (x : NutTexture). x.height) nut.textures)
      <+> write_uint16 0
      <+> write_uint32 (length t.file_data)
      <+> ok t.file_data)

  -- BrNuccChunkTexture.init_data
  unfoldable pub read_texture : Reader BrTexture
  unfolding peek try_nut
  read_texture = do
    field00 ← read_uint16
    width ← read_uint16
    height ← read_uint16
    field06 ← read_uint16
    nut_size ← read_uint32
    nut_data ← peek nut_size
    skip nut_size
    pure (record {
      field00 = field00;
      width = width;
      height = height;
      field06 = field06;
      nut_size = nut_size;
      nut_data = nut_data;
      br_nut = try_nut nut_data;
    })

  peek-skip :
      {A : Type 0} (bytes : Bytes) (f : Bytes → A)
      → Decodes
          (ok bytes)
          (peek (length bytes) >>= λ xs. skip (length bytes) >> pure (f xs))
          (f bytes)
  unfolding peek ◌>>=◌ pure
  peek-skip bytes f = record {
    at_pos = λ p. record {
      run = λ bs rest h.
          rw (← ok_injective h, (((skips bytes).at_pos p).run bytes rest refl), take-append) refl;
    };
  }

  -- Where a texture is written without an error, its bytes are a NUT, and they read back from any position with
  -- the same NUT, and with the height of its first texture; `init_data` then gives a texture with the same
  -- bytes, whose width and height are both the width of the first texture of the NUT, or 0 if there is none.
  pub read_texture-write_texture :
      (t : Texture) (bs : Bytes)
      → write_texture t ≡ ok bs
      → (nut : Nut) × (b : BrTexture) × (parse_nut t.file_data ≡ ok nut)
        × Decodes (ok bs) read_texture b
        × (b.br_nut ≡ some nut)
        × (b.height ≡ first_or_zero (λ (x : NutTexture). x.height) nut.textures)
        × (init_texture b ≡ record {
          width = first_or_zero (λ (x : NutTexture). x.width) nut.textures;
          height = first_or_zero (λ (x : NutTexture). x.width) nut.textures;
          file_data = t.file_data;
        })
  unfolding write_texture read_texture init_texture try_nut
  read_texture-write_texture t bs h = >>=-ok_elim _ (parse_nut t.file_data) _ h λ nut hn h₁.
      let width = first_or_zero (λ (x : NutTexture). x.width) nut.textures in
      let height = first_or_zero (λ (x : NutTexture). x.height) nut.textures in
      (
        nut,
        record {
          field00 = 0;
          width = width;
          height = height;
          field06 = 0;
          nut_size = length t.file_data;
          nut_data = t.file_data;
          br_nut = try_nut t.file_data;
        },
        hn,
        Decodes_of_ok
            (Decodes-bind _ 0 (uint16_reads _) (
              Decodes-bind _ width (uint16_reads _) (
                Decodes-bind _ height (uint16_reads _) (
                  Decodes-bind _ 0 (uint16_reads _) (
                    Decodes-bind _ (length t.file_data) (uint32_reads _)
                      (peek-skip t.file_data _))))))
            h₁,
        rw (hn, try_nut) refl,
        refl,
        refl,
      )
