-- ===== src/Chunk/Equality.antt =====
-- Equality and hashing of chunks.
use xfbin_lib.Base.{◌≡◌, true, ◌↔◌, arith}
use xfbin_lib.Chunk.{ChunkMap, base_class, is_instance, eq_method, chunk_eq, text_eq_iff}

chunk_eq→eq : (a b : ChunkMap) → chunk_eq a b ≡ true → a ≡ b
unfolding chunk_eq eq_method is_instance
chunk_eq→eq a b h = ground (
  arith,
  text_eq_iff a.type_name b.type_name,
  text_eq_iff b.type_name a.type_name,
  text_eq_iff a.type_name base_class,
  text_eq_iff b.type_name base_class,
  text_eq_iff a.file_path b.file_path,
  text_eq_iff b.file_path a.file_path,
  text_eq_iff a.name b.name,
  text_eq_iff b.name a.name,
)

chunk_eq_refl : (a : ChunkMap) → chunk_eq a a ≡ true
unfolding chunk_eq eq_method is_instance
chunk_eq_refl a = ground (
  arith,
  text_eq_iff a.type_name a.type_name,
  text_eq_iff a.file_path a.file_path,
  text_eq_iff a.name a.name,
)

-- Two chunks are equal, by Python's dispatch of `==`, exactly when type, path and name agree.
pub chunk_eq_iff : (a b : ChunkMap) → (chunk_eq a b ≡ true) ↔ (a ≡ b)
chunk_eq_iff a b = (chunk_eq→eq a b, λ h. rw h (chunk_eq_refl b))
