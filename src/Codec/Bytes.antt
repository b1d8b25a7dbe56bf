-- ===== src/Codec/Bytes.antt =====
-- Numbers in little-endian bytes: `to_le_bytes` and `from_le_bytes` of the standard library.
use around.Base.{ℕ, zero, suc, ◌+◌, ◌*◌, ◌/◌, ◌%◌, List, [], ◌∷◌, get_or}

-- The low `n` bytes of a number.
unfoldable pub le_bytes : ℕ → ℕ → List ℕ
le_bytes zero v = []
le_bytes (suc n) v = (v % 256) ∷ le_bytes n (v / 256)

-- The bytes of `buf` from `i` as a `u16` and as a `u32`; `buf` holds them all.
unfoldable pub u16_at : ℕ → List ℕ → ℕ
u16_at i buf = get_or buf i 0 + 256 * get_or buf (i + 1) 0

unfoldable pub u32_at : ℕ → List ℕ → ℕ
unfolding u16_at
u32_at i buf = u16_at i buf + 65536 * u16_at (i + 2) buf
