-- ===== src/Framing/Primitives.antt =====
-- The code that framing.py calls and does not contain: HMAC-SHA256 and zstd.
use vynkor_sdk_python.Prelude.{ℕ, ◌≤◌, ◌≡◌, length}
use vynkor_sdk_python.Errors.{Str, Bytes, Foreign}

abbrev pub max_payload : ℕ
max_payload = 1048576

-- What zstd's decompression comes to: bytes, a `ZstdError` with its text, or another exception, such
-- as the `MemoryError` for a frame that declares a huge content size.
pub data Unpacked : Type 0 where
  unpacked : Bytes → Unpacked
  zstd_error : Str → Unpacked
  escaped : Foreign → Unpacked

pub record Primitives : Type 0 where
  -- `hmac.new(key, digestmod=hashlib.sha256)` fed with the message, and `.digest()`
  pub hmac_sha256 : Bytes → Bytes → Bytes
  -- `zstandard.ZstdCompressor(level=3).compress`
  pub zstd_compress : Bytes → Bytes
  -- `ZstdDecompressor().decompress(payload, max_output_size=n)`
  pub zstd_decompress : Bytes → ℕ → Unpacked

-- What their documentation promises.
pub record IsSound (prim : Primitives) : Type 0 where
  pub digest_size : (key msg : Bytes) → length (prim.hmac_sha256 key msg) ≡ 32
  pub decompress-compress :
      (b : Bytes)
      → length b ≤ max_payload
      → prim.zstd_decompress (prim.zstd_compress b) max_payload ≡ unpacked b
