-- ===== src/Py/Crc.antt =====
-- `binascii.crc32`: the reflected polynomial 0xedb88320, bit by bit.
use vynkor_sdk_python.Prelude.{
  ℕ, zero, suc, ◌/◌, ◌%◌, ◌<◌, ◌≡◌, refl, [], ◌∷◌, arith, ◌==◌, if◌then◌else◌, bit_and, bit_xor,
}
use vynkor_sdk_python.Prelude.Bits.{bit_and-le}
use vynkor_sdk_python.Errors.{Bytes}

crc_shift : ℕ → ℕ
crc_shift r = if r % 2 == 1 then bit_xor (r / 2) 0xedb88320 else r / 2

crc_shifts : ℕ → ℕ → ℕ
unfolding crc_shift
crc_shifts zero r = r
crc_shifts (suc n) r = crc_shifts n (crc_shift r)

crc_bytes : ℕ → Bytes → ℕ
unfolding crc_shifts
crc_bytes r [] = r
crc_bytes r (b ∷ bs) = crc_bytes (crc_shifts 8 (bit_xor r b)) bs

unfoldable pub crc32 : Bytes → ℕ
unfolding crc_bytes
crc32 b = bit_xor (crc_bytes 0xffffffff b) 0xffffffff

-- `crc32(b) & 0xFFFFFFFF`
unfoldable pub checksum : Bytes → ℕ
unfolding crc32
checksum b = bit_and (crc32 b) 0xffffffff

pub checksum_range : (b : Bytes) → checksum b < 0x100000000
unfolding checksum
checksum_range b = omega (arith, bit_and-le (crc32 b) 0xffffffff)

-- The check value of the algorithm's definition, for the ASCII text "123456789".
checksum_check : checksum (49 ∷ 50 ∷ 51 ∷ 52 ∷ 53 ∷ 54 ∷ 55 ∷ 56 ∷ 57 ∷ []) ≡ 0xcbf43926
unfolding checksum
checksum_check = refl
