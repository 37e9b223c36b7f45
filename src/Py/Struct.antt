-- ===== src/Py/Struct.antt =====
-- `struct.pack` and `struct.unpack` in network byte order, for the codes H, I and 32s.
use vynkor_sdk_python.Prelude.{
  ℕ, ◌+◌, ◌*◌, ◌/◌, ◌%◌, ◌^◌, ◌<◌, ◌≡◌, [], ◌∷◌, arith, ltb, if◌then◌else◌,
}
use vynkor_sdk_python.Errors.{Bytes, Result, ok, err, foreign, struct_error}

-- `H`: a number out of range raises `struct.error`.
unfoldable pub pack_u16 : ℕ → Result Bytes
pack_u16 n = if ltb n 65536 then ok (n / 256 ∷ n % 256 ∷ []) else err (foreign struct_error)

-- `I`
unfoldable pub pack_u32 : ℕ → Result Bytes
pack_u32 n =
    if ltb n (2 ^ 32)
    then ok (n / 2 ^ 24 ∷ n / 2 ^ 16 % 256 ∷ n / 256 % 256 ∷ n % 256 ∷ [])
    else err (foreign struct_error)

abbrev pub u16_of : ℕ → ℕ → ℕ
u16_of a b = a * 256 + b

abbrev pub u32_of : ℕ → ℕ → ℕ → ℕ → ℕ
u32_of a b c d = a * 2 ^ 24 + b * 2 ^ 16 + c * 256 + d

pub pack_u16-eq-ok : (n : ℕ) → n < 65536 → pack_u16 n ≡ ok (n / 256 ∷ n % 256 ∷ [])
unfolding pack_u16
pack_u16-eq-ok n h = ground arith

pub pack_u16_range : (n : ℕ) {b : Bytes} → pack_u16 n ≡ ok b → n < 65536
unfolding pack_u16
pack_u16_range n h = ground arith

pub u16_of-split : (n : ℕ) → u16_of (n / 256) (n % 256) ≡ n
u16_of-split n = omega arith

pub u32_of-split : (n : ℕ) → u32_of (n / 2 ^ 24) (n / 2 ^ 16 % 256) (n / 256 % 256) (n % 256) ≡ n
u32_of-split n = omega arith
