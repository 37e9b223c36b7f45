-- ===== src/Errors.antt =====
-- vynkor/errors.py: the exception classes, and functions that raise as results.
use vynkor_sdk_python.Prelude.{ℕ, List, ◌≡◌, refl, Bool, true, false}

-- A Python `str`, as its code points.
abbrev pub Str : Type 0
Str = List ℕ

-- A `bytes` object: a list of numbers that are below 256 wherever they come from the wire.
abbrev pub Bytes : Type 0
Bytes = List ℕ

-- The subclasses of `VynkorError`, with what their constructors carry; `foreign` is any other
-- exception that passes through the SDK.
pub data Foreign : Type 0 where
  struct_error unicode_encode_error incomplete_read assertion_error type_error : Foreign
  not_implemented timeout_error cancelled connection_error memory_error : Foreign
  value_error : Str → Foreign
  key_error : ℕ → Foreign
  user_error import_error version_error name_error : Str → Foreign

pub data Error : Type 0 where
  io_error proto_error : Str → Error
  frame_magic_mismatch frame_crc_mismatch frame_read_timeout : Error
  payload_too_large : ℕ → Error
  timeout permission_denied internal : Str → Error
  foreign : Foreign → Error

-- `except VynkorError`.
abbrev pub is_vynkor_error : Error → Bool
is_vynkor_error (foreign e) = false
is_vynkor_error _ = true

-- `except Exception`, which lets a cancellation pass.
unfoldable pub is_exception : Error → Bool
is_exception (foreign cancelled) = false
is_exception _ = true

-- What a call comes to: an exception, or a value.
pub data Result {ℓ} (V : Type ℓ) : Type ℓ where
  err : Error → Result V
  ok : V → Result V

-- The rest of a block runs on the value, and an exception leaves the block.
infixl 5 ◌>>=◌ ◌>>◌
abbrev pub ◌>>=◌ {ℓ κ} : {V : Type ℓ} {W : Type κ} → Result V → (V → Result W) → Result W
err raised >>= rest = err raised
ok value >>= rest = rest value

abbrev pub ◌>>◌ {ℓ} : {W : Type ℓ} → Result (Unit {0}) → Result W → Result W
check >> rest = check >>= λ _. rest

-- `if test: raise e`.
abbrev pub raise_if : Bool → Error → Result (Unit {0})
raise_if true e = err e
raise_if false e = ok tt

module _ {ℓ κ} {A : Type ℓ} {B : Type κ} where
  -- What a block that returned went through.
  pub >>=-eq-ok :
      (first : Result A) (rest : A → Result B) {last : B}
      → (first >>= rest) ≡ ok last
      → (mid : A) × (first ≡ ok mid) × (rest mid ≡ ok last)
  >>=-eq-ok (err raised) rest returned = cc
  >>=-eq-ok (ok mid) rest returned = (mid, refl, returned)

module _ {ℓ} {A : Type ℓ} where
  pub raise_if-eq-ok :
      (test : Bool) (e : Error) (m : Result A) {a : A}
      → (raise_if test e >> m) ≡ ok a
      → (test ≡ false) × (m ≡ ok a)
  raise_if-eq-ok true e m h = cc
  raise_if-eq-ok false e m h = (refl, h)

  pub ok-injective : {a b : A} → ok a ≡ ok b → a ≡ b
  ok-injective h = cc
