-- ===== src/Framing/Parts.antt =====
-- `read_frame`, which the source writes out, in the parts that `read_frame_from_bytes` is made of.
use vynkor_sdk_python.Prelude.{
  ℕ, ◌≡◌, refl, ◌∙◌, Bool, true, false, not, [], ltb, ◌==◌, if◌then◌else◌, length, take, drop,
  Option, Bool-cases, inl, inr,
}
use vynkor_sdk_python.Errors.{
  Bytes, Error, Result, ok, err, io_error, frame_magic_mismatch, frame_crc_mismatch,
  payload_too_large,
}
use vynkor_sdk_python.Py.Text.{str}
use vynkor_sdk_python.Py.Crc.{checksum}
use vynkor_sdk_python.Framing.Primitives.{Primitives, max_payload}
use vynkor_sdk_python.Framing.Header.{Header, magic_number, header_size, unpack_header}
use vynkor_sdk_python.Framing.Stream.{Stream, pure, lift, fail_if, read, proceed, ◌>>=◌, ◌>>◌}
use vynkor_sdk_python.Framing.Read.{normalize, read_header, read_payload, check_mac, read_frame}

proceed-cong {ℓ κ} :
    {A : Type ℓ} {B : Type κ} (m : Result A × Bytes) (f g : A → Stream B)
    → ((a : A) (s : Bytes) → f a s ≡ g a s)
    → proceed m.0 f m.1 ≡ proceed m.0 g m.1
proceed-cong (ok a, s) f g each = each a s
proceed-cong (err e, s) f g each = refl

module _ {ℓ κ} {A : Type ℓ} {B : Type κ} where
  -- What follows two checks follows the block of both.
  two_checks :
      (c d : Bool) (e k : Error) (a : A) (next : A → Stream B) (s : Bytes)
      → (fail_if c e >> (fail_if d k >> next a)) s
        ≡ ((fail_if c e >> (fail_if d k >> pure a)) >>= next) s
  two_checks true d e k a next s = refl
  two_checks false true e k a next s = refl
  two_checks false false e k a next s = refl

header_parts {κ} :
    {B : Type κ} (b : Bytes) (short : Bool) (r : Result Header) (next : Header → Stream B)
    (s : Bytes)
    → (do
      fail_if short (io_error (str "truncated frame header"))
      h ← lift r
      fail_if (not (h.magic == magic_number)) frame_magic_mismatch
      fail_if (ltb max_payload h.size) (payload_too_large h.size)
      next h)
        s
      ≡ ((do
        fail_if short (io_error (str "truncated frame header"))
        h ← lift r
        fail_if (not (h.magic == magic_number)) frame_magic_mismatch
        fail_if (ltb max_payload h.size) (payload_too_large h.size)
        pure h)
            >>= next)
          s
header_parts b true r next s = refl
header_parts b false (err e) next s = refl
header_parts b false (ok h) next s =
    two_checks (not (h.magic == magic_number)) (ltb max_payload h.size) frame_magic_mismatch
      (payload_too_large h.size) h next s

payload_parts {κ} :
    {B : Type κ} (h : Header) (next : Bytes → Stream B) (s : Bytes)
    → (do
      payload ← if ltb 0 h.size then read h.size else pure []
      fail_if (ltb (length payload) h.size) (io_error (str "truncated frame payload"))
      fail_if (not (checksum payload == h.crc)) frame_crc_mismatch
      next payload)
        s
      ≡ (read_payload h >>= next) s
unfolding read read_payload
payload_parts h next s = elim (Bool-cases (ltb 0 h.size)) [
  | inl some_bytes ↦ rw some_bytes (
      two_checks (ltb (length (take h.size s)) h.size) (not (checksum (take h.size s) == h.crc))
        (io_error (str "truncated frame payload")) frame_crc_mismatch (take h.size s) next
        (drop h.size s))
  | inr empty ↦ rw empty (
      two_checks (ltb (length {A = ℕ} []) h.size) (not (checksum [] == h.crc))
        (io_error (str "truncated frame payload")) frame_crc_mismatch [] next s)
]

module _ (prim : Primitives) (key : Option Bytes) where
  abbrev pub in_parts : Stream Bytes
  in_parts = do
    h ← read_header
    wire ← read_payload h
    plain ← lift (normalize prim h.flags h.target wire)
    check_mac prim key plain
    pure plain.2

  pub read_frame-in_parts : (s : Bytes) → read_frame prim key s ≡ in_parts s
  unfolding read_frame read read_header check_mac
  read_frame-in_parts s =
      header_parts (take header_size s) (ltb (length (take header_size s)) header_size)
        (unpack_header (take header_size s)) _ (drop header_size s)
      ∙ proceed-cong (read_header s) _ _ (λ h t. payload_parts h _ t)
