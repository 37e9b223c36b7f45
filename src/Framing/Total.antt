-- ===== src/Framing/Total.antt =====
-- When `pack_frame` returns a frame, how long the frame is, and what the decoders may raise.
use vynkor_sdk_python.Prelude.{
  ℕ, ◌<◌, ◌≤◌, ◌≡◌, ◌⊎◌, refl, Bool, true, [], ◌++◌, arith, length, Option, none, some, ge→ltb,
}
use vynkor_sdk_python.Errors.{Str, Bytes, ok}
use vynkor_sdk_python.Py.Crc.{checksum_range}
use vynkor_sdk_python.Framing.Primitives.{Primitives, IsSound, max_payload}
use vynkor_sdk_python.Framing.Header.{target_bytes, header_of}
use vynkor_sdk_python.Framing.Layout.{
  length-target_bytes, length-pack_header, pack_header_total, header_bytes_for_total,
}
use vynkor_sdk_python.Framing.Flags.{set_mac_range, set_compressed_range}
use vynkor_sdk_python.Framing.Mac.{compute_tag}
use vynkor_sdk_python.Framing.Pack.{mac_flags, sign, compressible, wire_form, assemble, pack_frame}
use vynkor_sdk_python.Framing.RoundTrip.{wire_form-le}

abbrev pub IsU16 : ℕ → Type 0
IsU16 n = n < 65536

mac_flags_range : (key : Option Bytes) (flags : ℕ) → IsU16 flags → IsU16 (mac_flags key flags)
mac_flags_range none flags h = h
mac_flags_range (some key) flags h = set_mac_range flags h

abbrev pub tag_size : Option Bytes → ℕ
tag_size none = 0
tag_size (some key) = 32

-- What `pack_frame` may send for a payload: the payload, or its compressed form where that is asked
-- for, the payload is large, and the form is shorter.
abbrev pub IsWire : Primitives → Bool → Bytes → Bytes → Type 0
IsWire prim compress payload wire =
    (wire ≡ payload)
    ⊎ ((compress ≡ true)
        × (65536 ≤ length payload)
        × (length (prim.zstd_compress payload) < length payload)
        × (wire ≡ prim.zstd_compress payload))

module _ (prim : Primitives) (sound : IsSound prim) where
  open sound use {digest_size}

  wire_form_range :
      (compress : Bool) (flags : ℕ) (payload : Bytes)
      → IsU16 flags
      → IsU16 (wire_form prim compress flags payload).0
  unfolding wire_form
  wire_form_range compress flags payload h = ground (arith, set_compressed_range flags)

  sign_total :
      (key : Option Bytes) (flags : ℕ) (target : Str) (payload t : Bytes)
      → target_bytes target ≡ ok t
      → IsU16 flags
      → length payload ≤ max_payload
      → (tag : Bytes) × (sign prim key flags target payload ≡ ok tag) × (length tag ≡ tag_size key)
  unfolding sign compute_tag
  sign_total none flags target payload t e f l = ([], refl, refl)
  sign_total (some key) flags target payload t e f l =
      let (header, he) = header_bytes_for_total flags t payload f l in
      (compute_tag prim key header payload, rw (e, he), digest_size key (header ++ payload))

  wire_form-IsWire :
      (compress : Bool) (flags : ℕ) (payload : Bytes)
      → IsWire prim compress payload (wire_form prim compress flags payload).1
  unfolding wire_form compressible
  wire_form-IsWire compress flags payload = ground arith

  -- `pack_frame` returns a frame for every target that has an encoding, every payload of at most
  -- MAX_PAYLOAD bytes and all flags of 16 bits. The frame is a header of 44 bytes, the wire payload,
  -- and a tag, which has 32 bytes where there is a key and none where there is no key. The wire
  -- payload is the payload, or its compressed form where compression is asked for, the payload has
  -- at least COMPRESS_THRESHOLD bytes, and the compressed form is shorter.
  pub pack_frame_total :
      (target : Str) (payload t : Bytes) (flags : ℕ) (key : Option Bytes) (compress : Bool)
      → target_bytes target ≡ ok t
      → length payload ≤ max_payload
      → IsU16 flags
      → (header wire tag : Bytes) × (pack_frame prim target payload flags key compress
          ≡ ok (header ++ (wire ++ tag)))
        × (length header ≡ 44)
        × IsWire prim compress payload wire
        × (length tag ≡ tag_size key)
  unfolding pack_frame assemble
  pack_frame_total target payload t flags key compress te l f =
      let signed = mac_flags key flags in
      let (tag, se, size) =
        sign_total key signed target payload t te (mac_flags_range key flags f) l in
      let form = wire_form prim compress signed payload in
      let short = wire_form-le prim sound compress signed payload in
      let h = header_of form.0 t form.1 in
      let (b, packed) =
        pack_header_total h (omega arith)
          (wire_form_range compress signed payload (mac_flags_range key flags f)) (omega arith)
          (omega (arith, checksum_range form.1)) in
      (
        b,
        form.1,
        tag,
        rw (ge→ltb max_payload (length payload) l) (rw (se, te, packed)),
        length-pack_header h b (length-target_bytes target t te) packed,
        wire_form-IsWire compress signed payload,
        size,
      )
