-- ===== src/Framing/Pack.antt =====
-- vynkor/framing.py: `pack_frame` and `_compress`.
use vynkor_sdk_python.Prelude.{
  ℕ, Bool, not, ◌&&◌, [], ◌++◌, ltb, leb, if◌then◌else◌, length, Option, none, some, bit_or,
}
use vynkor_sdk_python.Errors.{Str, Bytes, Result, ok, payload_too_large, raise_if, ◌>>=◌, ◌>>◌}
use vynkor_sdk_python.Framing.Primitives.{Primitives, max_payload}
use vynkor_sdk_python.Framing.Header.{
  flag_mac_present, flag_compressed, flag_raw_binary, compress_threshold, has, target_bytes,
  header_of, pack_header, header_bytes_for,
}
use vynkor_sdk_python.Framing.Mac.{compute_tag}

-- `if session_key is not None: flags |= FLAG_MAC_PRESENT`
abbrev pub mac_flags : Option Bytes → ℕ → ℕ
mac_flags none flags = flags
mac_flags (some key) flags = bit_or flags flag_mac_present

module _ (prim : Primitives) where
  -- The tag over the header and the payload before compression; empty where there is no key.
  unfoldable pub sign : Option Bytes → ℕ → Str → Bytes → Result Bytes
  sign none flags target payload = ok []
  sign (some key) flags target payload = do
    t ← target_bytes target
    plain_header ← header_bytes_for flags t payload
    ok (compute_tag prim key plain_header payload)

  -- Whether a payload is a candidate for compression.
  unfoldable pub compressible : Bool → ℕ → Bytes → Bool
  compressible compress flags payload =
      compress
      && (leb compress_threshold (length payload)
          && (not (has flags flag_compressed) && not (has flags flag_raw_binary)))

  -- `(wire_flags, wire_payload)`: compressed where that is shorter.
  unfoldable pub wire_form : Bool → ℕ → Bytes → ℕ × Bytes
  wire_form compress flags payload =
      let compressed = prim.zstd_compress payload in
      if compressible compress flags payload && ltb (length compressed) (length payload)
      then (bit_or flags flag_compressed, compressed)
      else (flags, payload)

  -- The wire header, the wire payload and the tag.
  unfoldable pub assemble : ℕ × Bytes → Bytes → Bytes → Result Bytes
  assemble (wire_flags, wire_payload) target tag = do
    wire_header ← pack_header (header_of wire_flags target wire_payload)
    ok (wire_header ++ (wire_payload ++ tag))

  unfoldable pub pack_frame : Str → Bytes → ℕ → Option Bytes → Bool → Result Bytes
  pack_frame target payload flags session_key compress = do
    raise_if (ltb max_payload (length payload)) (payload_too_large (length payload))
    let signed_flags = mac_flags session_key flags
    tag ← sign session_key signed_flags target payload
    t ← target_bytes target
    assemble (wire_form compress signed_flags payload) t tag
