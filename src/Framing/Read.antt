-- ===== src/Framing/Read.antt =====
-- vynkor/framing.py: `_decompress`, `_normalize`, `read_frame` and `read_frame_from_bytes`.
use vynkor_sdk_python.Prelude.{
  ℕ, Bool, true, false, not, [], ◌++◌, ltb, ◌==◌, if◌then◌else◌, length, Option, none, some,
}
use vynkor_sdk_python.Errors
use vynkor_sdk_python.Errors.{
  Str, Bytes, Result, ok, err, foreign, io_error, internal, frame_magic_mismatch,
  frame_crc_mismatch, payload_too_large,
}
use vynkor_sdk_python.Py.Text.{str}
use vynkor_sdk_python.Py.Crc.{checksum}
use vynkor_sdk_python.Framing.Primitives.{
  Primitives, Unpacked, unpacked, zstd_error, escaped, max_payload,
}
use vynkor_sdk_python.Framing.Header.{
  Header, magic_number, header_size, flag_mac_present, flag_compressed, has, without, unpack_header,
  header_bytes_for,
}
use vynkor_sdk_python.Framing.Mac.{verify_tag}
use vynkor_sdk_python.Framing.Stream.{Stream, pure, lift, fail_if, read, ◌>>=◌, ◌>>◌}

-- A frame's flags, plaintext header and plaintext payload.
abbrev pub Plain : Type 0
Plain = ℕ × Bytes × Bytes

-- `if len(out) > MAX_PAYLOAD: raise …`, and `ZstdError` as `VynkorInternal`
abbrev pub bounded : Unpacked → Result Bytes
bounded (unpacked out) =
    if ltb max_payload (length out) then err (payload_too_large (length out)) else ok out
bounded (zstd_error e) = err (internal (str "decompress frame: " ++ e))
bounded (escaped e) = err (foreign e)

-- The parts of `read_frame_from_bytes`: the header, and the checks on its magic number and its
-- length.
unfoldable pub read_header : Stream Header
read_header = do
  header_bytes ← read header_size
  fail_if (ltb (length header_bytes) header_size) (io_error (str "truncated frame header"))
  h ← lift (unpack_header header_bytes)
  fail_if (not (h.magic == magic_number)) frame_magic_mismatch
  fail_if (ltb max_payload h.size) (payload_too_large h.size)
  pure h

-- The payload that the header announces, and the check of its CRC.
unfoldable pub read_payload : Header → Stream Bytes
read_payload h = do
  payload ← if ltb 0 h.size then read h.size else pure []
  fail_if (ltb (length payload) h.size) (io_error (str "truncated frame payload"))
  fail_if (not (checksum payload == h.crc)) frame_crc_mismatch
  pure payload

-- `session_key is not None`
abbrev pub is_some {ℓ} : {A : Type ℓ} → Option A → Bool
is_some none = false
is_some (some key) = true

module _ (prim : Primitives) where
  unfoldable pub decompress : Bytes → Result Bytes
  decompress payload = bounded (prim.zstd_decompress payload max_payload)

  unfoldable pub normalize : ℕ → Bytes → Bytes → Result Plain
  normalize flags target payload =
      if not (has flags flag_compressed)
      then Errors.◌>>=◌ (header_bytes_for flags target payload) (λ h. ok (flags, h, payload))
      else Errors.◌>>=◌ (decompress payload) (λ plain.
        let plain_flags = without flags flag_compressed in
        Errors.◌>>=◌ (header_bytes_for plain_flags target plain) (λ h. ok (plain_flags, h, plain)))

  -- `session_key is not None and not verify_tag(…)`
  abbrev pub forged : Option Bytes → Bytes → Bytes → Bytes → Bool
  forged none header payload tag = false
  forged (some key) header payload tag = not (verify_tag prim key header payload tag)

  -- The tag behind the payload.
  unfoldable pub check_mac : Option Bytes → Plain → Stream (Unit {0})
  check_mac key (flags, header, payload) =
      if has flags flag_mac_present
      then (do
        tag ← read 32
        fail_if (ltb (length tag) 32) (io_error (str "truncated MAC tag"))
        fail_if (forged key header payload tag) (internal (str "frame MAC verification failed")))
      else fail_if (is_some key) (internal (str "MAC missing on secured connection"))

  unfoldable pub read_frame : Option Bytes → Stream Bytes
  read_frame session_key = do
    header_bytes ← read header_size
    fail_if (ltb (length header_bytes) header_size) (io_error (str "truncated frame header"))
    h ← lift (unpack_header header_bytes)
    fail_if (not (h.magic == magic_number)) frame_magic_mismatch
    fail_if (ltb max_payload h.size) (payload_too_large h.size)
    payload ← if ltb 0 h.size then read h.size else pure []
    fail_if (ltb (length payload) h.size) (io_error (str "truncated frame payload"))
    fail_if (not (checksum payload == h.crc)) frame_crc_mismatch
    (flags, header, plain) ← lift (normalize h.flags h.target payload)
    (if has flags flag_mac_present
        then (do
          tag ← read 32
          fail_if (ltb (length tag) 32) (io_error (str "truncated MAC tag"))
          fail_if (forged session_key header plain tag)
              (internal (str "frame MAC verification failed")))
        else fail_if (is_some session_key) (internal (str "MAC missing on secured connection")))
    pure plain

  -- The body of `read_frame_from_bytes`, over `io.BytesIO(data)`.
  unfoldable pub parse_frame : Option Bytes → Stream (ℕ × Bytes)
  parse_frame session_key = do
    h ← read_header
    wire ← read_payload h
    plain ← lift (normalize h.flags h.target wire)
    check_mac session_key plain
    pure (plain.0, plain.2)

  unfoldable pub read_frame_from_bytes : Bytes → Option Bytes → Result (ℕ × Bytes)
  read_frame_from_bytes input session_key = (parse_frame session_key input).0
