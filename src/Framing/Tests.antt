-- ===== src/Framing/Tests.antt =====
-- Runs of the encoder and the decoders on small frames, and the theorems at these.
use vynkor_sdk_python.Prelude.{
  ◌≤◌, ◌≡◌, refl, true, false, [], ◌∷◌, ◌++◌, arith, length, take, drop, replicate,
  length-replicate, some, ◌%◌, ℕ, suc,
}
use vynkor_sdk_python.Errors.{Bytes, Result, ok, err, internal, frame_crc_mismatch}
use vynkor_sdk_python.Py.Text.{str, encode, str_eq, ljust}
use vynkor_sdk_python.Py.Struct.{pack_u16, pack_u32}
use vynkor_sdk_python.Py.Crc.{checksum}
use vynkor_sdk_python.Framing.Primitives.{unpacked, Primitives, IsSound, max_payload}
use vynkor_sdk_python.Framing.Header.{
  target_bytes, pack_header, unpack_u16, unpack_u32, unpack_bytes, unpack_end, unpack_header,
  header_bytes_for, has, flag_compressed,
}
use vynkor_sdk_python.Framing.Mac.{compute_tag, verify_tag, hkdf_expand, derive_session_key}
use vynkor_sdk_python.Framing.Pack.{sign, compressible, wire_form, assemble, pack_frame}
use vynkor_sdk_python.Framing.Stream.{read}
use vynkor_sdk_python.Framing.Read.{
  decompress, normalize, read_header, read_payload, check_mac, parse_frame, read_frame,
  read_frame_from_bytes,
}
use vynkor_sdk_python.Framing.RoundTrip.{parse_frame-pack_frame}
use vynkor_sdk_python.Framing.Safety.{
  IsTagged, read_frame_from_bytes_bounds, read_frame_from_bytes_authentic,
}
use vynkor_sdk_python.Framing.Async.{
  Timed, Reader, bytes_of, in_time, readexactly, async_header, async_payload, async_mac, read_body,
  async_read_frame, frame_read_timeout_ms,
}
use vynkor_sdk_python.Framing.AsyncAgree.{IsSameFrame, async_read_frame-read_frame_from_bytes}
use vynkor_sdk_python.Framing.Agree.{payload_of, read_frame-read_frame_from_bytes}
use vynkor_sdk_python.Framing.Truncated.{IsTruncated, read_frame_from_bytes-IsTruncated}
use vynkor_sdk_python.Framing.Total.{IsWire, pack_frame_total}
use vynkor_sdk_python.Framing.Raises.{RaisesAllowed, read_frame_raises}
use vynkor_sdk_python.Framing.Hkdf.{blocks, hkdf_expand-blocks, derive_session_key-block}

-- A keyed digest of 32 bytes and a codec that stores: enough to run the code.
abbrev pub toy_hmac : Bytes → Bytes → Bytes
toy_hmac key msg = replicate 32 (checksum (key ++ msg) % 256)

abbrev pub toy : Primitives
toy = record { hmac_sha256 = toy_hmac; zstd_compress = λ b. b; zstd_decompress = λ b n. unpacked b }

pub toy-IsSound : IsSound toy
toy-IsSound = record {
  digest_size = λ key msg. length-replicate 32 (checksum (key ++ msg) % 256);
  decompress-compress = λ b h. refl;
}

abbrev sample_key : Bytes
sample_key = 7 ∷ 9 ∷ []

abbrev sample_payload : Bytes
sample_payload = 104 ∷ 105 ∷ []

abbrev ok_or_empty : Result Bytes → Bytes
ok_or_empty (ok b) = b
ok_or_empty (err e) = []

-- A raw-binary frame for "kernel", under a key.
sample_frame : Bytes
unfolding pack_frame sign assemble wire_form compressible target_bytes header_bytes_for pack_header
    pack_u16 pack_u32 checksum compute_tag encode str ljust
sample_frame = ok_or_empty (pack_frame toy (str "kernel") sample_payload 16 (some sample_key) true)

pack_sample :
    pack_frame toy (str "kernel") sample_payload 16 (some sample_key) true ≡ ok sample_frame
unfolding sample_frame
pack_sample = refl

read_sample : read_frame_from_bytes toy sample_frame (some sample_key) ≡ ok (17, sample_payload)
unfolding sample_frame read_frame_from_bytes parse_frame read_header read_payload check_mac
    normalize decompress unpack_header unpack_u16 unpack_u32 unpack_bytes unpack_end verify_tag
    str_eq read ljust
read_sample = refl

-- A byte of the payload was changed on the way.
read_damaged :
    read_frame_from_bytes toy
      (take 44 sample_frame ++ 104 ∷ 106 ∷ drop 46 sample_frame)
      (some sample_key)
    ≡ err frame_crc_mismatch
unfolding sample_frame read_frame_from_bytes parse_frame read_header read_payload check_mac
    normalize decompress unpack_header unpack_u16 unpack_u32 unpack_bytes unpack_end verify_tag
    str_eq read ljust
read_damaged = refl

-- The reader has another key.
read_forged :
    read_frame_from_bytes toy sample_frame (some (8 ∷ []))
    ≡ err (internal (str "frame MAC verification failed"))
unfolding sample_frame read_frame_from_bytes parse_frame read_header read_payload check_mac
    normalize decompress unpack_header unpack_u16 unpack_u32 unpack_bytes unpack_end verify_tag
    str_eq read ljust
read_forged = refl

parse_frame-pack_frame_example :
    parse_frame toy (some sample_key) (sample_frame ++ 1 ∷ 2 ∷ [])
    ≡ (ok (17, sample_payload), 1 ∷ 2 ∷ [])
parse_frame-pack_frame_example =
    parse_frame-pack_frame toy toy-IsSound (str "kernel") sample_payload 16 (some sample_key) true
      sample_frame (1 ∷ 2 ∷ []) refl tt pack_sample

read_frame_from_bytes_bounds_example :
    (length sample_payload ≤ max_payload) × (has 17 flag_compressed ≡ false)
read_frame_from_bytes_bounds_example =
    read_frame_from_bytes_bounds toy (some sample_key) sample_frame read_sample

read_frame_from_bytes_authentic_example : IsTagged toy sample_key sample_frame 17 sample_payload
read_frame_from_bytes_authentic_example =
    read_frame_from_bytes_authentic toy sample_key sample_frame read_sample

read_frame-read_frame_from_bytes_example :
    (read_frame toy (some sample_key) sample_frame).0
    ≡ payload_of (read_frame_from_bytes toy sample_frame (some sample_key))
read_frame-read_frame_from_bytes_example =
    read_frame-read_frame_from_bytes toy (some sample_key) sample_frame

-- The frame without its last byte.
read_frame_from_bytes-IsTruncated_example :
    IsTruncated (read_frame_from_bytes toy (take 77 sample_frame) (some sample_key))
unfolding sample_frame
read_frame_from_bytes-IsTruncated_example =
    read_frame_from_bytes-IsTruncated toy toy-IsSound (str "kernel") sample_payload 16
      (some sample_key) true sample_frame (take 77 sample_frame) [] _ refl pack_sample refl

pack_frame_total_example :
    (header wire tag : Bytes) × (pack_frame toy
        (str "kernel")
        sample_payload
        16
        (some sample_key)
        true
      ≡ ok (header ++ (wire ++ tag)))
    × (length header ≡ 44)
    × IsWire toy true sample_payload wire
    × (length tag ≡ 32)
unfolding target_bytes encode str
pack_frame_total_example =
    pack_frame_total toy toy-IsSound (str "kernel") sample_payload _ 16 (some sample_key) true refl
      (omega arith) (omega arith)

-- The header of `sample_frame`, with nothing behind it.
read_frame_raises_example :
    RaisesAllowed toy (read_frame toy (some sample_key) (take 44 sample_frame)).0
unfolding sample_frame
read_frame_raises_example =
    read_frame_raises toy (some sample_key) (take 44 sample_frame) (omega arith)

hkdf_expand-blocks_example :
    (hkdf_expand toy sample_key (3 ∷ []) 40 ≡ ok (take 40 (blocks toy sample_key (3 ∷ []) 255)))
    × (length (take 40 (blocks toy sample_key (3 ∷ []) 255)) ≡ 40)
hkdf_expand-blocks_example = hkdf_expand-blocks toy toy-IsSound sample_key (3 ∷ []) 40 (omega arith)

derive_session_key-block_example :
    let key =
      toy_hmac
        (toy_hmac (5 ∷ []) sample_key)
        (str "vynkor-frame-mac-v1|" ++ (97 ∷ 105 ∷ []) ++ (1 ∷ [])) in
    (derive_session_key toy sample_key (5 ∷ []) (97 ∷ 105 ∷ []) ≡ ok key) × (length key ≡ 32)
unfolding encode
derive_session_key-block_example =
    derive_session_key-block toy toy-IsSound sample_key (5 ∷ []) (97 ∷ 105 ∷ []) (97 ∷ 105 ∷ [])
      refl

-- The sample frame at one byte a millisecond, and a byte of the next frame after the frame's time.
abbrev stamp : ℕ → Bytes → Reader
stamp now [] = []
stamp now (b ∷ bytes) = record { byte = b; at = now } ∷ stamp (suc now) bytes

abbrev next_frame : Reader
next_frame = record { byte = 0x56; at = 60000 } ∷ []

abbrev first_byte : Timed
first_byte = record { byte = 0x56; at = 5 }

async_read_frame-read_frame_from_bytes_example :
    IsSameFrame
      (read_frame_from_bytes toy
        (bytes_of (first_byte ∷ stamp 6 (drop 1 sample_frame)))
        (some sample_key))
      (async_read_frame toy 90000
        (some sample_key)
        frame_read_timeout_ms
        (first_byte ∷ (stamp 6 (drop 1 sample_frame) ++ next_frame))).0
unfolding in_time sample_frame
async_read_frame-read_frame_from_bytes_example =
    async_read_frame-read_frame_from_bytes toy 90000 (some sample_key) frame_read_timeout_ms
      first_byte (stamp 6 (drop 1 sample_frame)) next_frame refl (omega arith)

-- The whole sample frame, read under its key.
async_read_sample :
    (async_read_frame toy 90000 (some sample_key) frame_read_timeout_ms (stamp 5 sample_frame)).0
    ≡ ok (17, sample_payload)
unfolding sample_frame async_read_frame read_body async_header async_payload async_mac readexactly
    in_time normalize decompress unpack_header unpack_u16 unpack_u32 unpack_bytes unpack_end
    verify_tag str_eq ljust
async_read_sample = refl
