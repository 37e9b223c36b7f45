-- ===== src/Framing/Layout.antt =====
-- The bytes of a header: their number, and unpacking what was packed.
use vynkor_sdk_python.Prelude.{
  ℕ, ◌/◌, ◌%◌, ◌<◌, ◌≤◌, ◌^◌, ◌≡◌, refl, [], ◌∷◌, ◌++◌, arith, length, take, drop, length-append,
  length-take, take_all, take-append, drop-append, append-nil, some, ge→ltb,
}
use vynkor_sdk_python.Errors.{Str, Bytes, ok, >>=-eq-ok}
use vynkor_sdk_python.Py.Text.{encode, ljust, length-ljust}
use vynkor_sdk_python.Py.Struct.{pack_u16, pack_u32}
use vynkor_sdk_python.Py.Crc.{checksum_range}
use vynkor_sdk_python.Framing.Primitives.{max_payload}
use vynkor_sdk_python.Framing.Header.{
  header_of, header_bytes_for, Header, FragHeader, header_size, target_bytes, pack_header,
  unpack_u16, unpack_u32, unpack_bytes, unpack_end, unpack_header, pack_frag_header,
  unpack_frag_header, parse_frag_header,
}

pub length-target_bytes : (target : Str) (b : Bytes) → target_bytes target ≡ ok b → length b ≡ 32
unfolding target_bytes
length-target_bytes target b h =
    let (e, p, q) = >>=-eq-ok (encode target) _ h in
    let short : length (take 32 e) ≤ 32 = omega (arith, length-take 32 e) in
    ground (arith, length-ljust 32 (take 32 e) short, length-take 32 (ljust 32 (take 32 e)), q)

ljust_full : (b : Bytes) → length b ≡ 32 → ljust 32 (take 32 b) ≡ b
unfolding ljust
ljust_full b h = rw (take_all 32 b (omega arith)) (rw h (append-nil b))

-- The header's bytes, written out.
abbrev pub layout : Header → Bytes
layout h =
    h.magic / 256
    ∷ h.magic % 256
    ∷ h.flags / 256
    ∷ h.flags % 256
    ∷ h.size / 2 ^ 24
    ∷ h.size / 2 ^ 16 % 256
    ∷ h.size / 256 % 256
    ∷ h.size % 256
    ∷ (h.target ++ (h.crc / 2 ^ 24 ∷ h.crc / 2 ^ 16 % 256 ∷ h.crc / 256 % 256 ∷ h.crc % 256 ∷ []))

pub pack_header-layout :
    (h : Header) (b : Bytes) → length h.target ≡ 32 → pack_header h ≡ ok b → b ≡ layout h
unfolding pack_header pack_u16 pack_u32
pack_header-layout h b l e = ground (arith, ljust_full h.target l)

unpack_bytes-append :
    (n : ℕ) (b rest : Bytes) → length b ≡ n → unpack_bytes n (b ++ rest) ≡ ok (b, rest)
unfolding unpack_bytes
unpack_bytes-append n b rest h = rw (
  ge→ltb (length (b ++ rest)) n (omega (arith, length-append b rest)),
  take-append n b rest h,
  drop-append n b rest h,
)

unpack_header-layout : (h : Header) → length h.target ≡ 32 → unpack_header (layout h) ≡ ok h
unfolding unpack_header unpack_u16 unpack_u32 unpack_end
unpack_header-layout h l = rw (unpack_bytes-append 32 h.target _ l) (ground arith)

pub length-pack_header :
    (h : Header) (b : Bytes) → length h.target ≡ 32 → pack_header h ≡ ok b → length b ≡ header_size
length-pack_header h b l e = rw (pack_header-layout h b l e) (omega (arith, length-append h.target))

-- What `struct.pack` wrote for a header, `struct.unpack` reads back.
pub unpack_header-pack_header :
    (h : Header) (b : Bytes) → length h.target ≡ 32 → pack_header h ≡ ok b → unpack_header b ≡ ok h
unpack_header-pack_header h b l e = rw (pack_header-layout h b l e) (unpack_header-layout h l)

-- Packing a header fails for flags out of range only.
pub pack_header_total :
    (h : Header)
    → h.magic < 65536
    → h.flags < 65536
    → h.size < 2 ^ 32
    → h.crc < 2 ^ 32
    → (b : Bytes) × (pack_header h ≡ ok b)
unfolding pack_header pack_u16 pack_u32
pack_header_total h m f s c =
    (layout (record h { target = ljust 32 (take 32 h.target) }), ground arith)

pub pack_header_flags : (h : Header) (b : Bytes) → pack_header h ≡ ok b → h.flags < 65536
unfolding pack_header pack_u16 pack_u32
pack_header_flags h b e = ground arith

abbrev frag_layout : FragHeader → Bytes
frag_layout h =
    h.fragment_id / 256
    ∷ h.fragment_id % 256
    ∷ h.sequence / 256
    ∷ h.sequence % 256
    ∷ h.total / 256
    ∷ h.total % 256
    ∷ h.stream_id / 2 ^ 24
    ∷ h.stream_id / 2 ^ 16 % 256
    ∷ h.stream_id / 256 % 256
    ∷ h.stream_id % 256
    ∷ []

pack_frag_header-layout :
    (h : FragHeader) (b : Bytes) → pack_frag_header h ≡ ok b → b ≡ frag_layout h
unfolding pack_frag_header pack_u16 pack_u32
pack_frag_header-layout h b e = ground arith

pub pack_frag_header_total :
    (h : FragHeader)
    → h.fragment_id < 65536
    → h.sequence < 65536
    → h.total < 65536
    → h.stream_id < 2 ^ 32
    → (b : Bytes) × (pack_frag_header h ≡ ok b) × (length b ≡ 10)
unfolding pack_frag_header pack_u16 pack_u32
pack_frag_header_total h i s t d = (frag_layout h, ground arith, omega arith)

-- A fragment's header is read back from the fragment, and the data behind it is left.
pub parse_frag_header-pack_frag_header :
    (h : FragHeader) (b chunk : Bytes)
    → pack_frag_header h ≡ ok b
    → (parse_frag_header (b ++ chunk) ≡ ok (some h)) × (drop 10 (b ++ chunk) ≡ chunk)
unfolding parse_frag_header unpack_frag_header unpack_u16 unpack_u32 unpack_end
parse_frag_header-pack_frag_header h b chunk e =
    rw (pack_frag_header-layout h b e) (ground arith, refl)

pub header_bytes_for_total :
    (flags : ℕ) (target payload : Bytes)
    → flags < 65536
    → length payload ≤ max_payload
    → (b : Bytes) × (header_bytes_for flags target payload ≡ ok b)
unfolding header_bytes_for
header_bytes_for_total flags target payload f l =
    pack_header_total (header_of flags target payload) (omega arith) f (omega arith)
      (omega (arith, checksum_range payload))

pub unpack_frag_header_total :
    (b : Bytes) → length b ≡ 10 → (h : FragHeader) × (unpack_frag_header b ≡ ok h)
unfolding unpack_frag_header unpack_u16 unpack_u32 unpack_end
unpack_frag_header_total (i ∷ i' ∷ s ∷ s' ∷ t ∷ t' ∷ d ∷ d' ∷ e ∷ e' ∷ []) l = (_, refl)
unpack_frag_header_total (i ∷ i' ∷ s ∷ s' ∷ t ∷ t' ∷ d ∷ d' ∷ e ∷ e' ∷ x ∷ b) l =
    absurd (omega arith)
unpack_frag_header_total _ l = absurd (omega arith)
