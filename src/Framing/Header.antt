-- ===== src/Framing/Header.antt =====
-- vynkor/framing.py: the frame header, the fragment header, and the flag bits.
use vynkor_sdk_python.Prelude.{
  ℕ, ◌-◌, Bool, not, [], ◌∷◌, ◌++◌, ltb, ◌==◌, if◌then◌else◌, length, take, drop, Option, none,
  some, bit_and,
}
use vynkor_sdk_python.Errors.{Str, Bytes, Result, ok, err, foreign, struct_error, ◌>>=◌, ◌>>◌}
use vynkor_sdk_python.Py.Text.{encode, ljust}
use vynkor_sdk_python.Py.Struct.{pack_u16, pack_u32, u16_of, u32_of}
use vynkor_sdk_python.Py.Crc.{checksum}

abbrev pub magic_number : ℕ
magic_number = 0x5652

abbrev pub header_size : ℕ
header_size = 44

abbrev pub flag_mac_present : ℕ
flag_mac_present = 1

abbrev pub flag_compressed : ℕ
flag_compressed = 2

abbrev pub flag_fragmented : ℕ
flag_fragmented = 4

abbrev pub flag_raw_binary : ℕ
flag_raw_binary = 16

abbrev pub compress_threshold : ℕ
compress_threshold = 65536

abbrev pub frag_header_size : ℕ
frag_header_size = 10

-- `flags & flag` as a condition.
abbrev pub has : ℕ → ℕ → Bool
has flags flag = not (bit_and flags flag == 0)

-- `flags & ~mask`
abbrev pub without : ℕ → ℕ → ℕ
without flags mask = flags - bit_and flags mask

-- `target.encode()[:32].ljust(32, b"\x00")[:32]`
unfoldable pub target_bytes : Str → Result Bytes
target_bytes target = do b ← encode target; ok (take 32 (ljust 32 (take 32 b)))

pub record Header : Type 0 where
  pub magic : ℕ
  pub flags : ℕ
  pub size : ℕ
  pub target : Bytes
  pub crc : ℕ

-- `struct.pack(HEADER_FMT, …)`; the code 32s cuts or fills with zeros.
unfoldable pub pack_header : Header → Result Bytes
pack_header h = do
  m ← pack_u16 h.magic
  f ← pack_u16 h.flags
  l ← pack_u32 h.size
  c ← pack_u32 h.crc
  ok (m ++ (f ++ (l ++ (ljust 32 (take 32 h.target) ++ c))))

-- The fields at the front of a buffer, one format code at a time.
unfoldable pub unpack_u16 : Bytes → Result (ℕ × Bytes)
unpack_u16 (a ∷ b ∷ rest) = ok (u16_of a b, rest)
unpack_u16 _ = err (foreign struct_error)

unfoldable pub unpack_u32 : Bytes → Result (ℕ × Bytes)
unpack_u32 (a ∷ b ∷ c ∷ d ∷ rest) = ok (u32_of a b c d, rest)
unpack_u32 _ = err (foreign struct_error)

unfoldable pub unpack_bytes : ℕ → Bytes → Result (Bytes × Bytes)
unpack_bytes n b = if ltb (length b) n then err (foreign struct_error) else ok (take n b, drop n b)

unfoldable pub unpack_end : Bytes → Result (Unit {0})
unpack_end [] = ok tt
unpack_end (b ∷ bs) = err (foreign struct_error)

-- `struct.unpack(HEADER_FMT, header_bytes)`
unfoldable pub unpack_header : Bytes → Result Header
unpack_header b = do
  (magic, b) ← unpack_u16 b
  (flags, b) ← unpack_u16 b
  (size, b) ← unpack_u32 b
  (target, b) ← unpack_bytes 32 b
  (crc, b) ← unpack_u32 b
  unpack_end b
  ok (record { magic = magic; flags = flags; size = size; target = target; crc = crc })

-- The header that belongs to a payload.
abbrev pub header_of : ℕ → Bytes → Bytes → Header
header_of flags target payload = record {
  magic = magic_number;
  flags = flags;
  size = length payload;
  target = target;
  crc = checksum payload;
}

unfoldable pub header_bytes_for : ℕ → Bytes → Bytes → Result Bytes
header_bytes_for flags target payload = pack_header (header_of flags target payload)

pub record FragHeader : Type 0 where
  pub fragment_id : ℕ
  pub sequence : ℕ
  pub total : ℕ
  pub stream_id : ℕ

unfoldable pub pack_frag_header : FragHeader → Result Bytes
pack_frag_header h = do
  i ← pack_u16 h.fragment_id
  s ← pack_u16 h.sequence
  t ← pack_u16 h.total
  d ← pack_u32 h.stream_id
  ok (i ++ (s ++ (t ++ d)))

-- `struct.unpack(FRAG_HEADER_FMT, b)`
unfoldable pub unpack_frag_header : Bytes → Result FragHeader
unpack_frag_header b = do
  (i, b) ← unpack_u16 b
  (s, b) ← unpack_u16 b
  (t, b) ← unpack_u16 b
  (d, b) ← unpack_u32 b
  unpack_end b
  ok (record { fragment_id = i; sequence = s; total = t; stream_id = d })

-- `None` for a payload that is too short.
unfoldable pub parse_frag_header : Bytes → Result (Option FragHeader)
parse_frag_header payload =
    if ltb (length payload) frag_header_size
    then ok none
    else do h ← unpack_frag_header (take frag_header_size payload); ok (some h)
