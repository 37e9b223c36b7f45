-- ===== src/Framing/Safety.antt =====
-- What holds of every frame that the decoders accept, whoever sent it.
use vynkor_sdk_python.Prelude.{
  ℕ, zero, suc, ◌≤◌, ◌≡◌, refl, sym, ap, ◌∙◌, inl, inr, true, false, not, [], ◌∷◌, ◌++◌, arith, ltb,
  ◌==◌, length, Option, some, Bool-cases, take, drop, take-append-drop, length-take,
}
use vynkor_sdk_python.Errors.{
  Bytes, ok, io_error, frame_magic_mismatch, frame_crc_mismatch, payload_too_large, internal,
}
use vynkor_sdk_python.Py.Text.{str, str_eq→eq}
use vynkor_sdk_python.Py.Crc.{checksum}
use vynkor_sdk_python.Framing.Primitives.{Primitives, max_payload}
use vynkor_sdk_python.Framing.Header.{
  Header, magic_number, header_size, flag_mac_present, flag_compressed, has, unpack_header,
  header_bytes_for, header_of, unpack_u16, unpack_u32, unpack_bytes, unpack_end,
}
use vynkor_sdk_python.Framing.Layout.{layout, pack_header-layout}
use vynkor_sdk_python.Framing.Flags.{has_compressed-without}
use vynkor_sdk_python.Framing.Mac.{compute_tag, verify_tag}
use vynkor_sdk_python.Framing.Stream.{pure, lift, read, fail_if, ◌>>=◌, ◌>>◌, >>=-ok_elim}
use vynkor_sdk_python.Framing.Read.{
  decompress, normalize, read_header, read_payload, check_mac, forged, parse_frame,
  read_frame_from_bytes,
}

-- What a header that was accepted says, and where it stood.
abbrev HeaderRead : Bytes → Header → Bytes → Type 0
HeaderRead s h rest =
    (s ≡ take 44 s ++ rest)
    × (length (take 44 s) ≡ 44)
    × (unpack_header (take 44 s) ≡ ok h)
    × (h.magic ≡ magic_number)
    × (h.size ≤ max_payload)

header_checks :
    (b : Bytes) (s rest : Bytes) {h : Header}
    → (do
      fail_if (ltb (length b) header_size) (io_error (str "truncated frame header"))
      h ← lift (unpack_header b)
      fail_if (not (h.magic == magic_number)) frame_magic_mismatch
      fail_if (ltb max_payload h.size) (payload_too_large h.size)
      pure h)
        s
      ≡ (ok h, rest)
    → (s ≡ rest)
      × (header_size ≤ length b)
      × (unpack_header b ≡ ok h)
      × (h.magic ≡ magic_number)
      × (h.size ≤ max_payload)
header_checks b s rest e = ground arith

read_header-HeaderRead :
    (s rest : Bytes) {h : Header} → read_header s ≡ (ok h, rest) → HeaderRead s h rest
unfolding read_header read
read_header-HeaderRead s rest e =
    let (p, l, u, m, z) = header_checks (take 44 s) (drop 44 s) rest e in
    (rw (← p) (sym (take-append-drop 44 s)), omega (arith, length-take 44 s), u, m, z)

-- The wire payload has the size and the checksum that the header announced.
payload_checks :
    (h : Header) (b s rest : Bytes) {w : Bytes}
    → (do
      fail_if (ltb (length b) h.size) (io_error (str "truncated frame payload"))
      fail_if (not (checksum b == h.crc)) frame_crc_mismatch
      pure b)
        s
      ≡ (ok w, rest)
    → (s ≡ rest) × (b ≡ w) × (h.size ≤ length b) × (checksum b ≡ h.crc)
payload_checks h b s rest e = ground arith

abbrev PayloadRead : Bytes → Header → Bytes → Bytes → Type 0
PayloadRead s h w rest = (s ≡ w ++ rest) × (length w ≡ h.size) × (checksum w ≡ h.crc)

read_payload-PayloadRead :
    (h : Header) (s rest : Bytes) {w : Bytes}
    → read_payload h s ≡ (ok w, rest)
    → PayloadRead s h w rest
unfolding read_payload read
read_payload-PayloadRead h s rest {w} e = elim (Bool-cases (ltb 0 h.size)) [
  | inl some_bytes ↦
      let (p, q, l, c) =
        payload_checks h (take h.size s) (drop h.size s) rest (rw some_bytes at e) in
      (
        rw (← p, ← q) (sym (take-append-drop h.size s)),
        rw (← q) (omega (arith, length-take h.size s)),
        rw (← q) c,
      )
  | inr empty ↦
      let (p, q, l, c) = payload_checks h [] s rest (rw empty at e) in
      (rw (← p, ← q) refl, rw (← q) (ground arith), rw (← q) c)
]

-- The header of a plaintext payload.
abbrev pub plain_header : ℕ → Bytes → Bytes → Bytes
plain_header flags target payload = layout (record {
  magic = 0x5652;
  flags = flags;
  size = length payload;
  target = target;
  crc = checksum payload;
})

-- A frame's bytes with their tag: 44 bytes of header, a wire payload, the HMAC under the key of the
-- plaintext header, which has the header's own target, and of the payload, and a rest.
abbrev pub IsTagged : Primitives → Bytes → Bytes → ℕ → Bytes → Type 0
IsTagged prim key input flags payload =
    (has flags flag_mac_present ≡ true)
    × (wire rest : Bytes) × (length (take 44 input) ≡ 44)
    × (input
        ≡ take 44 input
          ++ (wire
              ++ (prim.hmac_sha256 key
                    (plain_header flags (take 32 (drop 8 input)) payload ++ payload)
                  ++ rest)))

take-take : (n m : ℕ) (s : Bytes) → n ≤ m → take n (take m s) ≡ take n s
take-take zero m s l = refl
take-take (suc n) zero s l = absurd (omega arith)
take-take (suc n) (suc m) [] l = refl
take-take (suc n) (suc m) (b ∷ s) l = ap (◌∷◌ b) (take-take n m s (omega arith))

length-take_long : (b : Bytes) → ltb (length b) 32 ≡ false → length (take 32 b) ≡ 32
length-take_long b long = ground (arith, length-take 32 b)

-- The target of a header that was unpacked from the front of a stream.
unpack_header-target :
    (s : Bytes) (h : Header)
    → unpack_header (take 44 s) ≡ ok h
    → (length h.target ≡ 32) × (h.target ≡ take 32 (drop 8 s))
unfolding unpack_header unpack_u16 unpack_u32 unpack_bytes unpack_end
unpack_header-target (a ∷ b ∷ c ∷ d ∷ e ∷ f ∷ g ∷ i ∷ s) h u =
    elim (Bool-cases (ltb (length (take 36 s)) 32)) [
      | inl short ↦ absurd (ground arith)
      | inr long ↦
          let cut = take-take 32 36 s (omega arith) in
          let target : h.target ≡ take 32 (take 36 s) = ground arith in
          (ap length target ∙ length-take_long (take 36 s) long, target ∙ cut)
    ]
unpack_header-target _ h u = absurd (cc)

module _ (prim : Primitives) where
  normalize_sound :
      (flags : ℕ) (target wire : Bytes) {f : ℕ} {header payload : Bytes}
      → length wire ≤ max_payload
      → normalize prim flags target wire ≡ ok (f, header, payload)
      → (length payload ≤ max_payload)
        × (has f flag_compressed ≡ false)
        × (header_bytes_for f target payload ≡ ok header)
  unfolding normalize decompress
  normalize_sound flags target wire l e = ground (arith, has_compressed-without flags)

  tag_checks :
      (key header payload tag s rest : Bytes)
      → (do
        fail_if (ltb (length tag) 32) (io_error (str "truncated MAC tag"))
        fail_if
            (forged prim (some key) header payload tag)
            (internal (str "frame MAC verification failed")))
          s
        ≡ (ok tt, rest)
      → (s ≡ rest) × (compute_tag prim key header payload ≡ tag)
  unfolding verify_tag compute_tag
  tag_checks key header payload tag s rest e =
      (ground arith, ground (arith, str_eq→eq (compute_tag prim key header payload) tag))

  -- Behind a payload read under a key there stood the tag of its plaintext header and of it.
  check_mac-authentic :
      (key : Bytes) (f : ℕ) (header payload s rest : Bytes)
      → check_mac prim (some key) (f, header, payload) s ≡ (ok tt, rest)
      → (has f flag_mac_present ≡ true) × (s ≡ compute_tag prim key header payload ++ rest)
  unfolding check_mac read
  check_mac-authentic key f header payload s rest e = elim (Bool-cases (has f flag_mac_present)) [
    | inl tagged ↦
        let (p, q) = tag_checks key header payload (take 32 s) (drop 32 s) rest (rw tagged at e) in
        (tagged, rw (q, ← p) (sym (take-append-drop 32 s)))
    | inr untagged ↦ absurd (cc (rw untagged at e))
  ]

  -- Everything that a decoder went through on a frame that it accepted.
  abbrev Accepted : Option Bytes → Bytes → ℕ → Bytes → Bytes → Type 0
  Accepted key s f payload rest =
      (h : Header) × (wire header behind : Bytes) × HeaderRead s h (wire ++ behind)
      × (length wire ≡ h.size)
      × (checksum wire ≡ h.crc)
      × (normalize prim h.flags h.target wire ≡ ok (f, header, payload))
      × (check_mac prim key (f, header, payload) behind ≡ (ok tt, rest))

  parse_frame-Accepted :
      (key : Option Bytes) (s rest : Bytes) {f : ℕ} {payload : Bytes}
      → parse_frame prim key s ≡ (ok (f, payload), rest)
      → Accepted key s f payload rest
  unfolding parse_frame
  parse_frame-Accepted key s rest {f} {payload} = >>=-ok_elim read_header _ s λ h s₁ p₁.
      >>=-ok_elim (read_payload h) _ s₁ λ wire s₂ p₂.
        >>=-ok_elim (lift (normalize prim h.flags h.target wire)) _ s₂ λ plain s₃ p₃.
          >>=-ok_elim (check_mac prim key plain) _ s₃ λ u s₄ p₄ e₄.
            let (cut, size, crc) = read_payload-PayloadRead h s₁ s₂ p₂ in
            (
              h,
              wire,
              plain.1,
              s₂,
              rw (← cut) (read_header-HeaderRead s s₁ p₁),
              size,
              crc,
              ground arith,
              ground arith,
            )

  abbrev Parsed : Option Bytes → Bytes → ℕ → Bytes → Type 0
  Parsed key input f payload = Accepted key input f payload (parse_frame prim key input).1

  read_frame_from_bytes-Accepted :
      (key : Option Bytes) (input : Bytes) {f : ℕ} {payload : Bytes}
      → read_frame_from_bytes prim input key ≡ ok (f, payload)
      → Parsed key input f payload
  unfolding read_frame_from_bytes
  read_frame_from_bytes-Accepted key input e =
      parse_frame-Accepted key input (parse_frame prim key input).1 (ground arith)

  -- A frame that is accepted, from whatever bytes, has a payload of at most MAX_PAYLOAD bytes, also
  -- after decompression, and its flags do not have FLAG_COMPRESSED.
  pub read_frame_from_bytes_bounds :
      (key : Option Bytes) (input : Bytes) {f : ℕ} {payload : Bytes}
      → read_frame_from_bytes prim input key ≡ ok (f, payload)
      → (length payload ≤ max_payload) × (has f flag_compressed ≡ false)
  read_frame_from_bytes_bounds key input e =
      let (h, wire, header, behind, (cut, _, _, _, small), size, crc, n, m) =
        read_frame_from_bytes-Accepted key input e in
      let (l, c, _) = normalize_sound h.flags h.target wire (omega arith) n in (l, c)

  -- A frame that is accepted under a session key is marked FLAG_MAC_PRESENT. Its bytes are 44 bytes
  -- of header, a wire payload, the HMAC under that key of the plaintext header and the payload, and
  -- a rest. The plaintext header is written out: the magic number, the flags, the payload's length,
  -- bytes 8 to 39 of the frame's own header, and the payload's CRC-32.
  pub read_frame_from_bytes_authentic :
      (key input : Bytes) {f : ℕ} {payload : Bytes}
      → read_frame_from_bytes prim input (some key) ≡ ok (f, payload)
      → IsTagged prim key input f payload
  unfolding compute_tag header_bytes_for
  read_frame_from_bytes_authentic key input {f} {payload} e =
      let (h, wire, header, behind, (cut, full, unpacked, _, small), size, crc, n, m) =
        read_frame_from_bytes-Accepted (some key) input e in
      let (l, c, packed) = normalize_sound h.flags h.target wire (omega arith) n in
      let rest = (parse_frame prim (some key) input).1 in
      let (tagged, tail) = check_mac-authentic key f header payload behind rest m in
      let (whole, target) = unpack_header-target input h unpacked in
      let built : header ≡ plain_header f (take 32 (drop 8 input)) payload =
        pack_header-layout (header_of f h.target payload) header whole packed
        ∙ ap (λ t. plain_header f t payload) target in
      let tag = tail ∙ ap (λ p. prim.hmac_sha256 key (p ++ payload) ++ rest) built in
      (tagged, wire, rest, full, cut ∙ ap (λ b. take 44 input ++ (wire ++ b)) tag)
