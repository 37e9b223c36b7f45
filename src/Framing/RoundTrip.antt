-- ===== src/Framing/RoundTrip.antt =====
-- A frame that `pack_frame` wrote, read back.
use vynkor_sdk_python.Prelude.{
  ℕ, ◌<◌, ◌≤◌, ◌≡◌, refl, sym, ap, ◌∙◌, Bool, true, false, [], ◌∷◌, ◌++◌, arith, ltb, length,
  Option, none, some, append_assoc,
}
use vynkor_sdk_python.Errors.{Str, Bytes, ok, raise_if-eq-ok, ok-injective, >>=-eq-ok}
use vynkor_sdk_python.Py.Text.{str_eq_refl}
use vynkor_sdk_python.Py.Crc.{checksum}
use vynkor_sdk_python.Framing.Primitives.{Primitives, IsSound, max_payload}
use vynkor_sdk_python.Framing.Header.{
  Header, magic_number, flag_mac_present, flag_compressed, has, target_bytes, header_of,
  pack_header, header_bytes_for,
}
use vynkor_sdk_python.Framing.Layout.{
  length-target_bytes, length-pack_header, unpack_header-pack_header, header_bytes_for_total,
  pack_header_flags,
}
use vynkor_sdk_python.Framing.Flags.{
  has_compressed_set, without_compressed-set, le-set_compressed, has_mac_set, has_compressed-mac,
}
use vynkor_sdk_python.Framing.Mac.{compute_tag, verify_tag}
use vynkor_sdk_python.Framing.Pack.{mac_flags, sign, wire_form, assemble, pack_frame}
use vynkor_sdk_python.Framing.Stream.{read-append}
use vynkor_sdk_python.Framing.Read.{
  decompress, normalize, read_header, read_payload, check_mac, parse_frame,
}

-- The header in front of a stream.
pub read_header-append :
    (h : Header) (b rest : Bytes)
    → length h.target ≡ 32
    → h.magic ≡ magic_number
    → h.size ≤ max_payload
    → pack_header h ≡ ok b
    → read_header (b ++ rest) ≡ (ok h, rest)
unfolding read_header
read_header-append h b rest l m s e =
    rw (read-append 44 b rest (length-pack_header h b l e))
      (ground (arith, length-pack_header h b l e, unpack_header-pack_header h b l e))

-- The payload behind it.
pub read_payload-append :
    (h : Header) (b rest : Bytes)
    → h.size ≡ length b
    → h.crc ≡ checksum b
    → read_payload h (b ++ rest) ≡ (ok b, rest)
unfolding read_payload
read_payload-append h [] rest l c = ground arith
read_payload-append h (x ∷ b) rest l c = ground (arith, read-append h.size (x ∷ b) rest (sym l))

-- Flags that announce a tag come with a key.
abbrev pub Taggable : Option Bytes → ℕ → Type 0
Taggable none flags = has flags flag_mac_present ≡ false
Taggable (some key) flags = Unit

module _ (prim : Primitives) (sound : IsSound prim) where
  open sound use {digest_size, decompress-compress}

  decompress-zstd_compress :
      (b : Bytes) → length b ≤ max_payload → decompress prim (prim.zstd_compress b) ≡ ok b
  unfolding decompress
  decompress-zstd_compress b h = rw (decompress-compress b h) (ground arith)

  -- Whatever form a payload took on the wire, the reader rebuilds the plaintext and its header.
  normalize-wire_form :
      (compress : Bool) (flags : ℕ) (target payload header : Bytes)
      → length payload ≤ max_payload
      → has flags flag_compressed ≡ false
      → header_bytes_for flags target payload ≡ ok header
      → let (f, w) = wire_form prim compress flags payload in
        normalize prim f target w ≡ ok (flags, header, payload)
  unfolding wire_form normalize
  normalize-wire_form compress flags target payload header l c e = ground (
    arith,
    has_compressed_set flags,
    without_compressed-set flags,
    decompress-zstd_compress payload,
  )

  verify_tag-compute_tag :
      (key header payload : Bytes)
      → verify_tag prim key header payload (compute_tag prim key header payload) ≡ true
  unfolding verify_tag
  verify_tag-compute_tag key header payload = str_eq_refl _

  -- The receiver takes the tag that the sender made.
  check_mac-signed :
      (key : Bytes) (flags : ℕ) (header payload rest : Bytes)
      → has flags flag_mac_present ≡ true
      → check_mac prim
          (some key)
          (flags, header, payload)
          (compute_tag prim key header payload ++ rest)
        ≡ (ok tt, rest)
  unfolding check_mac
  check_mac-signed key flags header payload rest h =
      let size : length (compute_tag prim key header payload) ≡ 32 =
        unfold compute_tag in digest_size key (header ++ payload) in
      rw h (
        rw (read-append 32 (compute_tag prim key header payload) rest size)
          (ground (arith, size, verify_tag-compute_tag key header payload)))

  -- What went onto the wire is never longer than the payload.
  pub wire_form-le :
      (compress : Bool) (flags : ℕ) (payload : Bytes)
      → length (wire_form prim compress flags payload).1 ≤ length payload
  unfolding wire_form
  wire_form-le compress flags payload = ground arith

  wire_form_flags :
      (compress : Bool) (flags : ℕ) (payload : Bytes)
      → flags ≤ (wire_form prim compress flags payload).0
  unfolding wire_form
  wire_form_flags compress flags payload = ground (arith, le-set_compressed flags)

  -- The tag that goes with a key.
  abbrev pub TagFor : Option Bytes → Bytes → Bytes → Bytes → Type 0
  TagFor none header payload tag = tag ≡ []
  TagFor (some key) header payload tag = tag ≡ compute_tag prim key header payload

  sign-TagFor :
      (key : Option Bytes) (flags : ℕ) (target : Str) (payload t header tag : Bytes)
      → target_bytes target ≡ ok t
      → header_bytes_for flags t payload ≡ ok header
      → sign prim key flags target payload ≡ ok tag
      → TagFor key header payload tag
  unfolding sign
  sign-TagFor none flags target payload t header tag te he se = ground arith
  sign-TagFor (some key) flags target payload t header tag te he se = ground arith

  -- The reader that holds the sender's key accepts the tag.
  check_mac-TagFor :
      (key : Option Bytes) (flags : ℕ) (header payload tag rest : Bytes)
      → Taggable key flags
      → TagFor key header payload tag
      → check_mac prim key (mac_flags key flags, header, payload) (tag ++ rest) ≡ (ok tt, rest)
  check_mac-TagFor none flags header payload tag rest g e = rw e (unfold check_mac in ground arith)
  check_mac-TagFor (some key) flags header payload tag rest g e =
      rw e (check_mac-signed key _ header payload rest (has_mac_set flags))

  -- What a frame is made of.
  pub record Packed (key : Option Bytes) (flags : ℕ) (payload frame : Bytes) (form : ℕ × Bytes)
      : Type 0 where
    pub target : Bytes
    pub head : Bytes
    pub plain_header : Bytes
    pub tag : Bytes
    pub wide : length target ≡ 32
    pub small : length form.1 ≤ max_payload
    pub packed : pack_header (header_of form.0 target form.1) ≡ ok head
    pub whole : frame ≡ head ++ (form.1 ++ tag)
    pub plain : normalize prim form.0 target form.1 ≡ ok (flags, plain_header, payload)
    pub tagged : TagFor key plain_header payload tag

  mac_flags_clear :
      (key : Option Bytes) (flags : ℕ)
      → has flags flag_compressed ≡ false
      → has (mac_flags key flags) flag_compressed ≡ false
  mac_flags_clear none flags c = c
  mac_flags_clear (some key) flags c = has_compressed-mac flags ∙ c

  pub pack_frame-Packed :
      (target : Str) (payload : Bytes) (flags : ℕ) (key : Option Bytes) (compress : Bool)
      (frame : Bytes)
      → has flags flag_compressed ≡ false
      → pack_frame prim target payload flags key compress ≡ ok frame
      → Packed key
          (mac_flags key flags)
          payload
          frame
          (wire_form prim compress (mac_flags key flags) payload)
  unfolding pack_frame assemble
  pack_frame-Packed target payload flags key compress frame c e =
      let signed = mac_flags key flags in
      let (fits, e₁) = raise_if-eq-ok (ltb max_payload (length payload)) _ _ e in
      let (tag, se, e₂) = >>=-eq-ok (sign prim key signed target payload) _ e₁ in
      let (t, te, e₃) = >>=-eq-ok (target_bytes target) _ e₂ in
      let form = wire_form prim compress signed payload in
      let (head, packed, whole) = >>=-eq-ok (pack_header (header_of form.0 t form.1)) _ e₃ in
      let small : length payload ≤ max_payload = ground arith in
      let range : signed < 65536 = omega (
        arith,
        wire_form_flags compress signed payload,
        pack_header_flags (header_of form.0 t form.1) head packed,
      ) in
      let (header, he) = header_bytes_for_total signed t payload range small in
      record {
        target = t;
        head = head;
        plain_header = header;
        tag = tag;
        wide = length-target_bytes target t te;
        small = omega (arith, wire_form-le compress signed payload);
        packed = packed;
        whole = sym (ok-injective whole);
        plain =
            normalize-wire_form compress signed t payload header small (mac_flags_clear key flags c)
              he;
        tagged = sign-TagFor key signed target payload t header tag te he se;
      }

  -- A frame of known parts, with anything behind it, read under a key that accepts its tag.
  pub parse_frame-Packed :
      (key : Option Bytes) (flags : ℕ) (payload frame rest : Bytes) (form : ℕ × Bytes)
      → Taggable key flags
      → Packed key (mac_flags key flags) payload frame form
      → parse_frame prim key (frame ++ rest) ≡ (ok (mac_flags key flags, payload), rest)
  unfolding parse_frame
  parse_frame-Packed key flags payload frame rest form g p =
      let h = header_of form.0 p.target form.1 in
      let cut : frame ++ rest ≡ p.head ++ (form.1 ++ (p.tag ++ rest)) =
        ap (λ x. x ++ rest) p.whole
        ∙ append_assoc p.head (form.1 ++ p.tag) rest
        ∙ ap (◌++◌ p.head) (append_assoc form.1 p.tag rest) in
      rw cut (
        rw (read_header-append h p.head (form.1 ++ (p.tag ++ rest)) p.wide refl p.small p.packed) (
          rw (read_payload-append h form.1 (p.tag ++ rest) refl refl) (
            rw (p.plain, check_mac-TagFor key flags p.plain_header payload p.tag rest g p.tagged))))

  -- A frame that `pack_frame` built, with any key and with compression on or off, is read back to
  -- its payload and flags by the reader that has the same key, and the stream stands right behind
  -- the frame, whatever follows. The caller's flags do not say that the payload is compressed
  -- already, nor that there is a tag where there is no key.
  pub parse_frame-pack_frame :
      (target : Str) (payload : Bytes) (flags : ℕ) (key : Option Bytes) (compress : Bool)
      (frame rest : Bytes)
      → has flags flag_compressed ≡ false
      → Taggable key flags
      → pack_frame prim target payload flags key compress ≡ ok frame
      → parse_frame prim key (frame ++ rest) ≡ (ok (mac_flags key flags, payload), rest)
  parse_frame-pack_frame target payload flags key compress frame rest c g e =
      parse_frame-Packed key flags payload frame rest _ g
        (pack_frame-Packed target payload flags key compress frame c e)
