-- ===== src/Framing/Truncated.antt =====
-- A frame of which the end is missing.
use vynkor_sdk_python.Prelude.{
  ℕ, ◌<◌, ◌≡◌, refl, sym, ap, ◌∙◌, inl, inr, Bool, true, false, [], ◌∷◌, ◌++◌, arith, lt→ltb,
  length, length-append, length-take, take, Option, none, some, cut_cases,
}
use vynkor_sdk_python.Errors.{Str, Bytes, Result, ok, err, io_error}
use vynkor_sdk_python.Py.Text.{str}
use vynkor_sdk_python.Framing.Primitives.{Primitives, IsSound}
use vynkor_sdk_python.Framing.Header.{Header, flag_mac_present, flag_compressed, has, header_of}
use vynkor_sdk_python.Framing.Layout.{length-pack_header}
use vynkor_sdk_python.Framing.Flags.{has_mac_set}
use vynkor_sdk_python.Framing.Mac.{compute_tag}
use vynkor_sdk_python.Framing.Pack.{mac_flags, wire_form, pack_frame}
use vynkor_sdk_python.Framing.Stream.{read}
use vynkor_sdk_python.Framing.Read.{
  Plain, normalize, read_header, read_payload, check_mac, parse_frame, read_frame_from_bytes,
}
use vynkor_sdk_python.Framing.RoundTrip.{
  TagFor, pack_frame-Packed, read_header-append, read_payload-append,
}

-- `VynkorIoError`, whatever its text.
abbrev pub IsTruncated {ℓ} : {A : Type ℓ} → Result A → Type ℓ
IsTruncated r = (text : Str) × (r ≡ err (io_error text))

read_header_short :
    (s : Bytes) → length s < 44 → (read_header s).0 ≡ err (io_error (str "truncated frame header"))
unfolding read_header read
read_header_short s h = rw (lt→ltb (length (take 44 s)) 44 (omega (arith, length-take 44 s)))

read_payload_short :
    (h : Header) (s : Bytes)
    → length s < h.size
    → (read_payload h s).0 ≡ err (io_error (str "truncated frame payload"))
unfolding read_payload read
read_payload_short h s l =
    rw (lt→ltb 0 h.size (omega arith))
      (rw (lt→ltb (length (take h.size s)) h.size (omega (arith, length-take h.size s))))

module _ (prim : Primitives) where
  check_mac_short :
      (key : Option Bytes) (flags : ℕ) (header payload s : Bytes)
      → has flags flag_mac_present ≡ true
      → length s < 32
      → (check_mac prim key (flags, header, payload) s).0 ≡ err (io_error (str "truncated MAC tag"))
  unfolding check_mac read
  check_mac_short key flags header payload s f l =
      rw f (rw (lt→ltb (length (take 32 s)) 32 (omega (arith, length-take 32 s))))

  -- A parse that stops at one of its steps.
  parse_frame_header :
      (key : Option Bytes) (s : Bytes) (text : Str)
      → (read_header s).0 ≡ err (io_error text)
      → IsTruncated (parse_frame prim key s).0
  unfolding parse_frame
  parse_frame_header key s text e = (text, ground arith)

  parse_frame_payload :
      (key : Option Bytes) (s rest : Bytes) (h : Header) (text : Str)
      → read_header s ≡ (ok h, rest)
      → (read_payload h rest).0 ≡ err (io_error text)
      → IsTruncated (parse_frame prim key s).0
  unfolding parse_frame
  parse_frame_payload key s rest h text p e = (text, ground arith)

  parse_frame_mac :
      (key : Option Bytes) (s rest behind wire : Bytes) (h : Header) (plain : Plain) (text : Str)
      → read_header s ≡ (ok h, rest)
      → read_payload h rest ≡ (ok wire, behind)
      → normalize prim h.flags h.target wire ≡ ok plain
      → (check_mac prim key plain behind).0 ≡ err (io_error text)
      → IsTruncated (parse_frame prim key s).0
  unfolding parse_frame
  parse_frame_mac key s rest behind wire h plain text p q n e = (text, ground arith)

module _ (prim : Primitives) (sound : IsSound prim) where
  open sound use {digest_size}

  -- Where a tag is expected, less than the tag is not enough.
  check_mac_cut :
      (key : Option Bytes) (flags : ℕ) (header payload tag front back : Bytes) (x : ℕ)
      → TagFor prim sound key header payload tag
      → front ++ (x ∷ back) ≡ tag
      → (check_mac prim key (mac_flags key flags, header, payload) front).0
        ≡ err (io_error (str "truncated MAC tag"))
  check_mac_cut none flags header payload tag [] back x e p = absurd (cc)
  check_mac_cut none flags header payload tag (y ∷ front) back x e p = absurd (cc)
  check_mac_cut (some key) flags header payload tag front back x e p =
      let size : length tag ≡ 32 =
        rw e (unfold compute_tag in digest_size key (header ++ payload)) in
      check_mac_short prim (some key) _ header payload front (has_mac_set flags)
        (omega (arith, size, ap length p, length-append front (x ∷ back)))

  -- Of a frame that `pack_frame` built, every proper front, down to no byte at all, is refused with
  -- `VynkorIoError` by the reader that has the sender's key, never with another error and never
  -- taken for a frame. The caller's flags do not say that the payload is compressed already.
  pub read_frame_from_bytes-IsTruncated :
      (target : Str) (payload : Bytes) (flags : ℕ) (key : Option Bytes) (compress : Bool)
      (frame front back : Bytes) (x : ℕ)
      → has flags flag_compressed ≡ false
      → pack_frame prim target payload flags key compress ≡ ok frame
      → frame ≡ front ++ (x ∷ back)
      → IsTruncated (read_frame_from_bytes prim front key)
  unfolding read_frame_from_bytes
  read_frame_from_bytes-IsTruncated target payload flags key compress frame front back x c e cut =
      let p = pack_frame-Packed prim sound target payload flags key compress frame c e in
      let (f, w) = wire_form prim compress (mac_flags key flags) payload in
      let h = header_of f p.target w in
      let size = length-pack_header h p.head p.wide p.packed in
      elim (cut_cases front p.head (w ++ p.tag) back x (sym cut ∙ p.whole)) [
        | inl short ↦
            parse_frame_header prim key front _ (read_header_short front (omega (arith, size)))
        | inr (rest, at_head, left) ↦
            let seen : read_header front ≡ (ok h, rest) =
              rw at_head (read_header-append h p.head rest p.wide refl p.small p.packed) in
            elim (cut_cases rest w p.tag back x left) [
              | inl short ↦
                  parse_frame_payload prim key front rest h _ seen (read_payload_short h rest short)
              | inr (behind, at_payload, last) ↦
                  parse_frame_mac prim key front rest behind w h _ _ seen
                    (rw at_payload (read_payload-append h w behind refl refl)) p.plain
                    (check_mac_cut key flags p.plain_header payload p.tag behind back x p.tagged
                      last)
            ]
      ]
