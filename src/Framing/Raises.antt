-- ===== src/Framing/Raises.antt =====
-- What the decoders raise on bytes of any content.
use vynkor_sdk_python.Prelude.{
  ℕ, ◌+◌, ◌*◌, ◌^◌, ◌<◌, ◌≤◌, ◌≡◌, refl, true, false, not, [], ◌∷◌, arith, ltb, ge→ltb, inl, inr,
  ◌⊎◌, ap, sym, subst, ◌==◌, length, take, drop, length-take, length-drop, Option, Bool-cases, All,
  All-take,
}
use vynkor_sdk_python.Errors
use vynkor_sdk_python.Errors.{
  Bytes, Error, Foreign, Result, ok, err, foreign, is_vynkor_error, frame_magic_mismatch,
  payload_too_large,
}
use vynkor_sdk_python.Framing.Primitives.{
  Primitives, Unpacked, unpacked, zstd_error, escaped, max_payload,
}
use vynkor_sdk_python.Framing.Parts.{in_parts, read_frame-in_parts}
use vynkor_sdk_python.Framing.Header.{
  Header, magic_number, header_bytes_for, flag_compressed, has, without, unpack_u16, unpack_u32,
  unpack_bytes, unpack_end, unpack_header,
}
use vynkor_sdk_python.Framing.Layout.{header_bytes_for_total}
use vynkor_sdk_python.Framing.Stream.{Stream, read, fail_if, pure, proceed, ◌>>◌}
use vynkor_sdk_python.Framing.Read.{
  Plain, bounded, decompress, normalize, read_header, read_payload, check_mac, read_frame,
}

abbrev pub IsByte : ℕ → Type 0
IsByte b = b < 256

ltb-false : (a b : ℕ) → ltb a b ≡ false → b ≤ a
ltb-false a b h = ground arith

-- No exception but a `VynkorError`.
abbrev pub RaisesVynkor {ℓ} : {A : Type ℓ} → Result A → Type 0
RaisesVynkor (ok a) = Unit {0}
RaisesVynkor (err e) = is_vynkor_error e ≡ true

four_left : (b : Bytes) → length b ≡ 4 → (c : ℕ) × (unpack_u32 b ≡ ok (c, []))
unfolding unpack_u32
four_left (a ∷ b ∷ c ∷ d ∷ []) h = (_, refl)
four_left [] h = absurd (omega arith)
four_left (a ∷ []) h = absurd (omega arith)
four_left (a ∷ b ∷ []) h = absurd (omega arith)
four_left (a ∷ b ∷ c ∷ []) h = absurd (omega arith)
four_left (a ∷ b ∷ c ∷ d ∷ e ∷ rest) h = absurd (omega arith)

-- 44 bytes always unpack, and the flags have 16 bits.
unpack_header_total :
    (b : Bytes)
    → length b ≡ 44
    → All IsByte b
    → (h : Header) × (unpack_header b ≡ ok h) × (h.flags < 65536)
unfolding unpack_header unpack_u16 unpack_bytes unpack_end unpack_u32 four_left
unpack_header_total (m ∷ m' ∷ f ∷ f' ∷ s ∷ s' ∷ s″ ∷ s‴ ∷ rest) l bytes =
    let (c, last) = four_left (drop 32 rest) (omega (arith, length-drop 32 rest)) in
    (
      record {
        magic = m * 256 + m';
        flags = f * 256 + f';
        size = s * 2 ^ 24 + s' * 2 ^ 16 + s″ * 256 + s‴;
        target = take 32 rest;
        crc = c;
      },
      rw (ge→ltb (length rest) 32 (omega arith), last),
      omega arith,
    )
unpack_header_total _ l bytes = absurd (omega arith)

abbrev HeaderResult : Result Header → Type 0
HeaderResult (ok h) = (h.flags < 65536) × (h.size ≤ max_payload)
HeaderResult (err e) = is_vynkor_error e ≡ true

read_header-HeaderResult : (s : Bytes) → All IsByte s → HeaderResult (read_header s).0
unfolding read_header read
read_header-HeaderResult s bytes = elim (Bool-cases (ltb (length (take 44 s)) 44)) [
  | inl short ↦ rw short refl
  | inr full ↦
      let (h, opened, range) =
        unpack_header_total (take 44 s) (omega (arith, length-take 44 s, ltb-false _ _ full))
          (All-take IsByte 44 s bytes) in
      rw (full, opened) (checked h (drop 44 s) range)
]
  where
    checked :
        (h : Header) (rest : Bytes)
        → h.flags < 65536
        → HeaderResult
            ((do
              fail_if (not (h.magic == magic_number)) frame_magic_mismatch
              fail_if (ltb max_payload h.size) (payload_too_large h.size)
              pure h)
              rest).0
    checked h rest range = ground arith

abbrev PayloadResult : Header → Result Bytes → Type 0
PayloadResult h (ok b) = length b ≤ max_payload
PayloadResult h (err e) = is_vynkor_error e ≡ true

read_payload-PayloadResult :
    (h : Header) (s : Bytes) → h.size ≤ max_payload → PayloadResult h (read_payload h s).0
unfolding read_payload read
read_payload-PayloadResult h s l = ground (arith, length-take h.size s)

HeaderResult-raises : (r : Result Header) → HeaderResult r → RaisesVynkor r
HeaderResult-raises (ok h) o = tt
HeaderResult-raises (err e) o = o

PayloadResult-raises : (h : Header) (r : Result Bytes) → PayloadResult h r → RaisesVynkor r
PayloadResult-raises h (ok b) o = tt
PayloadResult-raises h (err e) o = o

-- A `VynkorError`, or what zstd raised beside a `ZstdError` on at most MAX_PAYLOAD bytes.
abbrev pub IsAllowed : Primitives → Error → Type 0
IsAllowed prim e =
    (is_vynkor_error e ≡ true)
    ⊎ ((wire : Bytes) × (raised : Foreign) × (length wire ≤ max_payload)
        × (prim.zstd_decompress wire max_payload ≡ escaped raised)
        × (e ≡ foreign raised))

abbrev pub RaisesAllowed {ℓ} : {A : Type ℓ} → Primitives → Result A → Type 0
RaisesAllowed prim (ok a) = Unit {0}
RaisesAllowed prim (err e) = IsAllowed prim e

vynkor_allowed {ℓ} :
    {A : Type ℓ} (prim : Primitives) (r : Result A) → RaisesVynkor r → RaisesAllowed prim r
vynkor_allowed prim (ok a) h = tt
vynkor_allowed prim (err e) h = inl h

-- The rule for one step of a chain.
proceed_raises {ℓ κ} :
    {A : Type ℓ} {B : Type κ} (prim : Primitives) (m : Result A × Bytes) (f : A → Stream B)
    → RaisesAllowed prim m.0
    → ((a : A) (s : Bytes) → m ≡ (ok a, s) → RaisesAllowed prim (f a s).0)
    → RaisesAllowed prim (proceed m.0 f m.1).0
proceed_raises prim (ok a, s) f r k = k a s refl
proceed_raises prim (err e, s) f r k = r

rebuild_raises :
    (prim : Primitives) (wire : Bytes) (r : Unpacked) (flags : ℕ) (target : Bytes)
    → length wire ≤ max_payload
    → prim.zstd_decompress wire max_payload ≡ r
    → flags < 65536
    → RaisesAllowed {A = Plain} prim (
        Errors.◌>>=◌
          (bounded r)
          (λ plain. Errors.◌>>=◌ (header_bytes_for flags target plain) (λ h. ok (flags, h, plain))))
rebuild_raises prim wire (zstd_error e) flags target l came f = inl refl
rebuild_raises prim wire (escaped x) flags target l came f = inr (wire, x, l, came, refl)
rebuild_raises prim wire (unpacked out) flags target l came f =
    elim (Bool-cases (ltb max_payload (length out))) [
      | inl large ↦ rw large (inl refl)
      | inr small ↦
          rw (small, (header_bytes_for_total flags target out f (ltb-false _ _ small)).1) tt
    ]

module _ (prim : Primitives) where
  normalize_raises :
      (flags : ℕ) (target wire : Bytes)
      → flags < 65536
      → length wire ≤ max_payload
      → RaisesAllowed prim (normalize prim flags target wire)
  unfolding normalize decompress
  normalize_raises flags target wire f l = elim (Bool-cases (has flags flag_compressed)) [
    | inl compressed ↦ rw compressed (
        rebuild_raises prim wire (prim.zstd_decompress wire max_payload)
          (without flags flag_compressed) target l refl (omega arith))
    | inr plain ↦ rw (plain, (header_bytes_for_total flags target wire f l).1) tt
  ]

  check_mac_raises :
      (key : Option Bytes) (plain : Plain) (s : Bytes) → RaisesVynkor (check_mac prim key plain s).0
  unfolding check_mac read
  check_mac_raises key (f, header, payload) s = ground arith

  in_parts_raises :
      (key : Option Bytes) (s : Bytes) → All IsByte s → RaisesAllowed prim (in_parts prim key s).0
  in_parts_raises key s bytes =
      let header = read_header-HeaderResult s bytes in
      proceed_raises prim (read_header s) _ (vynkor_allowed prim _ (HeaderResult-raises _ header))
        λ h s₁ p.
          let (range, small) = subst HeaderResult (ap (λ m. m.0) p) header in
          let payload = read_payload-PayloadResult h s₁ small in
          proceed_raises prim (read_payload h s₁) _
            (vynkor_allowed prim _ (PayloadResult-raises h _ payload))
            λ wire s₂ q.
              let bounded_wire = subst (PayloadResult h) (ap (λ m. m.0) q) payload in
              proceed_raises prim (normalize prim h.flags h.target wire, s₂) _
                (normalize_raises h.flags h.target wire range bounded_wire)
                λ plain s₃ n.
                  proceed_raises prim (check_mac prim key plain s₃) _
                    (vynkor_allowed prim _ (check_mac_raises key plain s₃)) λ u s₄ c. tt

  -- `read_frame` raises only subclasses of `VynkorError`, on whatever bytes a stream holds, with and
  -- without a session key, unless zstd's decompression raises something beside its `ZstdError` on a
  -- payload of at most MAX_PAYLOAD bytes, which is raised as it is. No `struct.error` gets out.
  pub read_frame_raises :
      (key : Option Bytes) (s : Bytes) → All IsByte s → RaisesAllowed prim (read_frame prim key s).0
  read_frame_raises key s bytes =
      subst (λ r. RaisesAllowed prim r.0) (sym (read_frame-in_parts prim key s))
        (in_parts_raises key s bytes)
