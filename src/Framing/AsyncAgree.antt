-- ===== src/Framing/AsyncAgree.antt =====
-- vynkor/framing.py: `async_read_frame` and `read_frame_from_bytes` on the same bytes.
use vynkor_sdk_python.Prelude.{
  ℕ, ◌+◌, ◌≡◌, refl, sym, inl, inr, true, false, not, [], ◌∷◌, ◌++◌, ltb, leb, ◌==◌, length, take,
  drop, Option, arith, Bool-cases, length-take,
}
use vynkor_sdk_python.Errors.{
  Bytes, Error, Result, ok, err, io_error, internal, frame_magic_mismatch, frame_crc_mismatch,
  payload_too_large,
}
use vynkor_sdk_python.Py.Text.{str}
use vynkor_sdk_python.Py.Crc.{checksum}
use vynkor_sdk_python.Framing.Primitives.{Primitives, max_payload}
use vynkor_sdk_python.Framing.Header.{Header, magic_number, flag_mac_present, has, unpack_header}
use vynkor_sdk_python.Framing.Stream.{Stream, read}
use vynkor_sdk_python.Framing.Stream
use vynkor_sdk_python.Framing.Read.{
  Plain, normalize, forged, is_some, read_header, read_payload, check_mac, parse_frame,
  read_frame_from_bytes,
}
use vynkor_sdk_python.Framing.Async
use vynkor_sdk_python.Framing.Async.{
  Timed, Reader, bytes_of, in_time, Async, readexactly, async_header, async_payload, async_mac,
  read_body, async_read_frame,
}
use vynkor_sdk_python.Framing.Simulation.{
  IsLate, Translates, Follows, Simulates, Follows-proceed, Simulates-bind, Simulates-pure,
  Simulates-lift, Simulates-fail_if, Simulates-check, read_all, read_too_few, Simulates-read,
  length-bytes_of, bytes_of-drop, in_time-drop,
}

module _ (prim : Primitives) (closes deadline : ℕ) (later : Reader)
    (late : IsLate deadline later) where
  async_payload-Simulates :
      (h : Header)
      → Simulates deadline later (read_payload h) (async_payload prim closes deadline h)
  unfolding read_payload async_payload
  async_payload-Simulates h = elim (Bool-cases (ltb 0 h.size)) [
    | inl e ↦ rw e (
        Simulates-read prim closes deadline later late h.size (str "truncated frame payload")
          (λ b.
            Stream.◌>>◌ (Stream.fail_if (not (checksum b == h.crc)) frame_crc_mismatch)
              (Stream.pure b))
          (λ b.
            Async.◌>>◌ (Async.fail_if (not (checksum b == h.crc)) frame_crc_mismatch)
              (Async.pure b))
          (λ b.
            Simulates-fail_if deadline later (not (checksum b == h.crc)) frame_crc_mismatch
              (Stream.pure b) (Async.pure b) (Simulates-pure deadline later _)))
    | inr e ↦
        let checked : Simulates deadline later
            (Stream.◌>>◌ (Stream.fail_if (ltb 0 h.size) (io_error (str "truncated frame payload")))
              (Stream.◌>>◌ (Stream.fail_if (not (checksum [] == h.crc)) frame_crc_mismatch)
                (Stream.pure {A = Bytes} [])))
            (Async.◌>>◌ (Async.fail_if (not (checksum [] == h.crc)) frame_crc_mismatch)
              (Async.pure {A = Bytes} [])) =
          rw e (
            Simulates-fail_if deadline later (not (checksum [] == h.crc)) frame_crc_mismatch
              (Stream.pure []) (Async.pure []) (Simulates-pure deadline later _)) in
        rw e checked
  ]

  async_mac-Simulates :
      (key : Option Bytes) (plain : Plain)
      → Simulates deadline later
          (check_mac prim key plain)
          (async_mac prim closes deadline key plain)
  unfolding check_mac async_mac
  async_mac-Simulates key (flags, header, payload) =
      elim (Bool-cases (has flags flag_mac_present)) [
        | inl e ↦ rw e (
            Simulates-read prim closes deadline later late 32 (str "truncated MAC tag")
              (λ tag.
                Stream.fail_if (forged prim key header payload tag)
                  (internal (str "frame MAC verification failed")))
              (λ tag.
                Async.fail_if (forged prim key header payload tag)
                  (internal (str "frame MAC verification failed")))
              (λ tag. Simulates-check deadline later (forged prim key header payload tag) _))
        | inr e ↦ rw e (Simulates-check deadline later (is_some key) _)
      ]

  -- The checks on a header that has been unpacked.
  header_checks-Simulates :
      (h : Header)
      → Simulates deadline later
          (Stream.◌>>◌ (Stream.fail_if (not (h.magic == magic_number)) frame_magic_mismatch) (
            Stream.◌>>◌
              (Stream.fail_if (ltb max_payload h.size) (payload_too_large h.size))
              (Stream.pure h)))
          (Async.◌>>◌ (Async.fail_if (not (h.magic == magic_number)) frame_magic_mismatch) (
            Async.◌>>◌
              (Async.fail_if (ltb max_payload h.size) (payload_too_large h.size))
              (Async.pure h)))
  header_checks-Simulates h =
      Simulates-fail_if deadline later (not (h.magic == magic_number)) frame_magic_mismatch _ _ (
        Simulates-fail_if deadline later (ltb max_payload h.size) (payload_too_large h.size) _ _
          (Simulates-pure deadline later h))

  async_header-Follows :
      (x : Timed) (ts : Reader)
      → in_time deadline ts ≡ true
      → Follows deadline later
          (read_header (x.byte ∷ bytes_of ts))
          (async_header prim closes deadline (x.byte ∷ []) (ts ++ later))
  unfolding read_header async_header read
  async_header-Follows x ts t = elim (Bool-cases (leb 43 (length ts))) [
    | inl e ↦
        let full : ltb (length (take 44 (x.byte ∷ bytes_of ts))) 44 ≡ false =
          ground (arith, length-take 43 (bytes_of ts), length-bytes_of ts) in
        rw (full, read_all prim closes deadline later late 43 ts t e, sym (bytes_of-drop 43 ts))
          (Simulates-bind deadline later
            (Stream.lift (unpack_header (x.byte ∷ take 43 (bytes_of ts))))
            (Async.lift (unpack_header (x.byte ∷ take 43 (bytes_of ts)))) _ _
            (Simulates-lift deadline later (unpack_header (x.byte ∷ take 43 (bytes_of ts))))
            header_checks-Simulates (drop 43 ts) (in_time-drop deadline 43 ts t))
    | inr e ↦
        let short : ltb (length (take 44 (x.byte ∷ bytes_of ts))) 44 ≡ true =
          ground (arith, length-take 43 (bytes_of ts), length-bytes_of ts) in
        let (cut, raised, is_cut) = read_too_few prim closes deadline later late 43 ts e in
        rw (short, raised) (cut, refl, inr (str "truncated frame header", refl, is_cut))
  ]

  pub read_body-Follows :
      (key : Option Bytes) (x : Timed) (ts : Reader)
      → in_time deadline ts ≡ true
      → Follows deadline later
          (parse_frame prim key (x.byte ∷ bytes_of ts))
          (read_body prim closes deadline key (x.byte ∷ []) (ts ++ later))
  unfolding parse_frame read_body
  read_body-Follows key x ts t =
      Follows-proceed deadline later (read_header (x.byte ∷ bytes_of ts))
        (async_header prim closes deadline (x.byte ∷ []) (ts ++ later)) _ _
        (async_header-Follows x ts t)
        λ h.
          Simulates-bind deadline later (read_payload h) (async_payload prim closes deadline h) _ _
            (async_payload-Simulates h)
            λ wire.
              Simulates-bind deadline later (Stream.lift (normalize prim h.flags h.target wire))
                (Async.lift (normalize prim h.flags h.target wire)) _ _
                (Simulates-lift deadline later (normalize prim h.flags h.target wire))
                λ plain.
                  Simulates-bind deadline later (check_mac prim key plain)
                    (async_mac prim closes deadline key plain) _ _ (async_mac-Simulates key plain)
                    λ done. Simulates-pure deadline later (plain.0, plain.2)

-- `x` is `y`, but for the exceptions that stand for the stream's end.
abbrev pub IsSameFrame : Result (ℕ × Bytes) → Result (ℕ × Bytes) → Type 0
IsSameFrame (ok frame) y = y ≡ ok frame
IsSameFrame (err e) y = (e' : Error) × (y ≡ err e') × Translates e e'

Follows-IsSameFrame :
    (deadline : ℕ) (later : Reader) (x : Result (ℕ × Bytes) × Bytes)
    → (y : Result (ℕ × Bytes) × Reader) → Follows deadline later x y
    → IsSameFrame x.0 y.0
Follows-IsSameFrame deadline later (ok frame, s) (r, ts) (e, rest) = e
Follows-IsSameFrame deadline later (err e, s) (r, ts) h = h

-- Take the bytes that come within the frame's time of the first one, `t ∷ ts`. `async_read_frame`
-- returns the flags and the payload that `read_frame_from_bytes` returns on these bytes, and raises
-- the exception that it raises, or IncompleteReadError or VynkorFrameReadTimeout in place of
-- VynkorIoError.
pub async_read_frame-read_frame_from_bytes :
    (prim : Primitives) (closes : ℕ) (key : Option Bytes) (frame_timeout : ℕ) (t : Timed)
    → (ts later : Reader) → in_time (t.at + frame_timeout) ts ≡ true
    → IsLate (t.at + frame_timeout) later
    → IsSameFrame
        (read_frame_from_bytes prim (bytes_of (t ∷ ts)) key)
        (async_read_frame prim closes key frame_timeout (t ∷ (ts ++ later))).0
unfolding read_frame_from_bytes async_read_frame
async_read_frame-read_frame_from_bytes prim closes key frame_timeout t ts later i l =
    Follows-IsSameFrame (t.at + frame_timeout) later (parse_frame prim key (t.byte ∷ bytes_of ts)) _
      (read_body-Follows prim closes (t.at + frame_timeout) later l key t ts i)
