-- ===== src/Framing/Suffix.antt =====
-- vynkor/framing.py: `async_read_frame` takes exactly the bytes of a frame.
use vynkor_sdk_python.Prelude.{
  ℕ, ◌+◌, ◌≡◌, refl, sym, ap, subst, ◌∙◌, Bool, true, false, not, ◌==◌, [], ◌∷◌, ◌++◌, ltb, leb,
  length, take, drop, Option, arith, Bool-cases, inl, inr, if◌then◌else◌, length-append,
  take-append-drop, drop-append, append-nil, append_assoc,
}
use vynkor_sdk_python.Errors.{
  Bytes, Error, Result, ok, err, frame_magic_mismatch, frame_crc_mismatch, payload_too_large,
  internal,
}
use vynkor_sdk_python.Py.Text.{str}
use vynkor_sdk_python.Py.Crc.{checksum}
use vynkor_sdk_python.Framing.Primitives.{Primitives, max_payload}
use vynkor_sdk_python.Framing.Header.{Header, magic_number, unpack_header, has, flag_mac_present}
use vynkor_sdk_python.Framing.Read.{Plain, parse_frame, normalize, forged, is_some}
use vynkor_sdk_python.Framing.Async
use vynkor_sdk_python.Framing.Async.{
  Timed, Reader, bytes_of, in_time, Async, readexactly, async_header, async_payload, async_mac,
  read_body, async_read_frame,
}
use vynkor_sdk_python.Framing.Simulation.{length-bytes_of, IsLate, Follows}
use vynkor_sdk_python.Framing.AsyncAgree.{read_body-Follows}

-- What is left of a reader stands at its end.
abbrev IsSuffix : Reader → Reader → Type 0
IsSuffix ts rest = (front : Reader) × (ts ≡ front ++ rest)

-- A read takes from the front.
abbrev Takes {ℓ} : {A : Type ℓ} → Async A → Type 0
Takes m = (ts : Reader) → IsSuffix ts (m ts).1

IsSuffix-refl : (ts : Reader) → IsSuffix ts ts
IsSuffix-refl ts = ([], refl)

IsSuffix-trans : (a b c : Reader) → IsSuffix a b → IsSuffix b c → IsSuffix a c
IsSuffix-trans a b c (x, e) (y, f) = (x ++ y, e ∙ ap (λ r. x ++ r) f ∙ sym (append_assoc x y c))

module _ {ℓ κ} {A : Type ℓ} {B : Type κ} where
  proceed-IsSuffix :
      (r : Result A) (f : A → Async B) (ts : Reader)
      → ((a : A) → Takes (f a))
      → IsSuffix ts (Async.proceed r f ts).1
  proceed-IsSuffix (ok a) f ts k = k a ts
  proceed-IsSuffix (err e) f ts k = IsSuffix-refl ts

  bind-Takes :
      (m : Async A) (f : A → Async B) → Takes m → ((a : A) → Takes (f a)) → Takes (Async.◌>>=◌ m f)
  bind-Takes m f h k ts =
      IsSuffix-trans ts (m ts).1 (Async.proceed (m ts).0 f (m ts).1).1 (h ts)
        (proceed-IsSuffix (m ts).0 f (m ts).1 k)

fail_if-Takes : (test : Bool) (e : Error) → Takes (Async.fail_if test e)
fail_if-Takes true e ts = IsSuffix-refl ts
fail_if-Takes false e ts = IsSuffix-refl ts

module _ (prim : Primitives) (closes deadline : ℕ) where
  readexactly-Takes : (n : ℕ) → Takes (readexactly prim closes deadline n)
  unfolding readexactly
  readexactly-Takes n ts = elim (Bool-cases (leb n (length ts))) [
    | inl enough ↦ rw enough (elim (Bool-cases (in_time deadline (take n ts))) [
      | inl y ↦ rw y (take n ts, sym (take-append-drop n ts))
      | inr z ↦ rw z (IsSuffix-refl ts)
    ])
    | inr short ↦ rw short (elim (Bool-cases (ltb closes deadline)) [
      | inl y ↦ rw y (ts, sym (append-nil ts))
      | inr z ↦ rw z (IsSuffix-refl ts)
    ])
  ]

  header-Takes : (first : Bytes) → Takes (async_header prim closes deadline first)
  unfolding async_header
  header-Takes first =
      bind-Takes (readexactly prim closes deadline 43) _ (readexactly-Takes 43) (λ rest.
        bind-Takes (Async.lift (unpack_header (first ++ rest))) _ (λ ts. IsSuffix-refl ts)
          (λ h.
            bind-Takes (Async.fail_if (not (h.magic == magic_number)) frame_magic_mismatch) _
              (fail_if-Takes (not (h.magic == magic_number)) frame_magic_mismatch)
              (λ same.
                bind-Takes (Async.fail_if (ltb max_payload h.size) (payload_too_large h.size)) _
                  (fail_if-Takes (ltb max_payload h.size) (payload_too_large h.size))
                  (λ fits ts. IsSuffix-refl ts))))

  payload-Takes : (h : Header) → Takes (async_payload prim closes deadline h)
  unfolding async_payload
  payload-Takes h =
      bind-Takes (if ltb 0 h.size then readexactly prim closes deadline h.size else Async.pure []) _
        (some_bytes-Takes (ltb 0 h.size) h.size)
        (λ payload.
          bind-Takes (Async.fail_if (not (checksum payload == h.crc)) frame_crc_mismatch) _
            (fail_if-Takes (not (checksum payload == h.crc)) frame_crc_mismatch)
            (λ same ts. IsSuffix-refl ts))
    where
      some_bytes-Takes :
          (test : Bool) (n : ℕ)
          → Takes (if test then readexactly prim closes deadline n else Async.pure [])
      some_bytes-Takes true n ts = readexactly-Takes n ts
      some_bytes-Takes false n ts = IsSuffix-refl ts

  mac-Takes :
      (key : Option Bytes) (plain : Plain) → Takes (async_mac prim closes deadline key plain)
  unfolding async_mac
  mac-Takes key (flags, header, payload) = elim (Bool-cases (has flags flag_mac_present)) [
    | inl y ↦ rw y (
        bind-Takes (readexactly prim closes deadline 32) _ (readexactly-Takes 32) (λ tag.
          fail_if-Takes (forged prim key header payload tag)
            (internal (str "frame MAC verification failed"))))
    | inr z ↦
        rw z (fail_if-Takes (is_some key) (internal (str "MAC missing on secured connection")))
  ]

  read_body-Takes :
      (key : Option Bytes) (first : Bytes) → Takes (read_body prim closes deadline key first)
  unfolding read_body
  read_body-Takes key first =
      bind-Takes (async_header prim closes deadline first) _ (header-Takes first) (λ h.
        bind-Takes (async_payload prim closes deadline h) _ (payload-Takes h) (λ wire.
          bind-Takes (Async.lift (normalize prim h.flags h.target wire)) _ (λ ts. IsSuffix-refl ts)
            (λ plain.
              bind-Takes (async_mac prim closes deadline key plain) _ (mac-Takes key plain)
                (λ done ts. IsSuffix-refl ts))))

-- The bytes of a reader before the first late one, and the others.
abbrev early : ℕ → Reader → Reader
early deadline [] = []
early deadline (t ∷ ts) = if ltb t.at deadline then t ∷ early deadline ts else []

abbrev late : ℕ → Reader → Reader
late deadline [] = []
late deadline (t ∷ ts) = if ltb t.at deadline then late deadline ts else t ∷ ts

early-late :
    (deadline : ℕ) (ts : Reader)
    → (early deadline ts ++ late deadline ts ≡ ts)
      × (in_time deadline (early deadline ts) ≡ true)
      × IsLate deadline (late deadline ts)
unfolding in_time
early-late deadline [] = (refl, refl, tt)
early-late deadline (t ∷ ts) = elim (Bool-cases (ltb t.at deadline)) [
  | inl y ↦
      let (whole, timely, after) = early-late deadline ts in
      rw y (ap (◌∷◌ t) whole, rw (y, timely) refl, after)
  | inr z ↦ rw z (refl, refl, ground arith)
]

in_time-append :
    (deadline : ℕ) (xs ys : Reader)
    → in_time deadline xs ≡ true
    → in_time deadline ys ≡ true
    → in_time deadline (xs ++ ys) ≡ true
unfolding in_time
in_time-append deadline [] ys x y = y
in_time-append deadline (t ∷ xs) ys x y = ground (arith, in_time-append deadline xs ys)

pub bytes_of-append : (xs ys : Reader) → bytes_of (xs ++ ys) ≡ bytes_of xs ++ bytes_of ys
bytes_of-append [] ys = refl
bytes_of-append (t ∷ xs) ys = ap (◌∷◌ t.byte) (bytes_of-append xs ys)

-- Two ends of one reader that are equally long are one.
IsSuffix-same :
    (ts front rest : Reader)
    → IsSuffix (ts ++ rest) front
    → length front ≡ length rest
    → front ≡ rest
IsSuffix-same ts front rest (taken, e) same =
    let sizes : length taken ≡ length ts =
      omega (arith, ap length e, length-append ts rest, length-append taken front) in
    sym (drop-append (length ts) taken front sizes)
    ∙ ap (drop (length ts)) (sym e)
    ∙ drop-append (length ts) ts rest refl

-- The bytes of a frame that come within its time, with anything behind them, late or not:
-- `async_read_frame` returns what `parse_frame` reads from them, and takes just them.
pub async_read_frame_exact :
    (prim : Primitives) (closes : ℕ) (key : Option Bytes) (frame_timeout : ℕ) (t : Timed)
    (ts rest : Reader) (frame : ℕ × Bytes)
    → in_time (t.at + frame_timeout) ts ≡ true
    → ((next : Bytes) → parse_frame prim key (bytes_of (t ∷ ts) ++ next) ≡ (ok frame, next))
    → async_read_frame prim closes key frame_timeout (t ∷ (ts ++ rest)) ≡ (ok frame, rest)
unfolding async_read_frame
async_read_frame_exact prim closes key frame_timeout t ts rest frame timely reads =
    let deadline = t.at + frame_timeout in
    let more = early deadline rest in
    let later = late deadline rest in
    let (split, soon, after) = early-late deadline rest in
    let parsed =
      ap (λ b. parse_frame prim key (t.byte ∷ b)) (bytes_of-append ts more)
      ∙ reads (bytes_of more) in
    let follows : Follows deadline later (ok frame, bytes_of more)
        (read_body prim closes deadline key (t.byte ∷ []) ((ts ++ more) ++ later)) =
      subst
        (λ x.
          Follows deadline later x
            (read_body prim closes deadline key (t.byte ∷ []) ((ts ++ more) ++ later)))
        parsed
        (read_body-Follows prim closes deadline later after key t (ts ++ more)
          (in_time-append deadline ts more timely soon)) in
    let whole : (ts ++ more) ++ later ≡ ts ++ rest =
      append_assoc ts more later ∙ ap (λ r. ts ++ r) split in
    let outcome = read_body prim closes deadline key (t.byte ∷ []) (ts ++ rest) in
    let (returned, (front, left, same_bytes, in_front)) =
      subst
        (λ r.
          Follows deadline later (ok frame, bytes_of more)
            (read_body prim closes deadline key (t.byte ∷ []) r))
        whole follows in
    let count : length outcome.1 ≡ length rest = omega (
      arith,
      ap length left,
      ap length split,
      length-append front later,
      length-append more later,
      ap length same_bytes,
      length-bytes_of front,
      length-bytes_of more,
    ) in
    let end =
      IsSuffix-same ts outcome.1 rest
        (read_body-Takes prim closes deadline key (t.byte ∷ []) (ts ++ rest)) count in
    ap (λ r. (r, outcome.1)) returned ∙ ap (λ r. (ok frame, r)) end
