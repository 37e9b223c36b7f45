-- ===== src/Framing/Simulation.antt =====
-- vynkor/framing.py: when reading from a `StreamReader` follows reading from a `BytesIO`.
use vynkor_sdk_python.Prelude.{
  ℕ, zero, suc, ◌≤◌, ◌<◌, ◌≡◌, refl, sym, ap, ◌⊎◌, inl, inr, Bool, true, false, [], ◌∷◌, ◌++◌, ltb,
  leb, length, take, drop, arith, Bool-cases, length-take, length-append, take-append_le,
}
use vynkor_sdk_python.Errors.{
  Str, Bytes, Error, Result, ok, err, io_error, foreign, incomplete_read, frame_read_timeout,
}
use vynkor_sdk_python.Framing.Primitives.{Primitives}
use vynkor_sdk_python.Framing.Stream.{Stream, read}
use vynkor_sdk_python.Framing.Stream
use vynkor_sdk_python.Framing.Async
use vynkor_sdk_python.Framing.Async.{
  Timed, Reader, bytes_of, in_time, Async, readexactly, async_header, async_payload, async_mac,
  read_body, async_read_frame,
}

pub length-bytes_of : (ts : Reader) → length (bytes_of ts) ≡ length ts
length-bytes_of [] = refl
length-bytes_of (t ∷ ts) = ap suc (length-bytes_of ts)

bytes_of-take : (n : ℕ) (ts : Reader) → bytes_of (take n ts) ≡ take n (bytes_of ts)
bytes_of-take zero ts = refl
bytes_of-take (suc n) [] = refl
bytes_of-take (suc n) (t ∷ ts) = ap (◌∷◌ t.byte) (bytes_of-take n ts)

pub bytes_of-drop : (n : ℕ) (ts : Reader) → bytes_of (drop n ts) ≡ drop n (bytes_of ts)
bytes_of-drop zero ts = refl
bytes_of-drop (suc n) [] = refl
bytes_of-drop (suc n) (t ∷ ts) = bytes_of-drop n ts

in_time-take : (d n : ℕ) (ts : Reader) → in_time d ts ≡ true → in_time d (take n ts) ≡ true
unfolding in_time
in_time-take d zero ts h = refl
in_time-take d (suc n) [] h = refl
in_time-take d (suc n) (t ∷ ts) h = ground (arith, in_time-take d n ts)

pub in_time-drop : (d n : ℕ) (ts : Reader) → in_time d ts ≡ true → in_time d (drop n ts) ≡ true
unfolding in_time
in_time-drop d zero ts h = h
in_time-drop d (suc n) [] h = refl
in_time-drop d (suc n) (t ∷ ts) h = in_time-drop d n ts (ground arith)

drop-append_le :
    (n : ℕ) (ts later : Reader) → n ≤ length ts → drop n (ts ++ later) ≡ drop n ts ++ later
drop-append_le zero ts later h = refl
drop-append_le (suc n) [] later h = absurd (omega arith)
drop-append_le (suc n) (t ∷ ts) later h = drop-append_le n ts later (omega arith)

-- What comes behind the deadline, with the earliest of it first.
abbrev pub IsLate : ℕ → Reader → Type 0
IsLate deadline [] = Unit
IsLate deadline (t ∷ later) = deadline ≤ t.at

-- A read that needs a late byte is not in time.
in_time-late :
    (d n : ℕ) (ts later : Reader)
    → IsLate d later
    → length ts < n
    → n ≤ length (ts ++ later)
    → in_time d (take n (ts ++ later)) ≡ false
unfolding in_time
in_time-late d zero ts later l h k = absurd (omega arith)
in_time-late d (suc n) [] [] l h k = absurd (omega arith)
in_time-late d (suc n) [] (t ∷ later) l h k = ground arith
in_time-late d (suc n) (t ∷ ts) later l h k = ground (arith, in_time-late d n ts later)

-- The exceptions at the end of what has come in time.
abbrev pub IsCut : Error → Type 0
IsCut e = (e ≡ foreign incomplete_read) ⊎ (e ≡ frame_read_timeout)

-- The same exception, or one of these in place of `VynkorIoError`.
abbrev pub Translates : Error → Error → Type 0
Translates e e' = (e' ≡ e) ⊎ ((text : Str) × (e ≡ io_error text) × IsCut e')

-- The asynchronous outcome is the synchronous one: the same value with the same bytes left, or an
-- exception for its exception.
abbrev pub Follows {ℓ} : {A : Type ℓ} → ℕ → Reader → Result A × Bytes → Result A × Reader → Type ℓ
Follows deadline later (ok a, s) (r, ts) =
    (r ≡ ok a)
    × ((front : Reader) × (ts ≡ front ++ later)
        × (bytes_of front ≡ s)
        × (in_time deadline front ≡ true))
Follows deadline later (err e, s) (r, ts) = (e' : Error) × (r ≡ err e') × Translates e e'

-- On bytes that come in time, before others that come late.
abbrev pub Simulates {ℓ} : {A : Type ℓ} → ℕ → Reader → Stream A → Async A → Type ℓ
Simulates deadline later m am =
    (ts : Reader)
    → in_time deadline ts ≡ true
    → Follows deadline later (m (bytes_of ts)) (am (ts ++ later))

module _ {ℓ κ} {A : Type ℓ} {B : Type κ} (deadline : ℕ) (later : Reader) where
  pub Follows-proceed :
      (x : Result A × Bytes) (y : Result A × Reader) (f : A → Stream B) (af : A → Async B)
      → Follows deadline later x y
      → ((a : A) → Simulates deadline later (f a) (af a))
      → Follows deadline later (Stream.proceed x.0 f x.1) (Async.proceed y.0 af y.1)
  Follows-proceed (ok a, s) (r, ts) f af (e, (front, l, b, t)) k = rw (e, l, sym b) (k a front t)
  Follows-proceed (err x, s) (r, ts) f af (e', e, t) k = rw e (e', refl, t)

  pub Simulates-bind :
      (m : Stream A) (am : Async A) (f : A → Stream B) (af : A → Async B)
      → Simulates deadline later m am
      → ((a : A) → Simulates deadline later (f a) (af a))
      → Simulates deadline later (Stream.◌>>=◌ m f) (Async.◌>>=◌ am af)
  Simulates-bind m am f af s k ts t =
      Follows-proceed (m (bytes_of ts)) (am (ts ++ later)) f af (s ts t) k

module _ {ℓ} {A : Type ℓ} (deadline : ℕ) (later : Reader) where
  pub Simulates-pure : (a : A) → Simulates deadline later (Stream.pure a) (Async.pure a)
  Simulates-pure a ts t = (refl, (ts, refl, refl, t))

  pub Simulates-lift : (r : Result A) → Simulates deadline later (Stream.lift r) (Async.lift r)
  Simulates-lift (ok a) ts t = (refl, (ts, refl, refl, t))
  Simulates-lift (err e) ts t = (e, refl, inl refl)

  pub Simulates-fail_if :
      (test : Bool) (e : Error) (m : Stream A) (am : Async A)
      → Simulates deadline later m am
      → Simulates deadline later
          (Stream.◌>>◌ (Stream.fail_if test e) m)
          (Async.◌>>◌ (Async.fail_if test e) am)
  Simulates-fail_if true e m am s ts t = (e, refl, inl refl)
  Simulates-fail_if false e m am s ts t = s ts t

pub Simulates-check :
    (deadline : ℕ) (later : Reader) (test : Bool) (e : Error)
    → Simulates deadline later (Stream.fail_if test e) (Async.fail_if test e)
Simulates-check deadline later true e ts t = (e, refl, inl refl)
Simulates-check deadline later false e ts t = (refl, (ts, refl, refl, t))

module _ (prim : Primitives) (closes deadline : ℕ) (later : Reader)
    (late : IsLate deadline later) where
  pub read_all :
      (n : ℕ) (ts : Reader)
      → in_time deadline ts ≡ true
      → leb n (length ts) ≡ true
      → readexactly prim closes deadline n (ts ++ later)
        ≡ (ok (take n (bytes_of ts)), drop n ts ++ later)
  unfolding readexactly
  read_all n ts t e =
      let fits : n ≤ length ts = ground arith in
      let enough : leb n (length (ts ++ later)) ≡ true = ground (arith, length-append ts later) in
      rw
        (
          enough,
          take-append_le n ts later fits,
          drop-append_le n ts later fits,
          in_time-take deadline n ts t,
        )
        (ap (λ b. (ok b, drop n ts ++ later)) (bytes_of-take n ts))

  pub read_too_few :
      (n : ℕ) (ts : Reader)
      → leb n (length ts) ≡ false
      → (e : Error) × ((readexactly prim closes deadline n (ts ++ later)).0 ≡ err e) × IsCut e
  unfolding readexactly
  read_too_few n ts few = elim (Bool-cases (leb n (length (ts ++ later)))) [
    | inl enough ↦
        let missed = in_time-late deadline n ts later late (ground arith) (ground arith) in
        rw (enough, missed) (frame_read_timeout, refl, inr refl)
    | inr short ↦ rw short (elim (Bool-cases (ltb closes deadline)) [
      | inl c ↦ rw c (foreign incomplete_read, refl, inl refl)
      | inr c ↦ rw c (frame_read_timeout, refl, inr refl)
    ])
  ]

  -- A read, its check for the stream's end, and what follows.
  abbrev pub read_checked {ℓ} : {A : Type ℓ} → ℕ → Str → (Bytes → Stream A) → Stream A
  read_checked n text f =
      Stream.◌>>=◌ (read n)
        (λ b. Stream.◌>>◌ (Stream.fail_if (ltb (length b) n) (io_error text)) (f b))

  pub Simulates-read {ℓ} :
      {A : Type ℓ} (n : ℕ) (text : Str) (f : Bytes → Stream A) (af : Bytes → Async A)
      → ((b : Bytes) → Simulates deadline later (f b) (af b))
      → Simulates deadline later
          (read_checked n text f)
          (Async.◌>>=◌ (readexactly prim closes deadline n) af)
  unfolding read
  Simulates-read n text f af k ts t = elim (Bool-cases (leb n (length ts))) [
    | inl e ↦
        let full : ltb (length (take n (bytes_of ts))) n ≡ false =
          ground (arith, length-take n (bytes_of ts), length-bytes_of ts) in
        rw (full, read_all n ts t e, sym (bytes_of-drop n ts))
          (k (take n (bytes_of ts)) (drop n ts) (in_time-drop deadline n ts t))
    | inr e ↦
        let short : ltb (length (take n (bytes_of ts))) n ≡ true =
          ground (arith, length-take n (bytes_of ts), length-bytes_of ts) in
        let (cut, raised, is_cut) = read_too_few n ts e in
        rw (short, raised) (cut, refl, inr (text, refl, is_cut))
  ]
