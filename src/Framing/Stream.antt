-- ===== src/Framing/Stream.antt =====
-- A synchronous, file-like stream (`io.BytesIO`): the bytes that are left. A method that raises
-- leaves the stream where it stands.
use vynkor_sdk_python.Prelude.{
  ℕ, ◌≡◌, refl, Bool, true, false, ◌++◌, arith, length, take, drop, take-append, drop-append,
  length-take, take-append-drop, ◌≤◌,
}
use vynkor_sdk_python.Errors.{Bytes, Error, Result, ok, err}

abbrev pub Stream {ℓ} : Type ℓ → Type ℓ
Stream A = Bytes → Result A × Bytes

module _ {ℓ} {A : Type ℓ} where
  abbrev pub pure : A → Stream A
  pure a s = (ok a, s)

  abbrev pub lift : Result A → Stream A
  lift r s = (r, s)

abbrev pub fail_if : Bool → Error → Stream (Unit {0})
fail_if true e s = (err e, s)
fail_if false e s = (ok tt, s)

module _ {ℓ κ} {A : Type ℓ} {B : Type κ} where
  abbrev pub proceed : Result A → (A → Stream B) → Stream B
  proceed (ok a) f s = f a s
  proceed (err e) f s = (err e, s)

  infixl 5 ◌>>=◌
  abbrev pub ◌>>=◌ : Stream A → (A → Stream B) → Stream B
  ◌>>=◌ m f s = proceed (m s).0 f (m s).1

infixl 5 ◌>>◌
abbrev pub ◌>>◌ {ℓ} : {B : Type ℓ} → Stream (Unit {0}) → Stream B → Stream B
m >> k = m >>= λ _. k

-- `stream.read(n)`: fewer bytes at the end of the stream.
unfoldable pub read : ℕ → Stream Bytes
read n s = (ok (take n s), drop n s)

-- A read takes exactly what stands in front.
pub read-append : (n : ℕ) (b rest : Bytes) → length b ≡ n → read n (b ++ rest) ≡ (ok b, rest)
unfolding read
read-append n b rest h = rw (take-append n b rest h, drop-append n b rest h)

module _ {ℓ κ} {A : Type ℓ} {B : Type κ} where
  -- A chain that succeeded went through its first step, and then through the rest.
  pub >>=-ok_elim {μ} :
      {P : Type μ} (m : Stream A) (f : A → Stream B) (s : Bytes) {b : B} {end : Bytes}
      → ((a : A) (mid : Bytes) → m s ≡ (ok a, mid) → f a mid ≡ (ok b, end) → P)
      → (m >>= f) s ≡ (ok b, end)
      → P
  >>=-ok_elim {P = P} m f s {b} {end} k h = split (m s).0 (m s).1 refl h
    where
      split : (r : Result A) (mid : Bytes) → m s ≡ (r, mid) → proceed r f mid ≡ (ok b, end) → P
      split (ok a) mid e g = k a mid e g
      split (err x) mid e g = absurd (cc)

pub fail_if-eq-ok {ℓ} :
    {A : Type ℓ} (test : Bool) (e : Error) (m : Stream A) (s : Bytes) {a : A} {end : Bytes}
    → (fail_if test e >> m) s ≡ (ok a, end)
    → (test ≡ false) × (m s ≡ (ok a, end))
fail_if-eq-ok true e m s h = cc
fail_if-eq-ok false e m s h = (refl, h)

-- A read splits the stream, and takes at most what it was asked for.
pub read-splits :
    (n : ℕ) (s : Bytes) {b rest : Bytes}
    → read n s ≡ (ok b, rest)
    → (s ≡ b ++ rest) × (length b ≤ n)
unfolding read
read-splits n s h = (ground (arith, take-append-drop n s), ground (arith, length-take n s))
