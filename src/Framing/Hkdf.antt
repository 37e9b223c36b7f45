-- ===== src/Framing/Hkdf.antt =====
-- The key derivation against RFC 5869.
use vynkor_sdk_python.Prelude.{
  ℕ, zero, suc, ◌+◌, ◌-◌, ◌*◌, ◌≤◌, ◌≡◌, refl, ap, sym, ◌∙◌, inl, inr, [], ◌∷◌, ◌++◌, arith, ltb,
  ge→ltb, length, take, length-append, length-take, take_all, take-append_le, Bool-cases,
}
use native.Mathlib.Nat.{add-zero, add-suc}
use vynkor_sdk_python.Errors.{Str, Bytes, ok}
use vynkor_sdk_python.Py.Text.{str, encode}
use vynkor_sdk_python.Framing.Primitives.{Primitives, IsSound}
use vynkor_sdk_python.Framing.Mac.{hkdf_extract, expand_loop, hkdf_expand, derive_session_key}

module _ (prim : Primitives) (prk info : Bytes) where
  -- T(i) of RFC 5869, section 2.3.
  unfoldable pub block : ℕ → Bytes
  block zero = []
  block (suc i) = prim.hmac_sha256 prk (block i ++ (info ++ (suc i ∷ [])))

  -- T(1) | T(2) | … | T(n)
  unfoldable pub blocks : ℕ → Bytes
  blocks zero = []
  blocks (suc n) = blocks n ++ block (suc n)

module _ (prim : Primitives) (sound : IsSound prim) (prk info : Bytes) where
  open sound use {digest_size}

  length-blocks : (n : ℕ) → length (blocks prim prk info n) ≡ 32 * n
  unfolding block blocks
  length-blocks zero = refl
  length-blocks (suc n) = omega (
    arith,
    length-append (blocks prim prk info n) (block prim prk info (suc n)),
    digest_size prk (block prim prk info n ++ (info ++ (suc n ∷ []))),
    length-blocks n,
  )

  -- Fewer blocks are a front of more blocks.
  take-blocks :
      (size n k : ℕ)
      → size ≤ 32 * n
      → take size (blocks prim prk info (n + k)) ≡ take size (blocks prim prk info n)
  unfolding blocks
  take-blocks size n zero h = rw (add-zero n)
  take-blocks size n (suc k) h = rw (add-suc n k) (
      take-append_le size (blocks prim prk info (n + k)) _ (omega (arith, length-blocks (n + k)))
      ∙ take-blocks size n k h)

  next_block :
      (left i : ℕ)
      → i + suc left ≡ 255
      → prim.hmac_sha256 prk (block prim prk info i ++ (info ++ ((255 - left) ∷ [])))
        ≡ block prim prk info (suc i)
  unfolding block
  next_block left i e = let counter : 255 - left ≡ suc i = omega arith in rw counter

  next_blocks :
      (i : ℕ) → blocks prim prk info i ++ block prim prk info (suc i) ≡ blocks prim prk info (suc i)
  unfolding blocks
  next_blocks i = refl

  -- The loop with `i` blocks made and `left` counters to go.
  expand_loop-blocks :
      (size left i : ℕ)
      → i + left ≡ 255
      → size ≤ 8160
      → (okm : Bytes) × (expand_loop prim prk info size left
            (block prim prk info i)
            (blocks prim prk info i)
          ≡ ok okm)
        × (take size okm ≡ take size (blocks prim prk info 255))
  unfolding expand_loop
  expand_loop-blocks size zero i e h =
      let all = length-blocks i in
      (
        blocks prim prk info i,
        rw (ge→ltb (length (blocks prim prk info i)) size (omega arith)),
        ap (λ n. take size (blocks prim prk info n)) (omega arith),
      )
  expand_loop-blocks size (suc left) i e h =
      elim (Bool-cases (ltb (length (blocks prim prk info i)) size)) [
        | inl more ↦
            let (okm, p, q) = expand_loop-blocks size left (suc i) (omega arith) h in
            (okm, rw (more, next_block left i e, next_blocks i) p, q)
        | inr done ↦
            let enough : size ≤ 32 * i = ground (arith, length-blocks i) in
            (
              blocks prim prk info i,
              rw done,
              sym (take-blocks size i (suc left) enough)
                  ∙ ap (λ n. take size (blocks prim prk info n)) e,
            )
      ]

  no_block : (block prim prk info 0 ≡ []) × (blocks prim prk info 0 ≡ [])
  unfolding block blocks
  no_block = (refl, refl)

  -- For up to 255 * 32 bytes, RFC 5869's limit, the loop ends with the output that the RFC defines:
  -- the first bytes of T(1) | T(2) | …, exactly as many as were asked for.
  pub hkdf_expand-blocks :
      (size : ℕ)
      → size ≤ 8160
      → (hkdf_expand prim prk info size ≡ ok (take size (blocks prim prk info 255)))
        × (length (take size (blocks prim prk info 255)) ≡ size)
  unfolding hkdf_expand
  hkdf_expand-blocks size h =
      let (okm, p, q) = expand_loop-blocks size 255 0 refl h in
      (
        rw (rw (no_block.0, no_block.1) at p) (ap ok q),
        omega (arith, length-take size (blocks prim prk info 255), length-blocks 255),
      )

-- With a plugin id that has an encoding, the session key is the single block of HKDF-SHA256 with
-- the nonce as salt and the label and the plugin id as info, and it has 32 bytes.
pub derive_session_key-block :
    (prim : Primitives) (sound : IsSound prim) (secret nonce id : Bytes) (plugin_id : Str)
    → encode plugin_id ≡ ok id
    → let key =
        prim.hmac_sha256
          (prim.hmac_sha256 nonce secret)
          (str "vynkor-frame-mac-v1|" ++ id ++ (1 ∷ [])) in
      (derive_session_key prim secret nonce plugin_id ≡ ok key) × (length key ≡ 32)
unfolding derive_session_key hkdf_extract hkdf_expand expand_loop
derive_session_key-block prim sound secret nonce id plugin_id e =
    let msg = str "vynkor-frame-mac-v1|" ++ id ++ (1 ∷ []) in
    let prk = prim.hmac_sha256 nonce secret in
    let size = sound.digest_size prk msg in
    let full = ge→ltb (length (prim.hmac_sha256 prk msg)) 32 (omega arith) in
    (rw e (rw full (rw (take_all 32 (prim.hmac_sha256 prk msg) (omega arith)))), size)
