-- ===== src/Framing/Mac.antt =====
-- vynkor/framing.py: HKDF-SHA256 (RFC 5869), the session key, and the frame's MAC tag.
use vynkor_sdk_python.Prelude.{
  ℕ, zero, suc, ◌-◌, Bool, [], ◌∷◌, ◌++◌, ltb, if◌then◌else◌, length, take,
}
use vynkor_sdk_python.Errors.{Str, Bytes, Result, ok, err, foreign, value_error, ◌>>=◌}
use vynkor_sdk_python.Py.Text.{str, encode, str_eq}
use vynkor_sdk_python.Framing.Primitives.{Primitives}

module _ (prim : Primitives) where
  unfoldable pub hkdf_extract : Bytes → Bytes → Bytes
  hkdf_extract salt ikm = prim.hmac_sha256 salt ikm

  -- The loop of `_hkdf_expand` with `counter = 256 - left`. The counter goes into one byte:
  -- `bytes([256])` raises.
  unfoldable pub expand_loop : Bytes → Bytes → ℕ → ℕ → Bytes → Bytes → Result Bytes
  expand_loop prk info size zero t okm =
      if ltb (length okm) size
      then err (foreign (value_error (str "bytes must be in range(0, 256)")))
      else ok okm
  expand_loop prk info size (suc left) t okm =
      let next = prim.hmac_sha256 prk (t ++ (info ++ ((255 - left) ∷ []))) in
      let rest = expand_loop prk info size left next (okm ++ next) in
      if ltb (length okm) size then rest else ok okm

  unfoldable pub hkdf_expand : Bytes → Bytes → ℕ → Result Bytes
  hkdf_expand prk info size = do okm ← expand_loop prk info size 255 [] []; ok (take size okm)

  unfoldable pub derive_session_key : Bytes → Bytes → Str → Result Bytes
  derive_session_key secret nonce plugin_id = do
    let prk = hkdf_extract nonce secret
    id ← encode plugin_id
    hkdf_expand prk (str "vynkor-frame-mac-v1|" ++ id) 32

  unfoldable pub compute_tag : Bytes → Bytes → Bytes → Bytes
  compute_tag key header payload = prim.hmac_sha256 key (header ++ payload)

  -- `hmac.compare_digest` is equality, in constant time.
  unfoldable pub verify_tag : Bytes → Bytes → Bytes → Bytes → Bool
  verify_tag key header payload tag = str_eq (compute_tag key header payload) tag
