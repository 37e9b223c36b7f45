-- ===== src/Client/Clear.antt =====
-- vynkor/client.py: the frames of a WebSocket and the key of a session.
use vynkor_sdk_python.Prelude.{
  ℕ, ◌≡◌, ◌⊎◌, inl, inr, refl, true, false, ◌&&◌, ◌++◌, Option, some, Bool-cases, subst,
}
use vynkor_sdk_python.Errors.{Str, Bytes, Result, ok, err, ok-injective, ◌>>◌}
use vynkor_sdk_python.Messages.{RegisterAck, Envelope, plugin_register_ack, kernel_error}
use vynkor_sdk_python.Framing.Primitives.{Primitives}
use vynkor_sdk_python.Framing.Header.{header_of, pack_header, target_bytes}
use vynkor_sdk_python.Framing.Mac.{derive_session_key}
use vynkor_sdk_python.Framing.Pack.{mac_flags}
use vynkor_sdk_python.Client.Session.{
  Session, is_given, or_empty, with_key, apply_session_nonce, on_reply, on_reply_or_error,
  register_request, register_full,
}

-- The header and the payload as they are, and any tag behind them.
abbrev pub IsClear : Option Bytes → Str → ℕ → Bytes → Bytes → Type 0
IsClear key target flags payload frame =
    (t : Bytes) × (header : Bytes) × (tag : Bytes) × (target_bytes target ≡ ok t)
    × (pack_header (header_of (mac_flags key flags) t payload) ≡ ok header)
    × (frame ≡ header ++ (payload ++ tag))

-- The session's key behind an accepted registration: derived where there are a secret and a nonce,
-- and as it was where one of them is missing.
abbrev pub IsKeyed : Primitives → Session → Str → RegisterAck → Session → Type 0
IsKeyed prim session plugin_id ack after =
    ((key : Bytes) × (is_given session.secret && is_given (some ack.session_nonce) ≡ true)
      × (derive_session_key prim (or_empty session.secret) ack.session_nonce plugin_id ≡ ok key)
      × (after.session_key ≡ some key))
    ⊎ ((is_given session.secret && is_given (some ack.session_nonce) ≡ false)
        × (after.session_key ≡ session.session_key))

with_key-eq-ok :
    (prim : Primitives) (session : Session) (given ack : RegisterAck) (derived : Result Bytes)
    → (with_key prim session given derived).1 ≡ ok ack
    → (key : Bytes) × (derived ≡ ok key)
      × ((with_key prim session given derived).0.session_key ≡ some key)
      × (given ≡ ack)
unfolding with_key
with_key-eq-ok prim session given ack (err e) h = cc
with_key-eq-ok prim session given ack (ok key) h = (key, refl, refl, ok-injective h)

apply_session_nonce-IsKeyed :
    (prim : Primitives) (session : Session) (plugin_id : Str) (given ack : RegisterAck)
    → (apply_session_nonce prim session plugin_id given).1 ≡ ok ack
    → IsKeyed prim session plugin_id ack (apply_session_nonce prim session plugin_id given).0
unfolding apply_session_nonce
apply_session_nonce-IsKeyed prim session plugin_id given ack =
    let derived = derive_session_key prim (or_empty session.secret) given.session_nonce plugin_id in
    elim (Bool-cases (is_given session.secret && is_given (some given.session_nonce))) [
      | inl g ↦ rw g (λ h.
          let (key, e, stored, same) = with_key-eq-ok prim session given ack derived h in
          subst (λ a. IsKeyed prim session plugin_id a (with_key prim session given derived).0) same
            (inl (key, g, e, stored)))
      | inr g ↦ rw g (λ h.
          subst (λ a. IsKeyed prim session plugin_id a session) (ok-injective h) (inr (g, refl)))
    ]

on_reply-IsKeyed :
    (prim : Primitives) (session : Session) (plugin_id : Str) (reply : Envelope) (ack : RegisterAck)
    → (on_reply prim session plugin_id reply).1 ≡ ok ack
    → IsKeyed prim session plugin_id ack (on_reply prim session plugin_id reply).0
unfolding on_reply
on_reply-IsKeyed prim session plugin_id (plugin_register_ack given) ack h =
    apply_session_nonce-IsKeyed prim session plugin_id given ack h
on_reply-IsKeyed prim session plugin_id (kernel_error e) ack h = cc
on_reply-IsKeyed prim session plugin_id reply ack h = cc

on_reply_or_error-IsKeyed :
    (prim : Primitives) (session : Session) (plugin_id : Str) (got : Result Envelope)
    → (ack : RegisterAck) → (on_reply_or_error prim session plugin_id got).1 ≡ ok ack
    → IsKeyed prim session plugin_id ack (on_reply_or_error prim session plugin_id got).0
unfolding on_reply_or_error
on_reply_or_error-IsKeyed prim session plugin_id (err e) ack h = cc
on_reply_or_error-IsKeyed prim session plugin_id (ok reply) ack h =
    on_reply-IsKeyed prim session plugin_id reply ack h

-- When `register_full` returns an ack, the client has the session key derived from its secret, the
-- ack's nonce and the plugin's id if both the secret and the nonce are there, and otherwise the
-- session key that it had before.
pub register_full-IsKeyed :
    (prim : Primitives) (send : Envelope → Result (Unit {0})) (reply : Result Envelope)
    → (session : Session) (plugin_id version jwt_token : Str) (ack : RegisterAck)
    → (register_full prim send reply session plugin_id version jwt_token).1 ≡ ok ack
    → IsKeyed prim session plugin_id ack
        (register_full prim send reply session plugin_id version jwt_token).0
unfolding register_full
register_full-IsKeyed prim send reply session plugin_id version jwt_token ack h =
    on_reply_or_error-IsKeyed prim (record session { plugin_id = some plugin_id }) plugin_id
      (send (register_request prim session plugin_id version jwt_token) >> reply) ack h
