-- ===== src/Client/Secured.antt =====
-- vynkor/client.py: what a client receives behind a secured registration.
use vynkor_sdk_python.Prelude.{
  ℕ, ◌≡◌, sym, ap, ◌∙◌, true, ◌&&◌, [], ◌∷◌, ◌++◌, Option, some, inl, inr,
}
use vynkor_sdk_python.Errors.{Str, Bytes, Result, ok, err}
use vynkor_sdk_python.Messages.{RegisterAck, Envelope}
use vynkor_sdk_python.Framing.Primitives.{Primitives}
use vynkor_sdk_python.Framing.Mac.{derive_session_key}
use vynkor_sdk_python.Framing.Read.{read_frame_from_bytes}
use vynkor_sdk_python.Framing.Safety.{IsTagged, read_frame_from_bytes_authentic}
use vynkor_sdk_python.Client.Session.{Session, is_given, or_empty, register_full}
use vynkor_sdk_python.Client.Clear.{register_full-IsKeyed}
use vynkor_sdk_python.Client.Transport.{Bindings, ws_text, ws_binary, Incoming, ws_recv_frame}

-- `_ws_recv_frame` returns what a message on the WebSocket holds.
ws_recv_frame-eq-ok :
    (prim : Primitives) (bindings : Bindings) (key : Option Bytes) (incoming rest : Incoming)
    → (got : ℕ × Bytes) → (ws_recv_frame prim bindings key incoming) ≡ (some (ok got), rest)
    → (before : Incoming) × (frame : Bytes) × (incoming ≡ before ++ (ok (ws_binary frame) ∷ rest))
      × (read_frame_from_bytes prim frame key ≡ ok got)
unfolding ws_recv_frame
ws_recv_frame-eq-ok prim bindings key [] rest got h = let h0 = ap (λ x. x.0) h in absurd (cc)
ws_recv_frame-eq-ok prim bindings key (err e ∷ incoming) rest got h =
    let h0 = ap (λ x. x.0) h in absurd (cc)
ws_recv_frame-eq-ok prim bindings key (ok (ws_text s) ∷ incoming) rest got h =
    let (before, frame, split, read) = ws_recv_frame-eq-ok prim bindings key incoming rest got h in
    (ok (ws_text s) ∷ before, frame, ap (◌∷◌ (ok (ws_text s))) split, read)
ws_recv_frame-eq-ok prim bindings key (ok (ws_binary input) ∷ incoming) rest got h =
    let h0 = ap (λ x. x.0) h in ([], input, ap (λ x. ok (ws_binary input) ∷ x.1) h, cc)

-- A client whose secret is given registers, and the ack that `register_full` returns carries a nonce.
-- From then on, a frame that `_ws_recv_frame` returns is marked FLAG_MAC_PRESENT and came in a
-- WebSocket message that has, behind a header and a wire payload, the HMAC of the frame's plaintext
-- header and payload, under the key that `derive_session_key` makes of the secret, the nonce and the
-- plugin id. The plaintext header is written out, with the flags, the payload's length and CRC-32
-- and the target of the message's own header.
pub ws_recv_frame-register_full :
    (prim : Primitives) (bindings : Bindings) (send : Envelope → Result (Unit {0}))
    → (reply : Result Envelope) (session : Session) (plugin_id version jwt_token : Str)
    → (ack : RegisterAck) (incoming rest : Incoming) (flags : ℕ) (payload : Bytes)
    → let registered = register_full prim send reply session plugin_id version jwt_token in
      registered.1 ≡ ok ack
      → is_given session.secret && is_given (some ack.session_nonce) ≡ true
      → ws_recv_frame prim bindings registered.0.session_key incoming
        ≡ (some (ok (flags, payload)), rest)
      → (key frame : Bytes) × (before : Incoming) × (derive_session_key prim
            (or_empty session.secret)
            ack.session_nonce
            plugin_id
          ≡ ok key)
        × (incoming ≡ before ++ (ok (ws_binary frame) ∷ rest))
        × IsTagged prim key frame flags payload
ws_recv_frame-register_full prim bindings send reply session plugin_id version jwt_token ack
      incoming rest flags payload accepted given got =
    let registered = register_full prim send reply session plugin_id version jwt_token in
    elim (register_full-IsKeyed prim send reply session plugin_id version jwt_token ack accepted) [
      | inl (key, secured, derived, keyed) ↦
          let (before, frame, split, read) =
            ws_recv_frame-eq-ok prim bindings registered.0.session_key incoming rest
              (flags, payload) got in
          let read_keyed = ap (read_frame_from_bytes prim frame) (sym keyed) ∙ read in
          (
            key,
            frame,
            before,
            derived,
            split,
            read_frame_from_bytes_authentic prim key frame read_keyed,
          )
      | inr (unsecured, kept) ↦ absurd (cc)
    ]
