-- ===== src/Client/Exchange.antt =====
-- vynkor/client.py: what one client sends, another with the same session key receives.
use vynkor_sdk_python.Prelude.{
  ℕ, ◌≡◌, refl, ap, ◌∙◌, Bool, true, false, List, ◌∷◌, ◌++◌, Option, none, some, length, ltb,
  Bool-cases, inl, inr, arith,
}
use vynkor_sdk_python.Errors.{
  ◌>>◌, raise_if, raise_if-eq-ok, payload_too_large, Str, Bytes, Result, ok, >>=-eq-ok,
}
use vynkor_sdk_python.Messages.{Envelope}
use vynkor_sdk_python.Framing.Primitives.{Primitives, IsSound, max_payload}
use vynkor_sdk_python.Framing.Header.{flag_raw_binary, flag_fragmented, flag_compressed, has}
use vynkor_sdk_python.Framing.Pack.{mac_flags, pack_frame}
use vynkor_sdk_python.Framing.Read.{read_frame_from_bytes}
use vynkor_sdk_python.Framing.RoundTrip.{Taggable, parse_frame-pack_frame}
use vynkor_sdk_python.Client.Session.{Session, outgoing_frame}
use vynkor_sdk_python.Client.Reassembly.{Streams, Arrival, recv_frame, prune_reassembly}
use vynkor_sdk_python.Client.Transport.{
  Bindings, IsFaithful, parsed, decode, on_frame, recv, send_raw_with_flags, send_raw, send,
  transmit,
}

pub plain_frame :
    (key : Option Bytes)
    → (has (mac_flags key 0) flag_fragmented ≡ false)
      × (has (mac_flags key 0) flag_raw_binary ≡ false)
      × Taggable key 0
plain_frame none = (refl, refl, refl)
plain_frame (some key) = (refl, refl, tt)

module _ (bindings : Bindings) where
  -- `recv` of a frame that is no fragment.
  pub recv-whole :
      (pruned_at read_at flags : ℕ) (payload : Bytes) (later : List Arrival) (d : Streams)
      → has flags flag_fragmented ≡ false
      → recv bindings
          (record { pruned_at = pruned_at; read_at = read_at; frame = ok (flags, payload) } ∷ later)
          d
        ≡ (some (decode bindings flags payload), prune_reassembly pruned_at d, later)
  unfolding recv on_frame recv_frame
  recv-whole pruned_at read_at flags payload later d f = rw f refl

  pub decode-serialize :
      (flags : ℕ) (env : Envelope)
      → IsFaithful bindings env
      → has flags flag_raw_binary ≡ false
      → decode bindings flags (bindings.serialize env) ≡ ok env
  unfolding decode parsed
  decode-serialize flags env faithful r = rw (r, faithful) refl

module _ (prim : Primitives) (sound : IsSound prim) where
  -- Of `compress` only the value matters.
  pub outgoing_frame-eq-ok :
      (session : Session) (target : Str) (flags : ℕ) (payload frame : Bytes)
      → outgoing_frame prim session target flags payload ≡ ok frame
      → (compress : Bool) × (pack_frame prim target payload flags session.session_key compress
          ≡ ok frame)
  unfolding outgoing_frame
  outgoing_frame-eq-ok session target flags payload frame e = elim (Bool-cases session.is_ws) [
    | inl ws ↦
        let clear : (raise_if (ltb max_payload (length payload))
                (payload_too_large (length payload))
              >> pack_frame prim target payload flags session.session_key false)
            ≡ ok frame =
          ground arith in
        (false, (raise_if-eq-ok (ltb max_payload (length payload)) _ _ clear).1)
    | inr uds ↦ (true, ground arith)
  ]

  -- A frame that was sent is read back, with anything behind it.
  read_frame_from_bytes-outgoing_frame :
      (session : Session) (target : Str) (flags : ℕ) (payload frame rest : Bytes)
      → has flags flag_compressed ≡ false
      → Taggable session.session_key flags
      → outgoing_frame prim session target flags payload ≡ ok frame
      → read_frame_from_bytes prim (frame ++ rest) session.session_key
        ≡ ok (mac_flags session.session_key flags, payload)
  unfolding read_frame_from_bytes
  read_frame_from_bytes-outgoing_frame session target flags payload frame rest c g e =
      let (compress, packed) = outgoing_frame-eq-ok session target flags payload frame e in
      ap (λ x. x.0)
        (parse_frame-pack_frame prim sound target payload flags session.session_key compress frame
          rest c g packed)

  -- The frame that a successful `send_raw_with_flags` wrote is the one for the transport.
  pub send_raw_with_flags-eq-ok :
      (bindings : Bindings) (session : Session) (write : Bytes → Result (Unit {0}))
      → (target : Str) (flags : ℕ) (payload frame : Bytes)
      → send_raw_with_flags prim bindings session write target flags payload ≡ ok frame
      → outgoing_frame prim session target flags payload ≡ ok frame
  unfolding send_raw_with_flags
  send_raw_with_flags-eq-ok bindings session write target flags payload frame e =
      let (built, packed, more) =
        >>=-eq-ok (outgoing_frame prim session target flags payload) _ e in
      let (done, written, same) = >>=-eq-ok (transmit bindings session.is_ws write built) _ more in
      packed ∙ same

  pub read_frame_from_bytes-send :
      (bindings : Bindings) (session : Session) (write : Bytes → Result (Unit {0}))
      → (target : Str) (env : Envelope) (frame rest : Bytes)
      → send prim bindings session write target env ≡ ok frame
      → read_frame_from_bytes prim (frame ++ rest) session.session_key
        ≡ ok (mac_flags session.session_key 0, bindings.serialize env)
  unfolding send send_raw
  read_frame_from_bytes-send bindings session write target env frame rest e =
      let (whole, envelope, tagged) = plain_frame session.session_key in
      read_frame_from_bytes-outgoing_frame session target 0 (bindings.serialize env) frame rest refl
        tagged
        (send_raw_with_flags-eq-ok bindings session write target 0 (bindings.serialize env) frame e)
