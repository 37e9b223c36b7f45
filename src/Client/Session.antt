-- ===== src/Client/Session.antt =====
-- vynkor/client.py: the session key that a registration leaves, and the frame of
-- `send_raw_with_flags` on each transport.
use vynkor_sdk_python.Prelude.{
  ℕ, Bool, true, false, ◌&&◌, [], ◌∷◌, ◌++◌, ltb, if◌then◌else◌, Option, none, some, length,
}
use vynkor_sdk_python.Errors.{
  Str, Bytes, Result, ok, err, internal, payload_too_large, raise_if, ◌>>◌,
}
use vynkor_sdk_python.Py.Text.{str}
use vynkor_sdk_python.Messages.{
  RegisterAck, Envelope, plugin_register, plugin_register_ack, kernel_error,
}
use vynkor_sdk_python.Framing.Primitives.{Primitives, max_payload}
use vynkor_sdk_python.Framing.Mac.{derive_session_key}
use vynkor_sdk_python.Framing.Pack.{pack_frame}

-- What a `VynkorClient` keeps about its session.
pub record Session : Type 0 where
  pub is_ws : Bool
  pub secret : Option Bytes
  pub device_id : Option Str
  pub session_key : Option Bytes
  pub plugin_id : Option Str

-- `if value:` of bytes that may be `None`
abbrev pub is_given : Option Bytes → Bool
is_given none = false
is_given (some []) = false
is_given (some (b ∷ bytes)) = true

-- The bytes of a value that is given.
abbrev pub or_empty : Option Bytes → Bytes
or_empty none = []
or_empty (some bytes) = bytes

abbrev pub with_device_id : Str → Session → Session
with_device_id id session = record session { device_id = some id }

abbrev pub is_secured : Session → Bool
is_secured session = elim session.session_key [ none ↦ false | some key ↦ true ]

-- What comes back with the session that a call leaves.
abbrev pub Registered : Type 0
Registered = Session × Result RegisterAck

module _ (prim : Primitives) where
  -- Behind the derivation of the key.
  unfoldable pub with_key : Session → RegisterAck → Result Bytes → Registered
  with_key session ack (err e) = (session, err e)
  with_key session ack (ok key) = (record session { session_key = some key }, ok ack)

  -- `_apply_session_nonce`, and the ack that `register_full` returns behind it.
  unfoldable pub apply_session_nonce : Session → Str → RegisterAck → Registered
  apply_session_nonce session plugin_id ack =
      if is_given session.secret && is_given (some ack.session_nonce)
      then with_key session ack
          (derive_session_key prim (or_empty session.secret) ack.session_nonce plugin_id)
      else (session, ok ack)

  -- Behind `recv`.
  unfoldable pub on_reply : Session → Str → Envelope → Registered
  on_reply session plugin_id (plugin_register_ack ack) = apply_session_nonce session plugin_id ack
  on_reply session plugin_id (kernel_error e) = (
    session,
    err (
        internal
          (str "registration rejected: " ++ (e.message ++ (str " (" ++ (e.details ++ str ")"))))),
  )
  on_reply session plugin_id _ = (session, err (internal (str "expected PluginRegisterAck")))

  unfoldable pub on_reply_or_error : Session → Str → Result Envelope → Registered
  on_reply_or_error session plugin_id (err e) = (session, err e)
  on_reply_or_error session plugin_id (ok env) = on_reply session plugin_id env

  unfoldable pub register_request : Session → Str → Str → Str → Envelope
  register_request session plugin_id version jwt_token = plugin_register (record {
    plugin_id = plugin_id;
    version = version;
    jwt_token = jwt_token;
    device_id = or_empty session.device_id;
  })

  -- `send` is what sending comes to, and `reply` what `recv` comes to.
  unfoldable pub register_full :
      (Envelope → Result (Unit {0})) → Result Envelope → Session → Str → Str → Str → Registered
  register_full send reply session plugin_id version jwt_token =
      let named = record session { plugin_id = some plugin_id } in
      on_reply_or_error named plugin_id
        (send (register_request session plugin_id version jwt_token) >> reply)

  -- The frame that is handed to the transport: never compressed over a WebSocket.
  unfoldable pub outgoing_frame : Session → Str → ℕ → Bytes → Result Bytes
  outgoing_frame session target extra_flags payload =
      if session.is_ws
      then (do
        raise_if (ltb max_payload (length payload)) (payload_too_large (length payload))
        pack_frame prim target payload extra_flags session.session_key false)
      else pack_frame prim target payload extra_flags session.session_key true
