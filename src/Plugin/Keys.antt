-- ===== src/Plugin/Keys.antt =====
-- vynkor/plugin.py: the secret behind the session key of a client that `run_ws` made.
use vynkor_sdk_python.Prelude.{◌≡◌, ap, ◌∙◌, ◌⊎◌, inl, inr, true, false, ◌&&◌, Option, none, some}
use vynkor_sdk_python.Errors.{Str, Bytes, Result, ok, ok-injective, >>=-eq-ok}
use vynkor_sdk_python.Py.Text.{encode}
use vynkor_sdk_python.Messages.{RegisterAck, Envelope}
use vynkor_sdk_python.Framing.Primitives.{Primitives}
use vynkor_sdk_python.Framing.Mac.{derive_session_key}
use vynkor_sdk_python.Client.Session.{Session, is_given, or_empty, register_full}
use vynkor_sdk_python.Client.Clear.{IsKeyed, register_full-IsKeyed}
use vynkor_sdk_python.Client.Connect.{VynkorClient}
use vynkor_sdk_python.Plugin.Credentials.{
  Kind, device, shared, unsecured, WsCredentials, is_set, value_of, resolve_ws_credentials,
  Connection, connection_of, run_ws_connection,
}
use vynkor_sdk_python.Plugin.Policy.{IsPolicy, resolve_ws_credentials-IsPolicy}
use vynkor_sdk_python.Plugin.Run.{World, connect}
use vynkor_sdk_python.Plugin.Endings.{connect-IsMade}
use vynkor_sdk_python.Plugin.Outcomes.{IsMade}

-- The text of the variable, encoded.
abbrev pub IsTextOf : Option Str → Option Bytes → Type 0
IsTextOf variable secret =
    (bytes : Bytes) × (encode (value_of variable) ≡ ok bytes) × (secret ≡ some bytes)

-- What a session holds: the pair of a device, the host's secret, or neither.
abbrev pub IsHeld : World → Session → Type 0
IsHeld world session =
    ((is_set world.device_id ≡ true)
      × (is_set world.device_secret ≡ true)
      × (is_set world.jwt_secret ≡ false)
      × (session.device_id ≡ some (value_of world.device_id))
      × IsTextOf world.device_secret session.secret)
    ⊎ ((is_set world.device_id ≡ false)
        × (is_set world.device_secret ≡ false)
        × (is_set world.jwt_secret ≡ true)
        × (session.device_id ≡ none)
        × IsTextOf world.jwt_secret session.secret)
    ⊎ ((is_set world.device_id ≡ false)
        × (is_set world.device_secret ≡ false)
        × (is_set world.jwt_secret ≡ false)
        × (session.device_id ≡ none)
        × (session.secret ≡ none))

-- The session key, behind a registration with that ack: derived from the secret, or none.
abbrev pub IsDerived : Primitives → Option Bytes → Str → RegisterAck → Option Bytes → Type 0
IsDerived prim secret plugin_id ack session_key =
    ((key : Bytes) × (is_given secret && is_given (some ack.session_nonce) ≡ true)
      × (derive_session_key prim (or_empty secret) ack.session_nonce plugin_id ≡ ok key)
      × (session_key ≡ some key))
    ⊎ ((is_given secret && is_given (some ack.session_nonce) ≡ false) × (session_key ≡ none))

connection_of-IsHeld :
    (world : World) (url : Str) (client : VynkorClient) (kind : Kind) (id : Str)
    (secret : Option Bytes)
    → let creds : WsCredentials = record { kind = kind; device_id = id; secret = secret } in
      IsPolicy world.device_id world.device_secret world.jwt_secret creds
      → IsMade (connection_of url world.token creds) client
      → IsHeld world client.session × (client.session.session_key ≡ none)
unfolding connection_of
connection_of-IsHeld world url client device id secret (d, s, j, same, key) (session, connection) =
    (
      inl (
        d,
        s,
        j,
        ap Session.device_id session ∙ ap some same,
        (key.0, key.1, ap Session.secret session ∙ key.2),
      ),
      ap Session.session_key session,
    )
connection_of-IsHeld world url client shared id secret (d, s, j, key) (session, connection) = (
  inr (
      inl
        (d, s, j, ap Session.device_id session, (key.0, key.1, ap Session.secret session ∙ key.2))),
  ap Session.session_key session,
)
connection_of-IsHeld world url client unsecured id secret (d, s, j, absent) (session, connection) =
    (
      inr (inr (d, s, j, ap Session.device_id session, ap Session.secret session ∙ absent)),
      ap Session.session_key session,
    )

-- What `run_ws` connects with.
made-IsHeld :
    (world : World) (url : Str) (c : Connection) (client : VynkorClient)
    → run_ws_connection url world.token world.device_id world.device_secret world.jwt_secret ≡ ok c
    → connect world c ≡ ok client
    → IsHeld world client.session × (client.session.session_key ≡ none)
unfolding run_ws_connection
made-IsHeld world url c client chosen made =
    let (creds, resolved, same) =
      >>=-eq-ok (resolve_ws_credentials world.device_id world.device_secret world.jwt_secret)
        (λ creds. ok (connection_of url world.token creds)) chosen in
    let policy =
      resolve_ws_credentials-IsPolicy world.device_id world.device_secret world.jwt_secret creds
        resolved in
    let there : connect world (connection_of url world.token creds) ≡ ok client =
      ap (connect world) (ok-injective same) ∙ made in
    connection_of-IsHeld world url client creds.kind creds.device_id creds.secret policy
      (connect-IsMade world (connection_of url world.token creds) client there)

IsKeyed-IsDerived :
    (prim : Primitives) (before after : Session) (plugin_id : Str) (ack : RegisterAck)
    → before.session_key ≡ none
    → IsKeyed prim before plugin_id ack after
    → IsDerived prim before.secret plugin_id ack after.session_key
IsKeyed-IsDerived prim before after plugin_id ack fresh (inl keyed) = inl keyed
IsKeyed-IsDerived prim before after plugin_id ack fresh (inr (missing, kept)) =
    inr (missing, kept ∙ fresh)

-- A client that `run_ws` made holds the device's own id and secret where the variables are those of
-- a paired device, the JWT secret where only that is set, and no secret where none is; and behind
-- a registration that was acknowledged its session key is the one derived from that secret, the
-- ack's nonce and the plugin's id, or there is none where the secret or the nonce is missing.
pub run_ws-IsDerived :
    (world : World) (url : Str) (c : Connection) (client : VynkorClient) (prim : Primitives)
    (send : Envelope → Result (Unit {0})) (reply : Result Envelope) (plugin_id version : Str)
    (ack : RegisterAck)
    → run_ws_connection url world.token world.device_id world.device_secret world.jwt_secret ≡ ok c
    → connect world c ≡ ok client
    → (register_full prim send reply client.session plugin_id version world.token).1 ≡ ok ack
    → IsHeld world client.session
      × IsDerived prim client.session.secret plugin_id ack
          (register_full prim send reply client.session plugin_id version world.token).0.session_key
run_ws-IsDerived world url c client prim send reply plugin_id version ack chosen made registered =
    let (held, fresh) = made-IsHeld world url c client chosen made in
    (
      held,
      IsKeyed-IsDerived prim client.session
          (register_full prim send reply client.session plugin_id version world.token).0 plugin_id
          ack fresh
          (register_full-IsKeyed prim send reply client.session plugin_id version world.token ack
            registered),
    )
