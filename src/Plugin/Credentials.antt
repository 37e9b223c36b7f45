-- ===== src/Plugin/Credentials.antt =====
-- vynkor/plugin.py: `resolve_ws_credentials`, and the client that `run_with` and `run_ws` connect.
use vynkor_sdk_python.Prelude.{
  Bool, true, false, ◌&&◌, [], ◌∷◌, ◌++◌, if◌then◌else◌, Option, none, some,
}
use vynkor_sdk_python.Errors.{Str, Bytes, Result, ok, internal, raise_if, ◌>>=◌, ◌>>◌}
use vynkor_sdk_python.Py.Text.{str, encode}

pub data Kind : Type 0 where
  device shared unsecured : Kind

pub record WsCredentials : Type 0 where
  pub kind : Kind
  pub device_id : Str
  pub secret : Option Bytes

-- `if value:` of an environment variable: `None` and "" are both false.
abbrev pub is_set : Option Str → Bool
is_set none = false
is_set (some []) = false
is_set (some (c ∷ s)) = true

-- The text of a variable that is set.
abbrev pub value_of : Option Str → Str
value_of none = []
value_of (some s) = s

-- `secret.encode()` in a credential.
unfoldable pub keyed : Kind → Str → Option Str → Result WsCredentials
keyed kind device_id secret = do
  key ← encode (value_of secret)
  ok (record { kind = kind; device_id = device_id; secret = some key })

-- The branch of a complete device pair.
unfoldable pub resolve_device : Option Str → Option Str → Option Str → Result WsCredentials
resolve_device device_id device_secret jwt_secret = do
  raise_if (is_set jwt_secret) (
      internal (
        str "VYN_JWT_SECRET is set alongside VYN_DEVICE_ID/VYN_DEVICE_SECRET — "
        ++ str "a paired device must not hold the host master secret; unset it"))
  keyed device (value_of device_id) device_secret

-- The branches without a complete device pair.
unfoldable pub resolve_shared : Option Str → Option Str → Option Str → Result WsCredentials
resolve_shared device_id device_secret jwt_secret = do
  raise_if (is_set device_id) (internal (str "VYN_DEVICE_ID is set without VYN_DEVICE_SECRET"))
  raise_if (is_set device_secret) (internal (str "VYN_DEVICE_SECRET is set without VYN_DEVICE_ID"))
  (if is_set jwt_secret
      then keyed shared [] jwt_secret
      else ok (record { kind = unsecured; device_id = []; secret = none }))

unfoldable pub resolve_ws_credentials : Option Str → Option Str → Option Str → Result WsCredentials
resolve_ws_credentials device_id device_secret jwt_secret =
    if is_set device_id && is_set device_secret
    then resolve_device device_id device_secret jwt_secret
    else resolve_shared device_id device_secret jwt_secret

-- The call that makes the client: its address, its token, its device id and its secret.
pub data Connection : Type 0 where
  with_secret : Str → Option Bytes → Connection
  ws_device : Str → Str → Str → Option Bytes → Connection
  ws : Str → Str → Option Bytes → Connection

-- `run_with`, up to the connection; `jwt_secret` is `VYN_JWT_SECRET`.
unfoldable pub run_with_connection : Str → Option Str → Result Connection
run_with_connection socket_path jwt_secret =
    if is_set jwt_secret
    then (do key ← encode (value_of jwt_secret); ok (with_secret socket_path (some key)))
    else ok (with_secret socket_path none)

unfoldable pub connection_of : Str → Str → WsCredentials → Connection
connection_of url token creds = elim creds.kind [
  | device ↦ ws_device url token creds.device_id creds.secret
  | _ ↦ ws url token creds.secret
]

-- `run_ws`, up to the connection; the variables are token, device id, device secret, JWT secret.
unfoldable pub run_ws_connection :
    Str → Str → Option Str → Option Str → Option Str → Result Connection
run_ws_connection url token device_id device_secret jwt_secret = do
  creds ← resolve_ws_credentials device_id device_secret jwt_secret
  ok (connection_of url token creds)
