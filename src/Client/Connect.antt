-- ===== src/Client/Connect.antt =====
-- vynkor/client.py: the constructors of a `VynkorClient`, and the shorter ways to register. What
-- opening a socket comes to is a parameter.
use vynkor_sdk_python.Prelude.{
  ℕ, Bool, true, false, List, [], ◌∷◌, ◌++◌, if◌then◌else◌, Option, none, some,
}
use vynkor_sdk_python.Errors.{Str, Bytes, Result, ok, err, internal, ◌>>=◌, ◌>>◌}
use vynkor_sdk_python.Py.Text.{str, encode}
use vynkor_sdk_python.Messages.{Envelope}
use vynkor_sdk_python.Framing.Primitives.{Primitives}
use vynkor_sdk_python.Client.Reassembly.{Streams}
use vynkor_sdk_python.Client.Session.{Session, Registered, with_device_id, register_full}
use vynkor_sdk_python.Client.Connection.{Connection}
use vynkor_sdk_python.Plugin.Credentials.{is_set, value_of}
use vynkor_sdk_python.Plugin.SocketPath.{Machine, FileCall, socket_of}

-- What a `VynkorClient` keeps; `address` is `socket_path`, and `protocol` is `_ws_protocol`.
pub record VynkorClient : Type 0 where
  pub address : Str
  pub session : Session
  pub connection : Connection
  pub streams : Streams
  pub next_stream_id : ℕ
  pub protocol : Option Str

-- `__init__`
unfoldable pub new_client : Str → Option Bytes → VynkorClient
new_client socket_path secret = record {
  address = socket_path;
  session = record {
    is_ws = false;
    secret = secret;
    device_id = none;
    session_key = none;
    plugin_id = none;
  };
  connection = record { is_ws = false; ws_open = false; writer_open = false; reader_open = false };
  streams = [];
  next_stream_id = 1;
  protocol = none;
}

-- `_reader`, `_writer` and `_transport = "uds"`
unfoldable pub on_uds : VynkorClient → VynkorClient
on_uds client = record client {
  session = record client.session { is_ws = false };
  connection = record client.connection { is_ws = false; writer_open = true; reader_open = true };
}

-- `_ws` and `_transport = "ws"`
unfoldable pub on_ws : Str → VynkorClient → VynkorClient
on_ws protocol client = record client {
  session = record client.session { is_ws = true };
  connection = record client.connection { is_ws = true; ws_open = true };
  protocol = some protocol;
}

unfoldable pub from_stream : Option Bytes → VynkorClient
from_stream secret = on_uds (new_client [] secret)

-- `open_unix_connection` is what it comes to at a path.
module _ (open_unix_connection : Str → Result (Unit {0})) where
  unfoldable pub connect_with_secret : Str → Option Bytes → Result VynkorClient
  connect_with_secret socket_path secret = do
    open_unix_connection socket_path
    ok (on_uds (new_client socket_path secret))

  -- The path that `connect` on an instance keeps.
  unfoldable pub at_path : Option Str → VynkorClient → VynkorClient
  at_path none client = client
  at_path (some path) client = record client { address = path }

  -- Behind `open_unix_connection`.
  unfoldable pub after_open : VynkorClient → Result (Unit {0}) → VynkorClient × Result (Unit {0})
  after_open client (err e) = (client, err e)
  after_open client (ok done) = (on_uds client, ok tt)

  -- `connect` on an instance.
  unfoldable pub connect_instance : Option Str → VynkorClient → VynkorClient × Result (Unit {0})
  connect_instance socket_path client =
      let placed = at_path socket_path client in
      after_open placed (open_unix_connection placed.address)

  -- `VynkorClient.connect(path)`
  unfoldable pub connect_to : Str → Result VynkorClient
  connect_to socket_path = connect_with_secret socket_path none

  -- The call of `connect_from_env` at a socket path.
  unfoldable pub connect_at : Option Str → Str → Result VynkorClient
  connect_at jwt_secret socket_path =
      if is_set jwt_secret
      then (do key ← encode (value_of jwt_secret); connect_with_secret socket_path (some key))
      else connect_with_secret socket_path none

  -- Its variables are `VYN_SOCKET_PATH` and `VYN_JWT_SECRET`.
  unfoldable pub connect_from_env :
      Machine → Option Str → Option Str → List FileCall × Result VynkorClient
  connect_from_env machine socket_path jwt_secret =
      let (files, socket) = socket_of machine socket_path in
      (files, socket >>= connect_at jwt_secret)

-- `["vynkor"] + ([jwt_token] if jwt_token else [])`
unfoldable pub subprotocols : Str → List Str
subprotocols [] = str "vynkor" ∷ []
subprotocols (c ∷ jwt_token) = str "vynkor" ∷ (c ∷ jwt_token) ∷ []

-- `", ".join(…)` of them
unfoldable pub joined_protocols : Str → Str
joined_protocols [] = str "vynkor"
joined_protocols (c ∷ jwt_token) = str "vynkor, " ++ (c ∷ jwt_token)

-- Whether the websockets package can be imported, and what its `connect` comes to.
module _ (is_installed : Bool) (dial : Str → List Str → Result (Unit {0})) where
  unfoldable pub connect_ws : Str → Str → Option Bytes → Result VynkorClient
  connect_ws url jwt_token secret =
      if is_installed
      then (do
        dial url (subprotocols jwt_token)
        ok (on_ws (joined_protocols jwt_token) (new_client url secret)))
      else err (
          internal (
            str "websockets package required for WebSocket transport: "
            ++ str "pip install vynkor-sdk[websockets] or websockets>=12"))

  unfoldable pub connect_ws_device : Str → Str → Str → Option Bytes → Result VynkorClient
  connect_ws_device url jwt_token device_id device_secret = do
    client ← connect_ws url jwt_token device_secret
    ok (record client { session = with_device_id device_id client.session })

module _ (prim : Primitives) (send : Envelope → Result (Unit {0})) (reply : Result Envelope) where
  unfoldable pub register_with_token : Session → Str → Str → Registered
  register_with_token session plugin_id jwt_token =
      register_full prim send reply session plugin_id (str "1.0.0") jwt_token

  unfoldable pub register : Session → Str → Registered
  register session plugin_id = register_with_token session plugin_id []
