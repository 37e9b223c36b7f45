-- ===== src/Plugin/Outcomes.antt =====
-- vynkor/plugin.py: what a run of `run`, `run_with` or `run_ws` may come to.
use vynkor_sdk_python.Prelude.{
  ◌≡◌, ◌⊎◌, List, [], ◌∷◌, Option, Bool, true, false, none, some, if◌then◌else◌,
}
use vynkor_sdk_python.Errors.{Str, Bytes, Error, Result, ok, err}
use vynkor_sdk_python.Client.Connection.{
  CloseCall, ws_closed, writer_closed, Closed, uds_connection, ws_connection, close, IsShut,
}
use vynkor_sdk_python.Client.Connect.{VynkorClient}
use vynkor_sdk_python.Plugin.Credentials.{
  with_secret, ws_device, ws, run_with_connection, run_ws_connection,
}
use vynkor_sdk_python.Plugin.Credentials
use vynkor_sdk_python.Plugin.Serve.{serve}
use vynkor_sdk_python.Plugin.Run.{World, Stage, connecting, served, closed, connect}

-- The last result: what `close` raised, or else, with nothing of the connection left open, what
-- the run of `serve` came to.
abbrev pub IsFinal : Closed → Result (Unit {0}) → Result (Unit {0}) → Type 0
IsFinal shut result last =
    ((e : Error) × (shut.result ≡ err e) × (last ≡ err e))
    ⊎ ((shut.result ≡ ok tt) × IsShut shut.connection × (last ≡ result))

-- The session and the connection of a client that was just made, and the one closing that `close`
-- awaits on it.
abbrev pub IsNew : Bool → Option Bytes → Option Str → VynkorClient → Type 0
IsNew is_ws secret device_id client =
    (client.session ≡ record {
      is_ws = is_ws;
      secret = secret;
      device_id = device_id;
      session_key = none;
      plugin_id = none;
    })
    × (client.connection ≡ (if is_ws then ws_connection else uds_connection))

abbrev pub IsMade : Credentials.Connection → VynkorClient → Type 0
IsMade (with_secret path secret) client = IsNew false secret none client
IsMade (ws_device url token device_id secret) client = IsNew true secret (some device_id) client
IsMade (ws url token secret) client = IsNew true secret none client

abbrev pub closing_of : Credentials.Connection → CloseCall
closing_of (with_secret path secret) = writer_closed
closing_of (ws_device url token device_id secret) = ws_closed
closing_of (ws url token secret) = ws_closed

-- A client that was made: the plugin serves on it, and then it is closed, once.
abbrev pub IsServed :
    World → Credentials.Connection → VynkorClient → List Stage × Result (Unit {0}) → Type 0
IsServed world c client (stages, last) =
    (stages
      ≡ connecting c
        ∷ served client (serve (world.host client world.token) world.inbox).0
        ∷ closed (closing_of c ∷ [])
        ∷ [])
    × IsFinal (close client.connection world.ws_close world.wait_closed)
        (serve (world.host client world.token) world.inbox).1 last

-- A run, by the choice of its connection: refused, not made, or made.
abbrev pub IsRun : World → Result Credentials.Connection → List Stage × Result (Unit {0}) → Type 0
IsRun world (err e) outcome = outcome ≡ ([], err e)
IsRun world (ok c) outcome =
    ((e : Error) × (connect world c ≡ err e) × (outcome ≡ (connecting c ∷ [], err e)))
    ⊎ ((client : VynkorClient) × (connect world c ≡ ok client)
        × IsMade c client
        × IsServed world c client outcome)

-- The choice of `run`, by that of its socket path.
abbrev pub connection_at : World → Result Str → Result Credentials.Connection
connection_at world (err e) = err e
connection_at world (ok path) = run_with_connection path world.jwt_secret
