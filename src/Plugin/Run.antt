-- ===== src/Plugin/Run.antt =====
-- vynkor/plugin.py: `run`, `run_with` and `run_ws`, from the environment to the closed connection.
use vynkor_sdk_python.Prelude.{Bool, List, [], ◌∷◌, Option}
use vynkor_sdk_python.Errors.{Str, Result, ok, err}
use vynkor_sdk_python.Messages.{Envelope}
use vynkor_sdk_python.Client.Connection.{CloseCall, close}
use vynkor_sdk_python.Client.Connect.{
  VynkorClient, connect_with_secret, connect_ws, connect_ws_device,
}
use vynkor_sdk_python.Plugin.Credentials.{
  Connection, with_secret, ws_device, ws, run_with_connection, run_ws_connection,
}
use vynkor_sdk_python.Plugin.SocketPath.{Machine, FileCall, socket_of}
use vynkor_sdk_python.Plugin.Serve.{History, Host, serve}

-- The environment variables, and what the calls to the outside come to: opening a connection, the
-- plugin's methods on a client and a token, what arrives, and the two closings that `close` awaits.
pub record World : Type 0 where
  pub token : Str
  pub device_id : Option Str
  pub device_secret : Option Str
  pub jwt_secret : Option Str
  pub open_unix_connection : Str → Result (Unit {0})
  pub has_websockets : Bool
  pub dial : Str → List Str → Result (Unit {0})
  pub host : VynkorClient → Str → Host
  pub inbox : List (Result Envelope)
  pub ws_close : Result (Unit {0})
  pub wait_closed : Result (Unit {0})

-- What has been done, in order: the call that makes the client, what `serve` did with it, and the
-- calls of its `close`.
pub data Stage : Type 0 where
  connecting : Connection → Stage
  served : VynkorClient → History → Stage
  closed : List CloseCall → Stage

-- `try: … finally: await client.close()`, with what `close` and the block came to.
unfoldable pub finally : Result (Unit {0}) → Result (Unit {0}) → Result (Unit {0})
finally (ok done) result = result
finally (err e) result = err e

module _ (world : World) where
  unfoldable pub connect : Connection → Result VynkorClient
  connect (with_secret path secret) = connect_with_secret world.open_unix_connection path secret
  connect (ws_device url token device_id secret) =
      connect_ws_device world.has_websockets world.dial url token device_id secret
  connect (ws url token secret) = connect_ws world.has_websockets world.dial url token secret

  -- Behind the call that makes the client.
  unfoldable pub with_client : Connection → Result VynkorClient → List Stage × Result (Unit {0})
  with_client c (err e) = (connecting c ∷ [], err e)
  with_client c (ok client) =
      let (history, result) = serve (world.host client world.token) world.inbox in
      let shut = close client.connection world.ws_close world.wait_closed in
      (connecting c ∷ served client history ∷ closed shut.calls ∷ [], finally shut.result result)

  -- Behind the choice of the credentials.
  unfoldable pub with_connection : Result Connection → List Stage × Result (Unit {0})
  with_connection (err e) = ([], err e)
  with_connection (ok c) = with_client c (connect c)

  unfoldable pub run_with : Str → List Stage × Result (Unit {0})
  run_with socket_path = with_connection (run_with_connection socket_path world.jwt_secret)

  unfoldable pub run_ws : Str → List Stage × Result (Unit {0})
  run_ws url =
      with_connection
        (run_ws_connection url world.token world.device_id world.device_secret world.jwt_secret)

  -- Behind the choice of the socket path.
  unfoldable pub run_at :
      List FileCall × Result Str → List FileCall × List Stage × Result (Unit {0})
  run_at (files, err e) = (files, [], err e)
  run_at (files, ok path) = let (stages, result) = run_with path in (files, stages, result)

  -- `socket_path` is `VYN_SOCKET_PATH`.
  unfoldable pub run : Machine → Option Str → List FileCall × List Stage × Result (Unit {0})
  run machine socket_path = run_at (socket_of machine socket_path)
