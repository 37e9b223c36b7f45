-- ===== src/Plugin/Tests.antt =====
-- Runs of the plugin's code at concrete inputs.
use vynkor_sdk_python.Prelude.{◌≡◌, refl, true, List, [], ◌∷◌, none, some}
use vynkor_sdk_python.Errors.{Result, ok, err, foreign, user_error}
use vynkor_sdk_python.Py.Text.{str, decimal, encode, encode_char}
use vynkor_sdk_python.Messages.{RegisterAck, Envelope, ping, event}
use vynkor_sdk_python.Plugin.Credentials.{
  WsCredentials, device, keyed, resolve_device, resolve_ws_credentials, run_with_connection,
  run_ws_connection,
}
use vynkor_sdk_python.Plugin.Serve.{Host, serve}
use vynkor_sdk_python.Plugin.Defaults.{default_host}
use vynkor_sdk_python.Plugin.Lifecycle.{IsClosed, serve-IsClosed}
use vynkor_sdk_python.Plugin.SocketPath.{
  Machine, is_open, join, run_user, default_socket_path, socket_of,
}
use vynkor_sdk_python.Plugin.Run.{World, run_with, run_ws, run}
use vynkor_sdk_python.Plugin.Endings.{run-IsRun}
use vynkor_sdk_python.Plugin.Outcomes.{IsRun, connection_at}

abbrev paired : WsCredentials
paired = record { kind = device; device_id = 100 ∷ []; secret = some (107 ∷ []) }

resolved : resolve_ws_credentials (some (100 ∷ [])) (some (107 ∷ [])) none ≡ ok paired
unfolding resolve_ws_credentials resolve_device keyed encode encode_char
resolved = refl

abbrev accepting : RegisterAck
accepting = record { accepted = true; reject_reason = []; session_nonce = [] }

-- A plugin that fails on every event and answers nothing.
abbrev host : Host
host = record {
  register = ok accepting;
  on_init = λ h. ok tt;
  on_event = λ h e. err (foreign (user_error []));
  on_message = λ h env. ok none;
  on_shutdown = λ h. ok tt;
  deliver = λ h s. ok tt;
  wall = λ h. 7;
}

abbrev inbox : List (Result Envelope)
inbox = ok (ping 3) ∷ ok (event (record { event_id = 101 ∷ []; payload_json = [] })) ∷ []

serve-IsClosed_example : IsClosed host (serve host inbox).0
serve-IsClosed_example = serve-IsClosed host inbox accepting refl refl

-- The same plugin on a machine whose only variable is the socket's path.
abbrev world : World
world = record {
  token = [];
  device_id = none;
  device_secret = none;
  jwt_secret = none;
  open_unix_connection = λ path. ok tt;
  has_websockets = true;
  dial = λ url protocols. err (foreign (user_error []));
  host = λ client token. default_host (ok accepting) (λ h s. ok tt) (λ h. 7);
  inbox = inbox;
  ws_close = ok tt;
  wait_closed = err (foreign (user_error []));
}

abbrev machine : Machine
machine = record {
  runtime_dir = none;
  uid = 7;
  is_dir = λ path. true;
  home = [];
  make_dirs = λ path. ok tt;
  change_mode = λ path mode. ok tt;
}

default_path : default_socket_path machine ≡ ([], ok (str "/run/user/7/vyn.sock"))
unfolding default_socket_path run_user join is_open str decimal
default_path = refl

run-IsRun_example :
    (((run world machine (some (str "/s"))).0 ≡ (socket_of machine (some (str "/s"))).0)
      × IsRun world
          (connection_at world (socket_of machine (some (str "/s"))).1)
          ((run world machine (some (str "/s"))).1, (run world machine (some (str "/s"))).2))
    × IsRun world (run_with_connection (str "/p") none) (run_with world (str "/p"))
    × IsRun world (run_ws_connection (str "ws:") [] none none none) (run_ws world (str "ws:"))
run-IsRun_example = run-IsRun world machine (some (str "/s")) (str "/p") (str "ws:")
