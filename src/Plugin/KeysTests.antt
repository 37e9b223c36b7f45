-- ===== src/Plugin/KeysTests.antt =====
-- A paired device, from the environment to its session key.
use vynkor_sdk_python.Prelude.{◌≡◌, refl, true, [], ◌∷◌, none, some}
use vynkor_sdk_python.Errors.{Result, ok}
use vynkor_sdk_python.Py.Text.{str, encode, encode_char}
use vynkor_sdk_python.Py.Crc.{checksum}
use vynkor_sdk_python.Messages.{RegisterAck, Envelope, plugin_register_ack}
use vynkor_sdk_python.Framing.Mac.{derive_session_key, hkdf_extract, hkdf_expand, expand_loop}
use vynkor_sdk_python.Framing.Tests.{toy}
use vynkor_sdk_python.Client.Session.{
  register_full, on_reply_or_error, on_reply, apply_session_nonce, with_key, with_device_id,
}
use vynkor_sdk_python.Client.Connect.{
  VynkorClient, new_client, on_ws, connect_ws, connect_ws_device, joined_protocols,
}
use vynkor_sdk_python.Plugin.Credentials.{
  Connection, ws_device, keyed, resolve_device, resolve_ws_credentials, connection_of,
  run_ws_connection,
}
use vynkor_sdk_python.Plugin.Defaults.{default_host}
use vynkor_sdk_python.Plugin.Run.{World, connect}
use vynkor_sdk_python.Plugin.Keys.{IsHeld, IsDerived, run_ws-IsDerived}

abbrev ack : RegisterAck
ack = record { accepted = true; reject_reason = []; session_nonce = 4 ∷ [] }

abbrev world : World
world = record {
  token = 116 ∷ [];
  device_id = some (100 ∷ []);
  device_secret = some (107 ∷ []);
  jwt_secret = none;
  open_unix_connection = λ path. ok tt;
  has_websockets = true;
  dial = λ url protocols. ok tt;
  host = λ client token. default_host (ok ack) (λ h s. ok tt) (λ h. 7);
  inbox = [];
  ws_close = ok tt;
  wait_closed = ok tt;
}

abbrev chosen : Connection
chosen = ws_device (119 ∷ []) (116 ∷ []) (100 ∷ []) (some (107 ∷ []))

chosen_by_run_ws :
    run_ws_connection (119 ∷ []) world.token world.device_id world.device_secret world.jwt_secret
    ≡ ok chosen
unfolding run_ws_connection resolve_ws_credentials resolve_device keyed connection_of encode
    encode_char
chosen_by_run_ws = refl

client : VynkorClient
unfolding on_ws new_client joined_protocols
client =
    let made = on_ws (joined_protocols (116 ∷ [])) (new_client (119 ∷ []) (some (107 ∷ []))) in
    record made { session = with_device_id (100 ∷ []) made.session }

connected : connect world chosen ≡ ok client
unfolding connect connect_ws_device connect_ws client
connected = refl

abbrev sends : Envelope → Result (Unit {0})
sends env = ok tt

registered :
    (register_full toy sends
      (ok (plugin_register_ack ack))
      client.session
      (112 ∷ [])
      []
      world.token).1
    ≡ ok ack
unfolding client register_full on_reply_or_error on_reply apply_session_nonce with_key
    derive_session_key hkdf_extract hkdf_expand expand_loop encode encode_char str checksum
registered = refl

run_ws-IsDerived_example :
    IsHeld world client.session
    × IsDerived toy client.session.secret
        (112 ∷ [])
        ack
        (register_full toy sends
          (ok (plugin_register_ack ack))
          client.session
          (112 ∷ [])
          []
          world.token).0.session_key
run_ws-IsDerived_example =
    run_ws-IsDerived world (119 ∷ []) chosen client toy sends (ok (plugin_register_ack ack))
      (112 ∷ []) [] ack chosen_by_run_ws connected registered
