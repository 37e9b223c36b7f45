-- ===== src/Client/Calls.antt =====
-- vynkor/client.py: the calls that send one envelope, and the two that wait for the next one.
use vynkor_sdk_python.Prelude.{ℕ, ◌-◌, Bool, true, List, []}
use vynkor_sdk_python.Errors.{Str, Bytes, Result, ok, err, internal, ◌>>=◌}
use vynkor_sdk_python.Py.Text.{str}
use vynkor_sdk_python.Messages.{
  Envelope, subscription, unsubscription, event_ack, action_request, action_request_chunk,
  action_response_chunk, session_close, kernel_command, kernel_command_ack, ping, pong,
  audio_stream_chunk,
}

abbrev pub kernel : Str
kernel = str "kernel"

-- `send` is the client's own; what it returns is the frame that was written.
module _ (send : Str → Envelope → Result Bytes) where
  unfoldable pub subscribe : List Str → Result Bytes
  subscribe event_types = send kernel (subscription event_types)

  unfoldable pub unsubscribe : List Str → Result Bytes
  unsubscribe event_types = send kernel (unsubscription event_types)

  unfoldable pub ack_event : Str → Result Bytes
  ack_event event_id = send kernel (event_ack event_id)

  -- `action_id` is what `next_action_id` gave.
  unfoldable pub send_action_streaming : Str → Str → ℕ → Result Str
  send_action_streaming action_id action timeout_ms = do
    frame ← send kernel (
        action_request (record {
          action_id = action_id;
          action = action;
          params_json = [];
          caller_plugin_id = [];
          timeout_ms = timeout_ms;
          streaming = true;
        }))
    ok action_id

  unfoldable pub send_request_chunk : Str → ℕ → Bytes → Bool → Result Bytes
  send_request_chunk action_id seq chunk is_final = send kernel (
      action_request_chunk
        (record { action_id = action_id; seq = seq; chunk = chunk; final = is_final }))

  unfoldable pub send_response_chunk : Str → ℕ → Bytes → Result Bytes
  send_response_chunk action_id seq chunk =
      send kernel
        (action_response_chunk (record { action_id = action_id; seq = seq; chunk = chunk }))

  unfoldable pub close_session : Str → Str → Result Bytes
  close_session action_id reason =
      send kernel (session_close (record { action_id = action_id; reason = reason }))

  unfoldable pub send_audio_chunk : Str → Bytes → Result Bytes
  send_audio_chunk target chunk = send target (audio_stream_chunk chunk)

  -- The `KernelCommandAck`, serialized.
  unfoldable pub command_ack : Envelope → Result Bytes
  command_ack (kernel_command_ack ack) = ok ack
  command_ack _ = err (internal (str "expected KernelCommandAck"))

  -- `reply` is what `recv` comes to.
  unfoldable pub send_command : Result Envelope → Str → Str → Bytes → Result Bytes
  send_command reply command_id command params_json = do
    frame ← send kernel (
        kernel_command
          (record { command_id = command_id; command = command; params_json = params_json }))
    response ← reply
    command_ack response

  unfoldable pub pong_latency : ℕ → Envelope → Result ℕ
  pong_latency elapsed (pong ts server_time) = ok elapsed
  pong_latency elapsed _ = err (internal (str "expected Pong"))

  -- The wall clock in milliseconds, and the monotonic clock before the send and behind `recv`.
  unfoldable pub send_ping : Result Envelope → ℕ → ℕ → ℕ → Result ℕ
  send_ping reply wall began ended = do
    frame ← send kernel (ping wall)
    response ← reply
    pong_latency (ended - began) response
