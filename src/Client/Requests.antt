-- ===== src/Client/Requests.antt =====
-- vynkor/client.py: `_await_matching`, `send_action` and `publish_event`. Times are milliseconds.
use vynkor_sdk_python.Prelude.{
  ℕ, ◌+◌, Bool, true, false, ◌||◌, List, [], ◌∷◌, ◌++◌, leb, ◌==◌, if◌then◌else◌,
}
use vynkor_sdk_python.Errors.{
  Str, Bytes, Error, Result, ok, err, timeout, internal, foreign, timeout_error, ◌>>=◌,
}
use vynkor_sdk_python.Py.Text.{str, str_eq, decimal}
use vynkor_sdk_python.Messages.{
  ActionResponse, action_unknown, Envelope, action_request, action_response, kernel_error,
  event_publish, event_publish_ack, action_stream_abort, KernelError,
}

abbrev pub default_action_timeout : ℕ
default_action_timeout = 30000

abbrev pub default_publish_event_timeout : ℕ
default_publish_event_timeout = 30000

-- What one call of `recv` comes to, the time when it does, and the time of the next look at the
-- clock.
pub record Delivery : Type 0 where
  pub arrived : ℕ
  pub received : Result Envelope
  pub checked : ℕ

-- `except asyncio.TimeoutError: raise VynkorTimeout()`
unfoldable pub mapped : Error → Error
mapped (foreign timeout_error) = timeout []
mapped e = e

module _ (deadline : ℕ) (predicate : Envelope → Bool) where
  -- What `recv_timeout` came to; `rest` is the loop's next round.
  unfoldable pub on_received :
      Result Envelope
      → List Delivery
      → Result Envelope × List Delivery
      → Result Envelope × List Delivery
  on_received (err e) left rest = (err (mapped e), left)
  on_received (ok env) left rest = if predicate env then (ok env, left) else rest

  -- The loop from the clock's time `now`, and what the connection still delivers. When nothing more
  -- comes, or comes too late, `recv_timeout` runs into its timeout.
  unfoldable pub await_matching : ℕ → List Delivery → Result Envelope × List Delivery
  await_matching now [] = (err (timeout []), [])
  await_matching now (d ∷ left) =
      let rest = await_matching d.checked left in
      if leb deadline now || leb deadline d.arrived
      then (err (timeout []), d ∷ left)
      else on_received d.received left rest

-- `timeout_ms / 1000 if timeout_ms else DEFAULT`
unfoldable pub or_default : ℕ → ℕ → ℕ
or_default timeout_ms fallback = if timeout_ms == 0 then fallback else timeout_ms

-- What a request handed to the client's `send`, its result, and what the connection delivers next.
pub record Requested (R : Type 0) : Type 0 where
  pub sent : Envelope
  pub result : Result R
  pub left : List Delivery

unfoldable pub kernel_failure : KernelError → Error
kernel_failure e =
    internal (str "kernel error: " ++ (e.message ++ (str " (" ++ (e.details ++ str ")"))))

-- `f"act-{int(time.time() * 1000)}-{next(_action_seq)}"`
unfoldable pub next_action_id : ℕ → ℕ → Str
next_action_id wall seq = str "act-" ++ (decimal wall ++ (str "-" ++ decimal seq))

-- The predicate of `send_action`.
unfoldable pub answers_action : Str → Envelope → Bool
answers_action id (action_response r) = str_eq r.action_id id
answers_action id (action_stream_abort a) = str_eq a.action_id id
answers_action id (kernel_error e) = true
answers_action id _ = false

-- `resp.action_response` of another envelope is the message with no field set.
abbrev pub no_response : ActionResponse
no_response = record { action_id = []; status = action_unknown; data_json = []; error = [] }

unfoldable pub action_reply : Envelope → Result ActionResponse
action_reply (kernel_error e) = err (kernel_failure e)
action_reply (action_stream_abort a) = err (internal (str "stream aborted: " ++ a.reason))
action_reply (action_response r) = ok r
action_reply _ = ok no_response

-- The predicate of `publish_event`.
unfoldable pub answers_publish : Envelope → Bool
answers_publish (event_publish_ack s) = true
answers_publish (kernel_error e) = true
answers_publish _ = false

-- The `EventPublishAck`, serialized.
unfoldable pub publish_reply : Envelope → Result Bytes
publish_reply (kernel_error e) = err (kernel_failure e)
publish_reply (event_publish_ack s) = ok s
publish_reply _ = ok []

module _ {R : Type 0} (matches : Envelope → Bool) (reply : Envelope → Result R) where
  -- Behind the send of `env`: wait until the deadline, and read the reply.
  unfoldable pub request : Envelope → Result (Unit {0}) → ℕ → ℕ → List Delivery → Requested R
  request env (err e) deadline now deliveries = record {
    sent = env;
    result = err e;
    left = deliveries;
  }
  request env (ok done) deadline now deliveries =
      let (got, rest) = await_matching deadline matches now deliveries in
      record { sent = env; result = got >>= reply; left = rest }

-- `now` is the clock behind the send, and `next` at the first check of the loop.
module _ (send : Envelope → Result (Unit {0})) (now next : ℕ) where
  unfoldable pub send_action : Str → Str → Bytes → ℕ → List Delivery → Requested ActionResponse
  send_action id action params_json timeout_ms deliveries =
      let env = action_request (record {
        action_id = id;
        action = action;
        params_json = params_json;
        caller_plugin_id = [];
        timeout_ms = timeout_ms;
        streaming = false;
      }) in
      let deadline = now + or_default timeout_ms default_action_timeout in
      request (answers_action id) action_reply env (send env) deadline next deliveries

  unfoldable pub publish_event : Str → Bytes → ℕ → List Delivery → Requested Bytes
  publish_event event_type payload_json timeout_ms deliveries =
      let env = event_publish (record { event_type = event_type; payload_json = payload_json }) in
      let deadline = now + or_default timeout_ms default_publish_event_timeout in
      request answers_publish publish_reply env (send env) deadline next deliveries
