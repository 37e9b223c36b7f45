-- ===== src/Echo/Handlers.antt =====
-- examples/echo_plugin.py: the handlers of `EchoPlugin`. What it prints, and the sender id of its
-- envelopes, are not kept.
use vynkor_sdk_python.Prelude.{
  ℕ, ◌/◌, Bool, true, false, ◌&&◌, List, [], ◌∷◌, ◌++◌, leb, if◌then◌else◌, Option, none, some,
  length, take, drop, map,
}
use vynkor_sdk_python.Prelude.Dict.{Dict, nat_key}
use vynkor_sdk_python.Prelude.Dict
use vynkor_sdk_python.Errors.{
  Str, Bytes, Error, Result, ok, err, foreign, key_error, is_exception, ◌>>=◌,
}
use vynkor_sdk_python.Py.Text.{str, str_eq}
use vynkor_sdk_python.Client.Requests.{Delivery}
use vynkor_sdk_python.Client.Requests
use vynkor_sdk_python.Py.Json.{Json, object, member, done}
use vynkor_sdk_python.Messages.{
  ActionRequest, ActionStatus, action_ok, action_error, action_not_found, Envelope, action_request,
  action_response, action_request_chunk, action_response_chunk, RequestChunk, subscription,
}

pub record EchoPlugin : Type 0 where
  pub stream_action_id : Option Str
  pub stream_chunks : Dict ℕ Bytes

-- `EventPublishAck`: whether its status is EVENT_PUBLISH_OK, and its error.
pub record PublishAck : Type 0 where
  pub published : Bool
  pub error : Str

-- The client and the `json` module, as a call of a handler finds them. Whether a send raises may
-- depend on what the handler sent before. `deliveries` is what the connection delivers from then on,
-- `now` and `next` the clock behind a send and at the next look, and `ack_of` parses an
-- `EventPublishAck`.
pub record World : Type 0 where
  pub send : List Envelope → Envelope → Result (Unit {0})
  pub now : ℕ
  pub next : ℕ
  pub deliveries : List Delivery
  pub ack_of : Bytes → PublishAck
  pub loads : Bytes → Result Json
  pub dumps : Json → Bytes
  pub str_error : Error → Str

-- What a handler leaves: the plugin, the envelopes that it hands to `client.send` itself, what the
-- connection delivers next, and what it returns.
pub record Handled : Type 0 where
  pub plugin : EchoPlugin
  pub sent : List Envelope
  pub left : List Delivery
  pub result : Result (Option Envelope)

abbrev pub no_session : EchoPlugin
no_session = record { stream_action_id = none; stream_chunks = [] }

abbrev pub session_of : Str → Dict ℕ Bytes → EchoPlugin
session_of id chunks = record { stream_action_id = some id; stream_chunks = chunks }

unfoldable pub response : Str → ActionStatus → Bytes → Str → Envelope
response id status data_json error =
    action_response
      (record { action_id = id; status = status; data_json = data_json; error = error })

-- `sorted(self._stream_chunks)`
unfoldable pub place : ℕ → List ℕ → List ℕ
place seq [] = seq ∷ []
place seq (other ∷ seqs) =
    let rest = place seq seqs in if leb seq other then seq ∷ other ∷ seqs else other ∷ rest

unfoldable pub sorted : List ℕ → List ℕ
sorted [] = []
sorted (seq ∷ seqs) = place seq (sorted seqs)

abbrev pub keys : Dict ℕ Bytes → List ℕ
keys chunks = map (λ entry. entry.0) chunks

-- `self._stream_chunks[seq]`
abbrev pub chunk_or_raise : ℕ → Option Bytes → Result Bytes
chunk_or_raise seq none = err (foreign (key_error seq))
chunk_or_raise seq (some chunk) = ok chunk

unfoldable pub join_chunks : Dict ℕ Bytes → List ℕ → Result Bytes
join_chunks chunks [] = ok []
join_chunks chunks (seq ∷ seqs) = do
  chunk ← chunk_or_raise seq (Dict.get seq chunks)
  rest ← join_chunks chunks seqs
  ok (chunk ++ rest)

abbrev pub response_chunk : Str → ℕ → Bytes → Envelope
response_chunk id seq chunk =
    action_response_chunk (record { action_id = id; seq = seq; chunk = chunk })

-- The two halves of the request, and the terminal response.
unfoldable pub stream_replies : Str → Bytes → List Envelope
stream_replies id full =
    let mid = length full / 2 in
    response_chunk id 0 (take mid full)
    ∷ response_chunk id 1 (drop mid full)
    ∷ response id action_ok full []
    ∷ []

unfoldable pub after_send :
    Result (Unit {0})
    → List Envelope
    → List Envelope × Result (Unit {0})
    → List Envelope × Result (Unit {0})
after_send (err e) sent more = (sent, err e)
after_send (ok unit) sent more = more

-- `req.params_json or b"{}"`
abbrev pub params_or_empty : Bytes → Bytes
params_or_empty [] = str "{}"
params_or_empty (b ∷ bytes) = b ∷ bytes

module _ (world : World) where
  -- A handler that awaits nothing.
  abbrev pub returns : EchoPlugin → Result (Option Envelope) → Handled
  returns plugin result = record {
    plugin = plugin;
    sent = [];
    left = world.deliveries;
    result = result;
  }

  -- Sends one envelope after the other; an exception leaves the rest unsent.
  unfoldable pub send_each : List Envelope → List Envelope → List Envelope × Result (Unit {0})
  send_each sent [] = (sent, ok tt)
  send_each sent (env ∷ envs) =
      let more = send_each (sent ++ (env ∷ [])) envs in after_send (world.send sent env) sent more

  -- Behind the sends: the session is over, unless one of them raised.
  unfoldable pub end_stream : EchoPlugin → List Envelope × Result (Unit {0}) → Handled
  end_stream plugin (sent, err e) = record {
    plugin = plugin;
    sent = sent;
    left = world.deliveries;
    result = err e;
  }
  end_stream plugin (sent, ok unit) = record {
    plugin = no_session;
    sent = sent;
    left = world.deliveries;
    result = ok none;
  }

  unfoldable pub reply_stream : EchoPlugin → Str → Result Bytes → Handled
  reply_stream plugin id (err e) = returns plugin (err e)
  reply_stream plugin id (ok full) = end_stream plugin (send_each [] (stream_replies id full))

  unfoldable pub store_part : Str → Dict ℕ Bytes → Bool → Handled
  store_part id chunks false = returns (session_of id chunks) (ok none)
  store_part id chunks true =
      reply_stream (session_of id chunks) id (join_chunks chunks (sorted (keys chunks)))

  -- `_handle_request_chunk`
  unfoldable pub in_session : EchoPlugin → Option Str → RequestChunk → Handled
  in_session plugin none chunk = returns plugin (ok none)
  in_session plugin (some id) chunk =
      if str_eq chunk.action_id id
      then store_part id (Dict.insert chunk.seq chunk.chunk plugin.stream_chunks) chunk.final
      else returns plugin (ok none)

  unfoldable pub handle_request_chunk : EchoPlugin → RequestChunk → Handled
  handle_request_chunk plugin chunk = in_session plugin plugin.stream_action_id chunk

  unfoldable pub publish_response : Str → Result PublishAck → Result Envelope
  publish_response id (ok ack) =
      ok (
        if ack.published
        then response id action_ok [] []
        else response id action_error [] ack.error)
  publish_response id (err e) =
      if is_exception e then ok (response id action_error [] (world.str_error e)) else err e

  -- `await self._client.publish_event("test_publish", req.params_json, 0)`: its acknowledgement, and
  -- what the connection delivers next. What came before the acknowledgement is gone.
  unfoldable pub published : Bytes → Result PublishAck × List Delivery
  published payload_json =
      let requested =
        Requests.publish_event (world.send []) world.now world.next (str "test_publish")
          payload_json 0 world.deliveries in
      ((do ack ← requested.result; ok (world.ack_of ack)), requested.left)

  unfoldable pub handle_publish_test : ActionRequest → Result Envelope × List Delivery
  handle_publish_test req =
      let (acked, left) = published req.params_json in (publish_response req.action_id acked, left)

  unfoldable pub echo_response : ActionRequest → Result Envelope
  echo_response req = do
    params ← world.loads (params_or_empty req.params_json)
    ok (
        response req.action_id action_ok (world.dumps (object (member (str "echo") params done)))
          [])

  -- An action that opens no session.
  unfoldable pub plain_action : ActionRequest → Result Envelope × List Delivery
  plain_action req = if str_eq req.action (str "publish_test") then handle_publish_test req else (
    (if str_eq req.action (str "echo")
        then echo_response req
        else ok
            (response req.action_id action_not_found [] (str "unknown action: " ++ req.action))),
    world.deliveries,
  )

  -- `_handle_action`
  unfoldable pub handle_action : EchoPlugin → ActionRequest → Handled
  handle_action plugin req =
      if str_eq req.action (str "stream_echo") && req.streaming
      then returns (session_of req.action_id [])
          (ok (some (response req.action_id action_ok [] [])))
      else record {
        plugin = plugin;
        sent = [];
        left = (plain_action req).1;
        result = (do reply ← (plain_action req).0; ok (some reply));
      }

  unfoldable pub on_message : EchoPlugin → Envelope → Handled
  on_message plugin (action_request req) = handle_action plugin req
  on_message plugin (action_request_chunk chunk) = handle_request_chunk plugin chunk
  on_message plugin env = returns plugin (ok none)

  -- `await client.subscribe(list(self.manifest().events))`
  unfoldable pub on_init : Result (Unit {0})
  on_init = world.send [] (subscription (str "system.low_memory" ∷ []))
