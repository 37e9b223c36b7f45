-- ===== src/Gate/Handshake.antt =====
-- vynkor/confirmation_gate.py: the caller-side helpers against the gate that answers them.
use vynkor_sdk_python.Prelude.{
  ℕ, ◌+◌, ◌<◌, ◌/◌, ◌≡◌, refl, sym, ap, subst, ◌∙◌, true, List, [], ◌∷◌, some, All,
}
use vynkor_sdk_python.Errors.{Str, Bytes, Result, ok, >>=-eq-ok, ok-injective}
use vynkor_sdk_python.Py.Text.{str, str_eq, encode}
use vynkor_sdk_python.Py.Json.{Json, lookup}
use vynkor_sdk_python.Messages.{ActionRequest, ActionResponse, Envelope, action_ok, action_response}
use vynkor_sdk_python.Client.Requests.{
  Delivery, answers_action, action_reply, request, send_action, or_default, default_action_timeout,
}
use vynkor_sdk_python.Client.Correlation.{IsFirst, IsTimely, await_matching_finds}
use vynkor_sdk_python.Gate.Names.{request_name, confirm_name, response_ok}
use vynkor_sdk_python.Gate.Allowlist.{may_confirm}
use vynkor_sdk_python.Gate.Table.{Gate, Clock, pending_id, store_request}
use vynkor_sdk_python.Gate.Route.{
  Outside, Returned, pending_reply, pid_text, pending_id_of, loads_or_empty, parse_pending_id,
  route_request, route,
}
use vynkor_sdk_python.Gate.Caller.{
  pid_or_raise, confirm_params, pid_of_loaded, pid_of_response, send_confirmation_request,
}
use vynkor_sdk_python.Gate.Fresh.{IsFresh}
use vynkor_sdk_python.Gate.Confirm.{route_requests, route-route_confirms}

-- `json.loads` reads back what `json.dumps` wrote for this value.
abbrev pub Decodes : Outside → Json → Type 0
Decodes py value = (b : Bytes) → encode (py.dumps value) ≡ ok b → loads_or_empty py b ≡ ok value

pending_id_of-pending_reply :
    (wall seq : ℕ) (action : Str) (ttl : ℕ)
    → pending_id_of (pending_reply (pending_id wall seq) action ttl) ≡ some (pending_id wall seq)
unfolding pending_id_of pending_reply pid_text lookup pending_id str str_eq
pending_id_of-pending_reply wall seq action ttl = refl

pending_id_of-confirm_params :
    (wall seq : ℕ)
    → pending_id_of (confirm_params (pending_id wall seq)) ≡ some (pending_id wall seq)
unfolding pending_id_of confirm_params pid_text lookup pending_id str str_eq
pending_id_of-confirm_params wall seq = refl

abbrev first_or : Envelope → List Envelope → Envelope
first_or env [] = env
first_or env (e ∷ es) = e

module _ (py : Outside) where
  parse-confirm_params :
      (wall seq : ℕ) (params : Bytes)
      → Decodes py (confirm_params (pending_id wall seq))
      → encode (py.dumps (confirm_params (pending_id wall seq))) ≡ ok params
      → parse_pending_id py params ≡ ok (pending_id wall seq)
  unfolding parse_pending_id
  parse-confirm_params wall seq params decodes e =
      rw (decodes params e, parse_pending_id)
        (rw (pending_id_of-confirm_params wall seq, parse_pending_id) refl)

  pid_of_response-ok :
      (op id data_json : Str) (wall seq : ℕ) (action : Str) (ttl : ℕ)
      → loads_or_empty py data_json ≡ ok (pending_reply (pending_id wall seq) action ttl)
      → pid_of_response py op
          (record { action_id = id; status = action_ok; data_json = data_json; error = [] })
        ≡ ok (pending_id wall seq)
  unfolding pid_of_response pid_of_loaded pid_or_raise
  pid_of_response-ok op id data_json wall seq action ttl e =
      rw (e, pending_id_of-pending_reply wall seq action ttl) refl

  -- What `route` replies to a request, taken apart.
  replies-eq-ok :
      (gate : Gate) (clock : Clock) (req : ActionRequest) (reply : Envelope)
      → (route_request py gate clock req).replies ≡ ok (reply ∷ [])
      → (data_json : Bytes) × (encode (
            py.dumps
              (pending_reply (pending_id clock.wall gate.seq) req.action (gate.pending_ttl / 1000)))
          ≡ ok data_json)
        × (reply ≡ response_ok req.action_id data_json)
  unfolding route_request store_request
  replies-eq-ok gate clock req reply e =
      let (data_json, encoded, same) =
        >>=-eq-ok
          (encode (
            py.dumps (
              pending_reply (pending_id clock.wall gate.seq) req.action (gate.pending_ttl / 1000))))
          _ e in
      (data_json, encoded, sym (ap (first_or reply) (ok-injective same)))

  -- The requesting caller: its `send` succeeds, and the reply is the first answer that its connection
  -- delivers, in time.
  send_confirmation_request-finds :
      (send : Envelope → Result (Unit {0})) (now next : ℕ) (id op : Str) (params_json : Bytes)
      → (deliveries left : List Delivery) (resp : ActionResponse) (pid : Str)
      → ((env : Envelope) → send env ≡ ok tt)
      → next < now + or_default 0 default_action_timeout
      → All (IsTimely (now + or_default 0 default_action_timeout)) deliveries
      → IsFirst
          (answers_action id)
          (now + or_default 0 default_action_timeout)
          (action_response resp)
          deliveries
          left
      → pid_of_response py op resp ≡ ok pid
      → send_confirmation_request py send now next id op params_json deliveries ≡ (ok pid, left)
  unfolding send_confirmation_request send_action request action_reply
  send_confirmation_request-finds send now next id op params_json deliveries left resp pid sends
        early timely first got =
      let found =
        await_matching_finds (now + or_default 0 default_action_timeout) (answers_action id) next
          deliveries left (action_response resp) early timely first in
      rw (sends, found) (ap (λ r. (r, left)) got)

-- A caller asks for an action, the gate's reply is the first answer that its connection delivers, in
-- time, and `json.loads` reads back what `json.dumps` wrote. Then `send_confirmation_request` returns
-- the pending id under which the gate keeps the request; and when an approved caller confirms with
-- the parameters that `send_confirmation` writes for this id, before the request expires, the
-- executor is called once, with the parameters of the request.
pub send_confirmation_request-route :
    (py : Outside) (executor : Bytes → Result Returned) (gate : Gate) (first second : Clock)
    → (send : Envelope → Result (Unit {0})) (now next : ℕ) (req confirm : ActionRequest)
    → (reply : Envelope) (deliveries left : List Delivery)
    → let deadline = now + or_default 0 default_action_timeout in
      let pid = pending_id first.wall gate.seq in
      let asked = route py executor gate first req in
      IsFresh gate
      → Decodes py (pending_reply pid req.action (gate.pending_ttl / 1000))
      → Decodes py (confirm_params pid)
      → ((env : Envelope) → send env ≡ ok tt)
      → req.action ≡ request_name gate.op
      → asked.replies ≡ ok (reply ∷ [])
      → next < deadline
      → All (IsTimely deadline) deliveries
      → IsFirst (answers_action req.action_id) deadline reply deliveries left
      → confirm.action ≡ confirm_name gate.op
      → may_confirm gate.confirm_callers confirm.caller_plugin_id ≡ true
      → encode (py.dumps (confirm_params pid)) ≡ ok confirm.params_json
      → second.now < first.created + gate.pending_ttl
      → (send_confirmation_request py send now next req.action_id gate.op req.params_json deliveries
          ≡ (ok pid, left))
        × ((route py executor asked.gate second confirm).calls ≡ req.params_json ∷ [])
unfolding response_ok
send_confirmation_request-route py executor gate first second send now next req confirm reply
      deliveries left f replied confirmed sends named answer early timely arrives confirms allowed
      written live =
    let deadline = now + or_default 0 default_action_timeout in
    let branch =
      sym (ap (λ r. r.replies) (route_requests py executor gate first req named)) ∙ answer in
    let (data_json, encoded, same) = replies-eq-ok py gate first req reply branch in
    let got =
      pid_of_response-ok py gate.op req.action_id data_json first.wall gate.seq req.action
        (gate.pending_ttl / 1000) (replied data_json encoded) in
    (
      send_confirmation_request-finds py send now next req.action_id gate.op req.params_json
          deliveries left _ (pending_id first.wall gate.seq) sends early timely
          (subst (λ env. IsFirst (answers_action req.action_id) deadline env deliveries left) same
            arrives)
          got,
      (route-route_confirms py executor gate first second req confirm f named confirms allowed
          (parse-confirm_params py first.wall gate.seq confirm.params_json confirmed written)
          live).0,
    )
