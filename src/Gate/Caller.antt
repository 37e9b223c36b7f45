-- ===== src/Gate/Caller.antt =====
-- vynkor/confirmation_gate.py: `send_confirmation_request` and `send_confirmation`.
use vynkor_sdk_python.Prelude.{ℕ, List, ◌++◌, Option, none, some}
use vynkor_sdk_python.Errors.{Str, Bytes, Result, ok, err, internal, ◌>>=◌}
use vynkor_sdk_python.Py.Text.{str, encode}
use vynkor_sdk_python.Py.Json.{Json, text, object, member, done}
use vynkor_sdk_python.Messages.{action_ok, ActionResponse, Envelope}
use vynkor_sdk_python.Client.Requests.{Delivery, send_action}
use vynkor_sdk_python.Gate.Names.{request_name, confirm_name}
use vynkor_sdk_python.Gate.Route.{Outside, loads_or_empty, pending_id_of}

-- `pid` out of the answer's JSON.
unfoldable pub pid_or_raise : Option Str → Result Str
pid_or_raise none = err (internal (str "pending response missing pending_id"))
pid_or_raise (some pid) = ok pid

-- `{"pending_id": pending_id}`
unfoldable pub confirm_params : Str → Json
confirm_params pid = object (member (str "pending_id") (text pid) done)

module _ (py : Outside) where
  -- Behind `json.loads`.
  unfoldable pub pid_of_loaded : Result Json → Result Str
  pid_of_loaded (err e) = err (internal (str "invalid pending response: " ++ py.str_error e))
  pid_of_loaded (ok value) = pid_or_raise (pending_id_of value)

  -- The checks on the response to `request_<op>`.
  unfoldable pub pid_of_response : Str → ActionResponse → Result Str
  pid_of_response op resp = elim resp.status [
    | action_ok ↦ pid_of_loaded (loads_or_empty py resp.data_json)
    | _ ↦ err (internal (str "request_" ++ (op ++ (str " failed: " ++ resp.error))))
  ]

  module _ (send : Envelope → Result (Unit {0})) (now next : ℕ) (id : Str) where
    -- The pending id, and what the connection delivers next.
    unfoldable pub send_confirmation_request :
        Str → Bytes → List Delivery → Result Str × List Delivery
    send_confirmation_request op params_json deliveries =
        let asked = send_action send now next id (request_name op) params_json 0 deliveries in
        (asked.result >>= pid_of_response op, asked.left)

    -- Behind the encoding of the parameters.
    unfoldable pub confirm_with :
        Str → Result Bytes → List Delivery → Result ActionResponse × List Delivery
    confirm_with op (err e) deliveries =
        (err (internal (str "failed to encode confirm params: " ++ py.str_error e)), deliveries)
    confirm_with op (ok params) deliveries =
        let asked = send_action send now next id (confirm_name op) params 0 deliveries in
        (asked.result, asked.left)

    unfoldable pub send_confirmation :
        Str → Str → List Delivery → Result ActionResponse × List Delivery
    send_confirmation op pid deliveries =
        confirm_with op (encode (py.dumps (confirm_params pid))) deliveries
