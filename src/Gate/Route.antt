-- ===== src/Gate/Route.antt =====
-- vynkor/confirmation_gate.py: `_parse_pending_id`, and `route` with the calls of the executor that
-- it makes. What the code takes from Python and from its caller are the fields of `Outside`.
use vynkor_sdk_python.Prelude.{
  ℕ, ◌/◌, Bool, true, false, List, [], ◌∷◌, ◌++◌, if◌then◌else◌, Option, none, some, length, drop,
}
use vynkor_sdk_python.Errors.{
  Str, Bytes, Error, Result, ok, err, foreign, type_error, value_error, is_exception, ◌>>=◌,
}
use vynkor_sdk_python.Py.Text.{str, encode, str_eq, starts_with}
use vynkor_sdk_python.Py.Json.{Json, text, integer, object, done, member, lookup}
use vynkor_sdk_python.Messages.{ActionRequest, ActionResponse, Envelope, action_response}
use vynkor_sdk_python.Gate.Names.{response_ok, response_err, not_found}
use vynkor_sdk_python.Gate.Allowlist.{may_confirm}
use vynkor_sdk_python.Gate.Table.{Gate, Clock, PendingAction, store_request, take_pending}

-- What an executor returns: bytes, a pair of a truth value and a value, `None`, or another value.
pub data Value : Type 0 where
  bytes_value : Bytes → Value
  other_value : Str → Value

pub data Returned : Type 0 where
  returned : Value → Returned
  pair : Bool → Value → Returned
  nothing : Returned

-- `json.loads`, `json.dumps`, `str(e)`, `str(value)`, and `bytes(value)`.
pub record Outside : Type 0 where
  pub loads : Bytes → Result Json
  pub dumps : Json → Str
  pub str_error : Error → Str
  pub str_value : Value → Str
  pub bytes_of : Value → Result Bytes

-- An argument of `_response_envelope`.
pub data Given : Type 0 where
  given_pair : Bool → Value → Given
  given_bytes : Bytes → Given
  given_text : Str → Given
  given_response : ActionResponse → Given
  given_other : Given

-- `payload if isinstance(payload, bytes) else b""`
unfoldable pub bytes_or_empty : Value → Bytes
bytes_or_empty (bytes_value b) = b
bytes_or_empty (other_value shown) = []

-- `_response_envelope`
unfoldable pub legacy_envelope : Outside → Str → Given → Result Envelope
legacy_envelope py id (given_pair true payload) = ok (response_ok id (bytes_or_empty payload))
legacy_envelope py id (given_pair false payload) = ok (response_err id (py.str_value payload))
legacy_envelope py id (given_bytes b) = ok (response_ok id b)
legacy_envelope py id (given_text error) = ok (response_err id error)
legacy_envelope py id (given_response resp) = ok (action_response resp)
legacy_envelope py id given_other = err (foreign type_error)

-- What one call of `route` leaves: the gate, the parameters that the executor was called with, and
-- the reply.
pub record Routed : Type 0 where
  pub gate : Gate
  pub calls : List Bytes
  pub replies : Result (List Envelope)

-- `", ".join(texts)`
unfoldable pub join_comma : List Str → Str
join_comma [] = []
join_comma (t ∷ []) = t
join_comma (t ∷ u ∷ texts) = t ++ (str ", " ++ join_comma (u ∷ texts))

-- `{"pending_id": …, "action": …, "ttl_secs": …}`
unfoldable pub pending_reply : Str → Str → ℕ → Json
pending_reply pid action ttl_secs = object (
    member (str "pending_id") (text pid)
      (member (str "action") (text action) (member (str "ttl_secs") (integer ttl_secs) done)))

-- `isinstance(pid, str) and pid`, of what `.get("pending_id")` found.
unfoldable pub pid_text : Option Json → Option Str
pid_text (some (text (c ∷ pid))) = some (c ∷ pid)
pid_text _ = none

unfoldable pub pending_id_of : Json → Option Str
pending_id_of (object members) = pid_text (lookup (str "pending_id") members)
pending_id_of _ = none

module _ (py : Outside) where
  -- `json.loads(b) if b else {}`
  unfoldable pub loads_or_empty : Bytes → Result Json
  loads_or_empty [] = ok (object done)
  loads_or_empty (b ∷ bytes) = py.loads (b ∷ bytes)

  unfoldable pub parse_pending_id : Bytes → Result Str
  parse_pending_id params_json = elim (loads_or_empty params_json) [
    | err e ↦ err (foreign (value_error (str "invalid confirm params: " ++ py.str_error e)))
    | ok value ↦ elim (pending_id_of value) [
      | none ↦ err (foreign (value_error (str "confirm params must include a string pending_id")))
      | some pid ↦ ok pid
    ]
  ]

  -- The reply for what the executor returned; it may raise on a value that is not bytes.
  unfoldable pub reply_of : Str → Returned → Result Envelope
  reply_of id (returned (bytes_value b)) = ok (response_ok id b)
  reply_of id (returned value) = do b ← py.bytes_of value; ok (response_ok id b)
  reply_of id (pair true (bytes_value b)) = ok (response_ok id b)
  reply_of id (pair true value) = do b ← encode (py.str_value value); ok (response_ok id b)
  reply_of id (pair false value) = ok (response_err id (py.str_value value))
  reply_of id nothing = ok (response_ok id [])

  -- `except Exception as e: return [_response_err(action_id, str(e))]`
  unfoldable pub caught : Str → Result Envelope → Result (List Envelope)
  caught id (ok env) = ok (env ∷ [])
  caught id (err e) = if is_exception e then ok (response_err id (py.str_error e) ∷ []) else err e

  unfoldable pub denial : Gate → ActionRequest → Str
  denial gate req =
      str "permission denied: caller "
      ++ (req.caller_plugin_id
          ++ (str " may not confirm "
              ++ (gate.op
                  ++ (str " (approved callers: " ++ (join_comma gate.confirm_callers ++ str ")")))))

  -- The branch of `request_<op>`.
  unfoldable pub route_request : Gate → Clock → ActionRequest → Routed
  route_request gate clock req =
      let (stored, pid) = store_request clock req gate in
      record {
        gate = stored;
        calls = [];
        replies = (do
          data_json ← encode (py.dumps (pending_reply pid req.action (gate.pending_ttl / 1000)))
          ok (response_ok req.action_id data_json ∷ []));
      }

  module _ (executor : Bytes → Result Returned) where
    -- The calls of the executor, with the stored parameters.
    unfoldable pub calls_for : Result PendingAction → List Bytes
    calls_for (err e) = []
    calls_for (ok p) = p.params ∷ []

    -- The reply with the executor's result, or to a request that is not there.
    unfoldable pub reply_for : Str → Result PendingAction → Result (List Envelope)
    reply_for id (err e) = ok (response_err id (py.str_error e) ∷ [])
    reply_for id (ok p) = caught id (executor p.params >>= reply_of id)

    -- Behind the parsing of the parameters.
    unfoldable pub confirm_parsed : Gate → Clock → Str → Result Str → Routed
    confirm_parsed gate clock id (err e) = record {
      gate = gate;
      calls = [];
      replies = ok (response_err id (py.str_error e) ∷ []);
    }
    confirm_parsed gate clock id (ok pid) =
        let taken = take_pending clock.now pid gate in
        record { gate = taken.0; calls = calls_for taken.1; replies = reply_for id taken.1 }

    -- The branch of `confirm_<op>`, for a caller that may confirm.
    unfoldable pub route_confirm : Gate → Clock → ActionRequest → Routed
    route_confirm gate clock req =
        confirm_parsed gate clock req.action_id (parse_pending_id req.params_json)

    abbrev pub answered : Gate → List Envelope → Routed
    answered gate envs = record { gate = gate; calls = []; replies = ok envs }

    unfoldable pub route : Gate → Clock → ActionRequest → Routed
    route gate clock req =
        if starts_with req.action (str "request_")
        then (if str_eq (drop (length (str "request_")) req.action) gate.op
            then route_request gate clock req
            else answered gate (not_found req.action_id))
        else if starts_with req.action (str "confirm_")
        then (if str_eq (drop (length (str "confirm_")) req.action) gate.op
            then (if may_confirm gate.confirm_callers req.caller_plugin_id
                then route_confirm gate clock req
                else answered gate (response_err req.action_id (denial gate req) ∷ []))
            else answered gate (not_found req.action_id))
        else answered gate (not_found req.action_id)
