-- ===== src/Gate/HandshakeTests.antt =====
-- A request and its confirmation between a caller and a gate, at concrete messages.
use vynkor_sdk_python.Prelude.{
  ℕ, zero, suc, ◌+◌, ◌≡◌, refl, sym, ◌∙◌, subst, true, false, List, [], ◌∷◌, ◌++◌, length, take,
  drop, arith, inl, inr,
}
use vynkor_sdk_python.Errors.{Str, Bytes, Result, ok, err, internal, ok-injective}
use vynkor_sdk_python.Py.Text.{str, str_eq, starts_with, encode, encode_char, decimal, decimal_fuel}
use vynkor_sdk_python.Py.Json.{Json, text, integer, object, done, member}
use vynkor_sdk_python.Messages.{ActionRequest, Envelope, ping}
use vynkor_sdk_python.Client.Requests.{Delivery, answers_action, or_default, default_action_timeout}
use vynkor_sdk_python.Client.Correlation.{IsFirst}
use vynkor_sdk_python.Gate.Names.{request_name, confirm_name, response_ok}
use vynkor_sdk_python.Gate.Allowlist.{may_confirm, is_allowed, is_below, ends_with, drop_last_two}
use vynkor_sdk_python.Gate.Table.{Gate, Clock, pending_id, store_request}
use vynkor_sdk_python.Gate.Route.{
  Outside, Returned, returned, bytes_value, pending_reply, loads_or_empty, route, route_request,
}
use vynkor_sdk_python.Gate.Caller.{confirm_params, send_confirmation_request}
use vynkor_sdk_python.Gate.Handshake.{Decodes, send_confirmation_request-route}

-- A codec for the two kinds of objects, behind a mark for each kind.
abbrev dumps : Json → Str
dumps (object (member k (text pid) done)) = 0 ∷ pid
dumps (object (member k (text pid) (member l (text action) (member m (integer n) done)))) =
    1 ∷ n ∷ length pid ∷ (pid ++ action)
dumps _ = []

loads_kind : ℕ → Bytes → Result Json
loads_kind zero pid = ok (confirm_params pid)
loads_kind (suc m) (n ∷ size ∷ texts) = ok (pending_reply (take size texts) (drop size texts) n)
loads_kind _ _ = err (internal [])

abbrev loads : Bytes → Result Json
loads [] = err (internal [])
loads (kind ∷ bytes) = loads_kind kind bytes

abbrev python : Outside
python = record {
  loads = loads;
  dumps = dumps;
  str_error = λ e. [];
  str_value = λ v. [];
  bytes_of = λ v. ok [];
}

abbrev executor : Bytes → Result Returned
executor params = ok (returned (bytes_value params))

abbrev callers : List Str
callers = str "owner" ∷ []

abbrev gate : Gate
gate = record {
  op = str "pay";
  description = str "Pay";
  params_schema = [];
  risk = 3;
  confirm_callers = callers;
  pending_ttl = 5000;
  pending = [];
  seq = 1;
}

abbrev clock : Clock
clock = record { now = 2000; created = 2000; wall = 5 }

abbrev payment : ActionRequest
payment = record {
  action_id = str "r";
  action = str "request_pay";
  params_json = 1 ∷ 2 ∷ [];
  caller_plugin_id = str "ai";
  timeout_ms = 0;
  streaming = false;
}

abbrev confirmation : ActionRequest
confirmation = record {
  action_id = str "a";
  action = str "confirm_pay";
  params_json = 0 ∷ str "pending-5-1";
  caller_plugin_id = str "owner";
  timeout_ms = 0;
  streaming = false;
}

abbrev id : Str
id = pending_id 5 1

pending_written :
    encode (dumps (pending_reply id (str "request_pay") 5))
    ≡ ok (1 ∷ 5 ∷ 11 ∷ (str "pending-5-1" ++ str "request_pay"))
unfolding encode encode_char pending_id decimal decimal_fuel str pending_reply
pending_written = refl

confirm_written : encode (dumps (confirm_params id)) ≡ ok confirmation.params_json
unfolding encode encode_char pending_id decimal decimal_fuel str confirm_params
confirm_written = refl

pending_read :
    loads_or_empty python (1 ∷ 5 ∷ 11 ∷ (str "pending-5-1" ++ str "request_pay"))
    ≡ ok (pending_reply id (str "request_pay") 5)
unfolding loads_or_empty loads_kind pending_id decimal decimal_fuel str pending_reply
pending_read = refl

confirm_read : loads_or_empty python confirmation.params_json ≡ ok (confirm_params id)
unfolding loads_or_empty loads_kind pending_id decimal decimal_fuel str confirm_params
confirm_read = refl

Decodes-eq :
    (value : Json) (written : Bytes)
    → encode (dumps value) ≡ ok written
    → loads_or_empty python written ≡ ok value
    → Decodes python value
Decodes-eq value written e back b h =
    subst (λ w. loads_or_empty python w ≡ ok value) (ok-injective (sym e ∙ h)) back

abbrev reply : Envelope
reply = response_ok (str "r") (1 ∷ 5 ∷ 11 ∷ (str "pending-5-1" ++ str "request_pay"))

named_payment : payment.action ≡ request_name gate.op
unfolding request_name str
named_payment = refl

named_confirmation : confirmation.action ≡ confirm_name gate.op
unfolding confirm_name str
named_confirmation = refl

may : may_confirm callers confirmation.caller_plugin_id ≡ true
unfolding may_confirm is_allowed is_below ends_with drop_last_two str str_eq starts_with
may = refl

answered : (route python executor gate clock payment).replies ≡ ok (reply ∷ [])
unfolding route route_request store_request starts_with str str_eq encode encode_char pending_id
    decimal decimal_fuel pending_reply
answered = refl

-- A ping, then the reply.
abbrev deliveries : List Delivery
deliveries =
    record { arrived = 10; received = ok (ping 5); checked = 11 }
    ∷ record { arrived = 20; received = ok reply; checked = 21 }
    ∷ []

abbrev sends : Envelope → Result (Unit {0})
sends env = ok tt

arrives :
    IsFirst (answers_action (str "r")) (5 + or_default 0 default_action_timeout) reply deliveries []
unfolding answers_action str str_eq response_ok or_default
arrives = inr (ping 5, refl, refl, inl (refl, refl, omega arith, refl))

send_confirmation_request-route_example :
    (send_confirmation_request python sends 5 6 (str "r") (str "pay") (1 ∷ 2 ∷ []) deliveries
      ≡ (ok (pending_id 5 1), []))
    × ((route python executor
          (route python executor gate clock payment).gate
          clock
          confirmation).calls
        ≡ (1 ∷ 2 ∷ []) ∷ [])
unfolding or_default
send_confirmation_request-route_example =
    send_confirmation_request-route python executor gate clock clock sends 5 6 payment confirmation
      reply deliveries [] tt (Decodes-eq _ _ pending_written pending_read)
      (Decodes-eq _ _ confirm_written confirm_read) (λ env. refl) named_payment answered
      (omega arith) ((omega arith, omega arith), ((omega arith, omega arith), tt)) arrives
      named_confirmation may confirm_written (omega arith)
