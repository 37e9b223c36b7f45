-- ===== src/Gate/Tests.antt =====
-- Runs of the gate at concrete inputs.
use vynkor_sdk_python.Prelude.{◌≡◌, ◌↔◌, arith, refl, true, false, List, [], ◌∷◌}
use vynkor_sdk_python.Prelude.Dict.{Dict}
use vynkor_sdk_python.Prelude.Dict
use vynkor_sdk_python.Errors.{Str, Bytes, Result, ok}
use vynkor_sdk_python.Py.Text.{str, str_eq, str_key, starts_with, decimal, decimal_fuel}
use vynkor_sdk_python.Py.Json.{text, object, done, member, lookup}
use vynkor_sdk_python.Messages.{ActionRequest}
use vynkor_sdk_python.Gate.Names.{confirm_name, request_name}
use vynkor_sdk_python.Gate.Allowlist.{may_confirm, is_allowed, is_below, ends_with, drop_last_two}
use vynkor_sdk_python.Gate.Table.{
  Gate, Clock, PendingAction, take_pending, sweep_expired, stale_pids, is_stale, delete_all,
  found_or_raise, default_pending_ttl, pending_id,
}
use vynkor_sdk_python.Gate.Route.{
  Outside, Returned, returned, bytes_value, loads_or_empty, parse_pending_id, pending_id_of,
  pid_text, calls_for, confirm_parsed, route_confirm, route,
}
use vynkor_sdk_python.Gate.Wildcard.{AnyAdmits, may_confirm_iff}
use vynkor_sdk_python.Gate.Consent.{IsConfirmed, route-IsConfirmed}
use vynkor_sdk_python.Gate.Outcome.{IsReplyTo}
use vynkor_sdk_python.Gate.Confirm.{route-route_confirms}

-- A `json.loads` that takes its bytes for the `pending_id` itself.
abbrev python : Outside
python = record {
  loads = λ b. ok (object (member (str "pending_id") (text b) done));
  dumps = λ j. [];
  str_error = λ e. [];
  str_value = λ v. [];
  bytes_of = λ v. ok [];
}

abbrev executor : Bytes → Result Returned
executor params = ok (returned (bytes_value params))

abbrev none_left : List Bytes
none_left = []

abbrev callers : List Str
callers = str "owner" ∷ str "phone.*" ∷ []

abbrev waiting : PendingAction
waiting = record {
  action = str "request_pay";
  params = 1 ∷ 2 ∷ [];
  caller_plugin_id = str "ai";
  created_at = 1000;
}

abbrev gate : Gate
gate = record {
  op = str "pay";
  description = str "Pay";
  params_schema = [];
  risk = 3;
  confirm_callers = callers;
  pending_ttl = default_pending_ttl;
  pending = (str "p-1", waiting) ∷ [];
  seq = 1;
}

abbrev clock : Clock
clock = record { now = 2000; created = 2000; wall = 5 }

abbrev confirmation : ActionRequest
confirmation = record {
  action_id = str "a";
  action = str "confirm_pay";
  params_json = str "p-1";
  caller_plugin_id = str "phone.app";
  timeout_ms = 0;
  streaming = false;
}

may_confirm_iff_example :
    (may_confirm callers (str "phone.app") ≡ true) ↔ AnyAdmits callers (str "phone.app")
may_confirm_iff_example = may_confirm_iff callers (str "phone.app")

may_confirm_test : may_confirm callers (str "phones.app") ≡ false
unfolding may_confirm is_allowed is_below ends_with drop_last_two str str_eq starts_with
may_confirm_test = refl

confirmed : (route python executor gate clock confirmation).calls ≡ (1 ∷ 2 ∷ []) ∷ []
unfolding route route_confirm confirm_parsed calls_for take_pending found_or_raise sweep_expired
    stale_pids is_stale delete_all parse_pending_id loads_or_empty pending_id_of pid_text lookup
    may_confirm is_allowed is_below ends_with drop_last_two str str_eq starts_with Dict.get
    Dict.remove
confirmed = refl

route-IsConfirmed_example :
    (confirmation.action ≡ confirm_name gate.op)
    × (may_confirm gate.confirm_callers confirmation.caller_plugin_id ≡ true)
    × (none_left ≡ [])
    × IsConfirmed python gate clock confirmation
        (route python executor gate clock confirmation).gate
        (1 ∷ 2 ∷ [])
route-IsConfirmed_example =
    route-IsConfirmed python executor gate clock confirmation (1 ∷ 2 ∷ []) none_left confirmed

-- A gate with nothing pending, and a request and the confirmation that answers it.
abbrev empty_gate : Gate
empty_gate = record {
  op = str "pay";
  description = str "Pay";
  params_schema = [];
  risk = 3;
  confirm_callers = callers;
  pending_ttl = default_pending_ttl;
  pending = [];
  seq = 1;
}

abbrev payment : ActionRequest
payment = record {
  action_id = str "r";
  action = str "request_pay";
  params_json = 1 ∷ 2 ∷ [];
  caller_plugin_id = str "ai";
  timeout_ms = 0;
  streaming = false;
}

abbrev answer : ActionRequest
answer = record {
  action_id = str "a";
  action = str "confirm_pay";
  params_json = str "pending-5-1";
  caller_plugin_id = str "phone.app";
  timeout_ms = 0;
  streaming = false;
}

parsed_answer : parse_pending_id python answer.params_json ≡ ok (pending_id 5 1)
unfolding parse_pending_id loads_or_empty pending_id_of pid_text lookup str str_eq pending_id
    decimal decimal_fuel
parsed_answer = refl

may_answer : may_confirm callers answer.caller_plugin_id ≡ true
unfolding may_confirm is_allowed is_below ends_with drop_last_two str str_eq starts_with
may_answer = refl

named_payment : payment.action ≡ request_name empty_gate.op
unfolding request_name str
named_payment = refl

named_answer : answer.action ≡ confirm_name empty_gate.op
unfolding confirm_name str
named_answer = refl

abbrev after_payment : Gate
after_payment = (route python executor empty_gate clock payment).gate

route-route_confirms_example :
    let r = route python executor after_payment clock answer in
    (r.calls ≡ payment.params_json ∷ [])
    × IsReplyTo python answer.action_id (executor payment.params_json) r.replies
route-route_confirms_example =
    route-route_confirms python executor empty_gate clock clock payment answer tt named_payment
      named_answer may_answer parsed_answer (ground (arith, default_pending_ttl))
