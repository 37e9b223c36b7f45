-- ===== src/Gate/TurnsTests.antt =====
-- Calls of `route` that overlap, at concrete messages.
use vynkor_sdk_python.Prelude.{◌≡◌, refl, true, false, none, [], ◌∷◌, All}
use vynkor_sdk_python.Prelude.Dict.{Dict}
use vynkor_sdk_python.Prelude.Dict
use vynkor_sdk_python.Errors.{ok}
use vynkor_sdk_python.Py.Text.{str, str_eq, str_key, starts_with, decimal, decimal_fuel}
use vynkor_sdk_python.Py.Json.{text, object, done, member, lookup}
use vynkor_sdk_python.Messages.{ActionRequest}
use vynkor_sdk_python.Gate.Allowlist.{may_confirm, is_allowed, is_below, ends_with, drop_last_two}
use vynkor_sdk_python.Gate.Table.{
  Gate, Clock, pending_id, pending_of, store_request, take_pending, sweep_expired, stale_pids,
  is_stale, delete_all, found_or_raise,
}
use vynkor_sdk_python.Gate.Route.{
  Outside, parse_pending_id, loads_or_empty, pending_id_of, pid_text,
}
use vynkor_sdk_python.Gate.Await.{begin_route, begin_request, begin_confirm, begin_taken}
use vynkor_sdk_python.Gate.Turns.{Traffic, opened, arrived, Reach, begin, later, arrives}
use vynkor_sdk_python.Gate.Calls.{IsDistinct, IsStored, pids_of, ids_of}
use vynkor_sdk_python.Gate.AtMostOnce.{Reach-IsDistinct}

-- A `json.loads` that takes its bytes for the `pending_id` itself.
abbrev python : Outside
python = record {
  loads = λ b. ok (object (member (str "pending_id") (text b) done));
  dumps = λ j. [];
  str_error = λ e. [];
  str_value = λ v. [];
  bytes_of = λ v. ok [];
}

abbrev gate : Gate
gate = record {
  op = str "pay";
  description = str "Pay";
  params_schema = [];
  risk = 3;
  confirm_callers = str "phone" ∷ [];
  pending_ttl = 5000;
  pending = [];
  seq = 1;
}

abbrev clock : Clock
clock = record { now = 2000; created = 2000; wall = 5 }

abbrev payment : ActionRequest
payment = record {
  action_id = str "r";
  action = str "request_pay";
  params_json = 1 ∷ 2 ∷ [];
  caller_plugin_id = str "ai";
  timeout_ms = 0;
  streaming = false;
}

abbrev answer : ActionRequest
answer = record {
  action_id = str "a";
  action = str "confirm_pay";
  params_json = str "pending-5-1";
  caller_plugin_id = str "phone";
  timeout_ms = 0;
  streaming = false;
}

-- The request arrives, then its confirmation, and while the executor runs, the confirmation again.
abbrev asked : Traffic
asked = arrived payment (begin_route python gate clock payment) (opened gate)

abbrev confirmed : Traffic
confirmed = arrived answer (begin_route python asked.gate clock answer) asked

abbrev again : Traffic
again = arrived answer (begin_route python confirmed.gate clock answer) confirmed

again_reached : Reach python gate again
again_reached =
    later (later (later begin (arrives clock payment)) (arrives clock answer))
      (arrives clock answer)

one_call : pids_of again.calls ≡ pending_id 5 1 ∷ []
unfolding arrived begin_route begin_request begin_confirm begin_taken store_request take_pending
    sweep_expired stale_pids is_stale delete_all found_or_raise parse_pending_id loads_or_empty
    pending_id_of pid_text lookup pending_id pending_of decimal decimal_fuel may_confirm is_allowed
    is_below ends_with drop_last_two str str_eq starts_with Dict.get Dict.insert Dict.remove
one_call = refl

Reach-IsDistinct_example :
    IsDistinct (ids_of again.requests)
    × IsDistinct (pids_of again.calls)
    × All (λ e. IsStored again.requests e.pid e.params) again.calls
    × All (λ e. may_confirm gate.confirm_callers e.caller ≡ true) again.calls
    × All (λ pid. Dict.get pid again.gate.pending ≡ none) (pids_of again.calls)
Reach-IsDistinct_example = Reach-IsDistinct python gate refl again_reached
