-- ===== src/Gate/Once.antt =====
-- vynkor/confirmation_gate.py: how often `route` calls the executor over a run of messages.
use vynkor_sdk_python.Prelude.{
  ℕ, suc, ◌+◌, ◌≤◌, ◌≡◌, inl, inr, refl, List, [], ◌∷◌, ◌++◌, if◌then◌else◌, Option, none, some,
  length, arith, Bool-cases, length-append,
}
use vynkor_sdk_python.Prelude.Dict.{Dict, absent}
use vynkor_sdk_python.Prelude.Dict
use vynkor_sdk_python.Errors.{Str, Bytes, Result, ok, err}
use vynkor_sdk_python.Py.Text.{str, starts_with, str_key}
use vynkor_sdk_python.Messages.{ActionRequest}
use vynkor_sdk_python.Gate.Table.{
  Gate, Clock, PendingAction, sweep_expired, stale_pids, store_request, take_pending,
  found_or_raise, pending_id, pending_of, pending_count,
}
use vynkor_sdk_python.Gate.Route.{
  Outside, Returned, parse_pending_id, calls_for, confirm_parsed, route_confirm, route_request,
  route,
}
use vynkor_sdk_python.Gate.Expiry.{length-delete_all}
use vynkor_sdk_python.Gate.Branches.{route_elim}

-- The messages of a run, each with the clocks at its call.
abbrev pub Inbox : Type 0
Inbox = List (Clock × ActionRequest)

module _ (py : Outside) (executor : Bytes → Result Returned) where
  -- `route` on each message, one after the other: the gate, and the calls of the executor.
  unfoldable pub run : Gate → Inbox → Gate × List Bytes
  run gate [] = (gate, [])
  run gate ((clock, req) ∷ inbox) =
      let step = route py executor gate clock req in
      let (last, calls) = run step.gate inbox in (last, step.calls ++ calls)

-- `starts_with` tells the requesting messages of a run.
unfoldable pub requests : Inbox → ℕ
requests [] = 0
requests ((clock, req) ∷ inbox) =
    let rest = requests inbox in if starts_with req.action (str "request_") then suc rest else rest

length-remove_found :
    (pid : Str) (table : Dict Str PendingAction) (p : PendingAction)
    → Dict.get pid table ≡ some p
    → suc (length (Dict.remove pid table)) ≤ length table
unfolding Dict.get Dict.remove
length-remove_found pid [] p h = cc
length-remove_found pid ((q, w) ∷ table) p h =
    ground (arith, length-remove_found pid table p, Dict.length-remove pid table)

length-sweep :
    (now : ℕ) (gate : Gate) → length (sweep_expired now gate).pending ≤ length gate.pending
unfolding sweep_expired
length-sweep now gate =
    length-delete_all (stale_pids now gate.pending_ttl gate.pending) gate.pending

calls_for-found :
    (py : Outside) (executor : Bytes → Result Returned)
    → (op pid : Str) (table : Dict Str PendingAction) (o : Option PendingAction)
    → Dict.get pid table ≡ o
    → length (Dict.remove pid table) + length (calls_for py executor (found_or_raise op pid o))
      ≤ length table
unfolding calls_for found_or_raise
calls_for-found py executor op pid table none h = omega (arith, Dict.length-remove pid table)
calls_for-found py executor op pid table (some p) h =
    omega (arith, length-remove_found pid table p h)

confirm_parsed-budget :
    (py : Outside) (executor : Bytes → Result Returned)
    → (gate : Gate) (clock : Clock) (id : Str) (parsed : Result Str)
    → length (confirm_parsed py executor gate clock id parsed).gate.pending
        + length (confirm_parsed py executor gate clock id parsed).calls
      ≤ length gate.pending
unfolding confirm_parsed take_pending
confirm_parsed-budget py executor gate clock id (err e) = omega arith
confirm_parsed-budget py executor gate clock id (ok pid) =
    let swept = sweep_expired clock.now gate in
    omega (
      arith,
      length-sweep clock.now gate,
      calls_for-found py executor gate.op pid swept.pending (Dict.get pid swept.pending) refl,
    )

store_request-budget :
    (gate : Gate) (clock : Clock) (req : ActionRequest)
    → length (store_request clock req gate).0.pending ≤ suc (length gate.pending)
unfolding store_request
store_request-budget gate clock req =
    let swept = sweep_expired clock.now gate in
    let pid = pending_id clock.wall gate.seq in
    ground (
      arith,
      length-sweep clock.now gate,
      Dict.length-insert pid (pending_of clock req) swept.pending,
    )

route-budget :
    (py : Outside) (executor : Bytes → Result Returned)
    → (gate : Gate) (clock : Clock) (req : ActionRequest)
    → length (route py executor gate clock req).gate.pending
        + length (route py executor gate clock req).calls
      ≤ length gate.pending + (if starts_with req.action (str "request_") then 1 else 0)
unfolding route_confirm route_request
route-budget py executor gate clock req =
    route_elim py executor
      (λ r.
        length r.gate.pending + length r.calls
        ≤ length gate.pending + (if starts_with req.action (str "request_") then 1 else 0))
      gate clock req
      (λ starts named. rw starts (omega (arith, store_request-budget gate clock req)))
      (λ named allowed. omega (
        arith,
        confirm_parsed-budget py executor gate clock req.action_id
            (parse_pending_id py req.params_json),
      ))
      (λ envs. omega arith)

-- Over any run of messages, the executor is called at most as often as there were pending requests
-- at the start and messages with a name that starts with `request_`.
pub run-budget :
    (py : Outside) (executor : Bytes → Result Returned) (gate : Gate) (inbox : Inbox)
    → pending_count (run py executor gate inbox).0 + length (run py executor gate inbox).1
      ≤ pending_count gate + requests inbox
unfolding run requests pending_count
run-budget py executor gate [] = omega arith
run-budget py executor gate ((clock, req) ∷ inbox) =
    let step = route py executor gate clock req in
    let later = run-budget py executor step.gate inbox in
    let here = route-budget py executor gate clock req in
    let joined = length-append step.calls (run py executor step.gate inbox).1 in
    elim (Bool-cases (starts_with req.action (str "request_"))) [
      | inl r ↦ ground arith
      | inr r ↦ ground arith
    ]
