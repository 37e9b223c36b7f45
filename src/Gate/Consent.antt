-- ===== src/Gate/Consent.antt =====
-- vynkor/confirmation_gate.py: when `route` calls the executor, and with what.
use vynkor_sdk_python.Prelude.{
  ℕ, ◌+◌, ◌<◌, ◌≡◌, refl, true, List, [], ◌∷◌, Option, none, some, arith,
}
use vynkor_sdk_python.Prelude.Dict.{Dict}
use vynkor_sdk_python.Prelude.Dict
use vynkor_sdk_python.Errors.{Str, Bytes, Result, ok, err}
use vynkor_sdk_python.Py.Text.{str_eq_refl, str_key}
use vynkor_sdk_python.Messages.{ActionRequest}
use vynkor_sdk_python.Gate.Names.{confirm_name}
use vynkor_sdk_python.Gate.Allowlist.{may_confirm}
use vynkor_sdk_python.Gate.Table.{
  Gate, Clock, PendingAction, sweep_expired, take_pending, found_or_raise,
}
use vynkor_sdk_python.Gate.Route.{
  Outside, Returned, parse_pending_id, calls_for, confirm_parsed, route_confirm, route_request,
  route,
}
use vynkor_sdk_python.Gate.Expiry.{get-sweep}
use vynkor_sdk_python.Gate.Branches.{route_elim}

-- A live entry of the table under `pid` that carries `params`, and that is gone from `after`.
abbrev pub IsTaken : Gate → ℕ → Gate → Str → Bytes → Type 0
IsTaken gate now after pid params =
    (p : PendingAction) × (Dict.get pid gate.pending ≡ some p)
    × (p.params ≡ params)
    × (now < p.created_at + gate.pending_ttl)
    × (Dict.get pid after.pending ≡ none)

found_or_raise-eq-ok :
    (op pid : Str) (o : Option PendingAction) (p : PendingAction)
    → found_or_raise op pid o ≡ ok p
    → o ≡ some p
unfolding found_or_raise
found_or_raise-eq-ok op pid none p h = cc
found_or_raise-eq-ok op pid (some q) p h = cc

-- What `_take_pending` returns was live, and is gone from the table.
pub take_pending-IsTaken :
    (now : ℕ) (pid : Str) (gate : Gate) (p : PendingAction)
    → (take_pending now pid gate).1 ≡ ok p
    → IsTaken gate now (take_pending now pid gate).0 pid p.params
unfolding take_pending
take_pending-IsTaken now pid gate p h =
    let got =
      found_or_raise-eq-ok gate.op pid (Dict.get pid (sweep_expired now gate).pending) p h in
    let (before, live) = get-sweep now gate pid p got in (p, before, refl, live, gone)
  where
    gone : Dict.get pid (Dict.remove pid (sweep_expired now gate).pending) ≡ none
    gone =
        let e = Dict.get-remove pid pid (sweep_expired now gate).pending in
        ground (arith, e, str_eq_refl pid)

-- The executor is called only in this case.
abbrev pub IsConfirmed : Outside → Gate → Clock → ActionRequest → Gate → Bytes → Type 0
IsConfirmed py gate clock req after params =
    (pid : Str) × (parse_pending_id py req.params_json ≡ ok pid)
    × IsTaken gate clock.now after pid params

calls_for-eq :
    (py : Outside) (executor : Bytes → Result Returned)
    → (taken : Result PendingAction) (params : Bytes) (more : List Bytes)
    → calls_for py executor taken ≡ params ∷ more
    → (p : PendingAction) × (taken ≡ ok p) × (p.params ≡ params) × (more ≡ [])
unfolding calls_for
calls_for-eq py executor (err e) params more h = cc
calls_for-eq py executor (ok p) params more h = (p, refl, cc, cc)

-- `route_confirm-IsConfirmed` with the outcome of the parsing as a variable.
confirm_parsed-IsTaken :
    (py : Outside) (executor : Bytes → Result Returned)
    → (gate : Gate) (clock : Clock) (id : Str) (parsed : Result Str)
    → (params : Bytes) (more : List Bytes)
    → (confirm_parsed py executor gate clock id parsed).calls ≡ params ∷ more
    → (more ≡ [])
      × ((pid : Str) × (parsed ≡ ok pid)
          × IsTaken gate clock.now
              (confirm_parsed py executor gate clock id parsed).gate
              pid
              params)
unfolding confirm_parsed
confirm_parsed-IsTaken py executor gate clock id (err e) params more h = cc
confirm_parsed-IsTaken py executor gate clock id (ok pid) params more h =
    let (p, got, same, no_more) =
      calls_for-eq py executor (take_pending clock.now pid gate).1 params more h in
    let (q, before, carried, live, gone) = take_pending-IsTaken clock.now pid gate p got in
    (no_more, (pid, refl, (q, before, cc, live, gone)))

-- If `route` calls the executor, then the message was `confirm_<op>` from a caller that
-- `may_confirm`, its `pending_id` names an entry of the table that has not expired, the executor
-- is called once with the parameters stored there, and the entry is gone from the table afterwards.
pub route-IsConfirmed :
    (py : Outside) (executor : Bytes → Result Returned)
    → (gate : Gate) (clock : Clock) (req : ActionRequest) (params : Bytes) (more : List Bytes)
    → (route py executor gate clock req).calls ≡ params ∷ more
    → (req.action ≡ confirm_name gate.op)
      × (may_confirm gate.confirm_callers req.caller_plugin_id ≡ true)
      × (more ≡ [])
      × IsConfirmed py gate clock req (route py executor gate clock req).gate params
unfolding route_confirm route_request
route-IsConfirmed py executor gate clock req params more =
    route_elim py executor
      (λ r.
        r.calls ≡ params ∷ more
        → (req.action ≡ confirm_name gate.op)
          × (may_confirm gate.confirm_callers req.caller_plugin_id ≡ true)
          × (more ≡ [])
          × IsConfirmed py gate clock req r.gate params)
      gate clock req (λ starts named h. cc)
      (λ named allowed h.
        let (no_more, taken) =
          confirm_parsed-IsTaken py executor gate clock req.action_id
            (parse_pending_id py req.params_json) params more h in
        (named, allowed, no_more, taken))
      (λ envs h. cc)
