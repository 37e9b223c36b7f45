-- ===== src/Gate/Await.antt =====
-- vynkor/confirmation_gate.py: `route` cut in two at its one `await`, the call of the executor.
use vynkor_sdk_python.Prelude.{
  ◌≡◌, refl, true, List, [], ◌∷◌, if◌then◌else◌, length, drop, arith, Bool-cases, inl, inr,
}
use vynkor_sdk_python.Errors.{Str, Bytes, Result, ok, err, ◌>>=◌}
use vynkor_sdk_python.Py.Text.{str, str_eq, starts_with}
use vynkor_sdk_python.Messages.{ActionRequest, Envelope}
use vynkor_sdk_python.Gate.Names.{response_err, not_found}
use vynkor_sdk_python.Gate.Allowlist.{may_confirm}
use vynkor_sdk_python.Gate.Table.{Gate, Clock, PendingAction, store_request, take_pending}
use vynkor_sdk_python.Gate.Route.{
  Outside, Returned, Routed, parse_pending_id, reply_of, caught, denial, route_request,
  route_confirm, confirm_parsed, calls_for, reply_for, route,
}

-- A call of the executor: for which message and caller, for which pending id, and its argument.
pub record Execution : Type 0 where
  pub action_id : Str
  pub caller : Str
  pub pid : Str
  pub params : Bytes

-- Where `route` is when it first gives up control: it has returned, for a request with the id that it
-- stored the request under, or it awaits the executor.
pub data Begun : Type 0 where
  replied : Result (List Envelope) → Begun
  stored : Str → Result (List Envelope) → Begun
  called : Execution → Begun

module _ (py : Outside) where
  -- Behind `_take_pending`.
  unfoldable pub begin_taken : ActionRequest → Str → Result PendingAction → Begun
  begin_taken req pid (err e) = replied (ok (response_err req.action_id (py.str_error e) ∷ []))
  begin_taken req pid (ok p) = called (record {
    action_id = req.action_id;
    caller = req.caller_plugin_id;
    pid = pid;
    params = p.params;
  })

  unfoldable pub begin_confirm : Gate → Clock → ActionRequest → Result Str → Gate × Begun
  begin_confirm gate clock req (err e) =
      (gate, replied (ok (response_err req.action_id (py.str_error e) ∷ [])))
  begin_confirm gate clock req (ok pid) =
      let taken = take_pending clock.now pid gate in (taken.0, begin_taken req pid taken.1)

  unfoldable pub begin_request : Gate → Clock → ActionRequest → Gate × Begun
  begin_request gate clock req = (
    (store_request clock req gate).0,
    stored (store_request clock req gate).1 (route_request py gate clock req).replies,
  )

  -- `route`, up to the executor.
  unfoldable pub begin_route : Gate → Clock → ActionRequest → Gate × Begun
  begin_route gate clock req =
      if starts_with req.action (str "request_")
      then (if str_eq (drop (length (str "request_")) req.action) gate.op
          then begin_request gate clock req
          else (gate, replied (ok (not_found req.action_id))))
      else if starts_with req.action (str "confirm_")
      then (if str_eq (drop (length (str "confirm_")) req.action) gate.op
          then (if may_confirm gate.confirm_callers req.caller_plugin_id
              then begin_confirm gate clock req (parse_pending_id py req.params_json)
              else (gate, replied (ok (response_err req.action_id (denial py gate req) ∷ []))))
          else (gate, replied (ok (not_found req.action_id))))
      else (gate, replied (ok (not_found req.action_id)))

  -- The rest of `route`, behind the executor.
  unfoldable pub end_route : Execution → Result Returned → Result (List Envelope)
  end_route e outcome = caught py e.action_id (outcome >>= reply_of py e.action_id)

  module _ (executor : Bytes → Result Returned) where
    -- Both parts, one directly behind the other.
    unfoldable pub at_once : Gate × Begun → Routed
    at_once (gate, replied r) = record { gate = gate; calls = []; replies = r }
    at_once (gate, stored pid r) = record { gate = gate; calls = []; replies = r }
    at_once (gate, called e) = record {
      gate = gate;
      calls = e.params ∷ [];
      replies = end_route e (executor e.params);
    }

    taken-at_once :
        (gate : Gate) (req : ActionRequest) (pid : Str) (taken : Result PendingAction)
        → at_once (gate, begin_taken req pid taken) ≡ record {
          gate = gate;
          calls = calls_for py executor taken;
          replies = reply_for py executor req.action_id taken;
        }
    unfolding at_once begin_taken calls_for reply_for end_route
    taken-at_once gate req pid (err e) = refl
    taken-at_once gate req pid (ok p) = refl

    confirm-at_once :
        (gate : Gate) (clock : Clock) (req : ActionRequest) (parsed : Result Str)
        → at_once (begin_confirm gate clock req parsed)
          ≡ confirm_parsed py executor gate clock req.action_id parsed
    unfolding begin_confirm confirm_parsed at_once
    confirm-at_once gate clock req (err e) = refl
    confirm-at_once gate clock req (ok pid) =
        let taken = take_pending clock.now pid gate in taken-at_once taken.0 req pid taken.1

    -- Run without a break, the two parts are `route`.
    at_once-begin_route :
        (gate : Gate) (clock : Clock) (req : ActionRequest)
        → at_once (begin_route gate clock req) ≡ route py executor gate clock req
    unfolding begin_route route begin_request route_request route_confirm at_once
    at_once-begin_route gate clock req =
        ground (arith, confirm-at_once gate clock req (parse_pending_id py req.params_json))

  -- What holds of `begin_route` by its branches.
  pub begin_elim {ℓ} :
      (P : Gate × Begun → Type ℓ) (gate : Gate) (clock : Clock) (req : ActionRequest)
      → P (begin_request gate clock req)
      → (may_confirm gate.confirm_callers req.caller_plugin_id ≡ true
          → P (begin_confirm gate clock req (parse_pending_id py req.params_json)))
      → ((r : Result (List Envelope)) → P (gate, replied r))
      → P (begin_route gate clock req)
  unfolding begin_route
  begin_elim P gate clock req requests confirms replies =
      elim (Bool-cases (starts_with req.action (str "request_"))) [
        | inl r ↦
            rw r (elim (Bool-cases (str_eq (drop (length (str "request_")) req.action) gate.op)) [
              | inl e ↦ rw e requests
              | inr e ↦ rw e (replies _)
            ])
        | inr r ↦ rw r (elim (Bool-cases (starts_with req.action (str "confirm_"))) [
          | inr c ↦ rw c (replies _)
          | inl c ↦
              rw c (elim (Bool-cases (str_eq (drop (length (str "confirm_")) req.action) gate.op)) [
                | inr e ↦ rw e (replies _)
                | inl e ↦
                    rw e
                      (elim (Bool-cases (may_confirm gate.confirm_callers req.caller_plugin_id)) [
                        | inr m ↦ rw m (replies _)
                        | inl m ↦ rw m (confirms m)
                      ])
              ])
        ])
      ]
