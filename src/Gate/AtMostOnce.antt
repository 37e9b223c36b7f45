-- ===== src/Gate/AtMostOnce.antt =====
-- vynkor/confirmation_gate.py: no request is executed twice, however calls of `route` overlap.
use vynkor_sdk_python.Prelude.{◌≡◌, refl, sym, subst, true, List, [], ◌∷◌, ◌++◌, All, none}
use vynkor_sdk_python.Prelude.Dict.{Dict}
use vynkor_sdk_python.Prelude.Dict
use vynkor_sdk_python.Errors.{Str}
use vynkor_sdk_python.Py.Text.{str_key}
use vynkor_sdk_python.Gate.Allowlist.{may_confirm}
use vynkor_sdk_python.Gate.Table.{Gate}
use vynkor_sdk_python.Gate.Fresh.{IsIssued}
use vynkor_sdk_python.Gate.Route.{Outside, parse_pending_id}
use vynkor_sdk_python.Gate.Await.{begin_elim}
use vynkor_sdk_python.Gate.Turns.{
  Traffic, opened, arrived, Turn, arrives, returns, counts, configures, Reach, begin, later,
}
use vynkor_sdk_python.Gate.Calls.{IsDistinct, IsStored, pids_of, ids_of, IsOnce}
use vynkor_sdk_python.Gate.Preserved.{
  same_gate, counts-IsOnce, configures-IsOnce, request-IsOnce, confirm-IsOnce,
}

Turn-IsOnce :
    (callers : List Str) (py : Outside) {s t : Traffic}
    → Turn py s t
    → IsOnce callers s
    → IsOnce callers t
unfolding arrived
Turn-IsOnce callers py {s} (arrives clock req) h =
    begin_elim py (λ b. IsOnce callers (arrived req b s)) s.gate clock req
      (request-IsOnce callers s h py clock req)
      (confirm-IsOnce callers s h py clock req (parse_pending_id py req.params_json))
      (λ r. same_gate callers s h s.awaiting (r ∷ s.replies))
Turn-IsOnce callers py {s} (returns before after e outcome split) h =
    same_gate callers s h (before ++ after) _
Turn-IsOnce callers py {s} counts h = counts-IsOnce callers s h
Turn-IsOnce callers py {s} (configures ttl) h = configures-IsOnce callers s h ttl

opened-IsOnce : (gate : Gate) → gate.pending ≡ [] → IsOnce gate.confirm_callers (opened gate)
opened-IsOnce gate empty = record {
  fresh = subst (Dict.Each (λ pid p. IsIssued gate.seq pid)) (sym empty) tt;
  same_callers = refl;
  issued_requests = tt;
  issued_calls = tt;
  gone = tt;
  requests_once = tt;
  calls_once = tt;
  held = subst (Dict.Each (λ pid p. ⊥)) (sym empty) tt;
  own = tt;
  approved = tt;
}

Reach-IsOnce :
    (py : Outside) (gate : Gate) {s : Traffic}
    → gate.pending ≡ []
    → Reach py gate s
    → IsOnce gate.confirm_callers s
Reach-IsOnce py gate empty begin = opened-IsOnce gate empty
Reach-IsOnce py gate empty (later reach turn) =
    Turn-IsOnce gate.confirm_callers py turn (Reach-IsOnce py gate empty reach)

-- A gate starts with nothing pending, and calls of `route` overlap in any way, with any clocks, other
-- gates that take numbers of the same counter, and any outcomes of the executor. No two requests are
-- stored under one id. The executor is called at most once for an id, with the parameters that
-- were stored under it and for a caller that may confirm, and the id is no longer in the table.
pub Reach-IsDistinct :
    (py : Outside) (gate : Gate) {s : Traffic}
    → gate.pending ≡ []
    → Reach py gate s
    → IsDistinct (ids_of s.requests)
      × IsDistinct (pids_of s.calls)
      × All (λ e. IsStored s.requests e.pid e.params) s.calls
      × All (λ e. may_confirm gate.confirm_callers e.caller ≡ true) s.calls
      × All (λ pid. Dict.get pid s.gate.pending ≡ none) (pids_of s.calls)
Reach-IsDistinct py gate empty reach =
    let h = Reach-IsOnce py gate empty reach in
    (h.requests_once, h.calls_once, h.own, h.approved, h.gone)
