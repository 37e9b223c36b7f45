-- ===== src/Gate/Preserved.antt =====
-- vynkor/confirmation_gate.py: what the parts of a turn of `route` keep.
use vynkor_sdk_python.Prelude.{
  ℕ, suc, ◌≡◌, refl, sym, ap, subst, ◌∙◌, inl, inr, true, List, ◌∷◌, All, Option, none, some,
}
use vynkor_sdk_python.Prelude.Dict.{Dict}
use vynkor_sdk_python.Prelude.Dict
use vynkor_sdk_python.Errors.{Str, Result, ok, err}
use vynkor_sdk_python.Py.Text.{str_eq→eq, str_key}
use vynkor_sdk_python.Messages.{ActionRequest, Envelope}
use vynkor_sdk_python.Gate.Allowlist.{may_confirm}
use vynkor_sdk_python.Gate.Table.{
  Gate, Clock, PendingAction, pending_id, pending_of, with_table, with_pending_ttl, stale_pids,
  sweep_expired, store_request, take_pending, found_or_raise,
}
use vynkor_sdk_python.Gate.Fresh.{
  IsIssued, IsFresh, Each-later, Each-delete_all, sweep_expired-IsIssued, store_request-IsFresh,
  take_pending-IsFresh,
}
use vynkor_sdk_python.Gate.Route.{Outside}
use vynkor_sdk_python.Gate.Await.{Execution, begin_taken, begin_confirm, begin_request}
use vynkor_sdk_python.Gate.Turns.{Traffic, arrived}
use vynkor_sdk_python.Gate.Calls.{
  IsStored, pids_of, ids_of, IsOnce, All-imp, All-imp2, Each-imp, IsIssued-later, IsIssued-new,
  IsIssued-ne, get-swept, get-insert_other, get-remove-none, get-remove_self, none-some,
}

module _ (callers : List Str) (s : Traffic) (h : IsOnce callers s) where
  -- No request and no call is added.
  same_lists :
      (gate : Gate) (awaiting : List Execution) (replies : List (Result (List Envelope)))
      → IsFresh gate
      → gate.confirm_callers ≡ s.gate.confirm_callers
      → ((pid : Str) → IsIssued s.gate.seq pid → IsIssued gate.seq pid)
      → All (λ pid. Dict.get pid gate.pending ≡ none) (pids_of s.calls)
      → Dict.Each (λ pid p. IsStored s.requests pid p.params) gate.pending
      → IsOnce callers (record s { gate = gate; awaiting = awaiting; replies = replies })
  same_lists gate awaiting replies fresh same issued gone held = record {
    fresh = fresh;
    same_callers = same ∙ h.same_callers;
    issued_requests = All-imp _ _ (ids_of s.requests) issued h.issued_requests;
    issued_calls = All-imp _ _ (pids_of s.calls) issued h.issued_calls;
    gone = gone;
    requests_once = h.requests_once;
    calls_once = h.calls_once;
    held = held;
    own = h.own;
    approved = h.approved;
  }

  pub same_gate :
      (awaiting : List Execution) (replies : List (Result (List Envelope)))
      → IsOnce callers (record s { awaiting = awaiting; replies = replies })
  same_gate awaiting replies =
      same_lists s.gate awaiting replies h.fresh refl (λ pid i. i) h.gone h.held

  pub counts-IsOnce :
      IsOnce callers (record s { gate = with_table s.gate s.gate.pending (suc s.gate.seq) })
  counts-IsOnce =
      same_lists (with_table s.gate s.gate.pending (suc s.gate.seq)) s.awaiting s.replies
        (Each-later s.gate.seq s.gate.pending h.fresh) refl (IsIssued-later s.gate.seq) h.gone
        h.held

  pub configures-IsOnce :
      (ttl : ℕ) → IsOnce callers (record s { gate = with_pending_ttl ttl s.gate })
  unfolding with_pending_ttl
  configures-IsOnce ttl =
      same_lists (with_pending_ttl ttl s.gate) s.awaiting s.replies h.fresh refl (λ pid i. i) h.gone
        h.held

  held-swept :
      (now : ℕ)
      → Dict.Each (λ pid p. IsStored s.requests pid p.params) (sweep_expired now s.gate).pending
  unfolding sweep_expired
  held-swept now =
      Each-delete_all (λ pid p. IsStored s.requests pid p.params)
        (stale_pids now s.gate.pending_ttl s.gate.pending) s.gate.pending h.held

  gone-swept :
      (now : ℕ)
      → All (λ pid. Dict.get pid (sweep_expired now s.gate).pending ≡ none) (pids_of s.calls)
  gone-swept now = All-imp _ _ (pids_of s.calls) (get-swept now s.gate) h.gone

  pub request-IsOnce :
      (py : Outside) (clock : Clock) (req : ActionRequest)
      → IsOnce callers (arrived req (begin_request py s.gate clock req) s)
  unfolding arrived begin_request store_request sweep_expired pending_of
  request-IsOnce py clock req =
      let seq = s.gate.seq in
      let pid = pending_id clock.wall seq in
      let p = pending_of clock req in
      let requests = (pid, req.params_json) ∷ s.requests in
      let swept = (sweep_expired clock.now s.gate).pending in
      record {
        fresh = store_request-IsFresh clock req s.gate h.fresh;
        same_callers = h.same_callers;
        issued_requests = (
          IsIssued-new clock.wall seq,
          All-imp _ _ (ids_of s.requests) (IsIssued-later seq) h.issued_requests,
        );
        issued_calls = All-imp _ _ (pids_of s.calls) (IsIssued-later seq) h.issued_calls;
        gone =
            All-imp2 _ _ _ (pids_of s.calls)
              (λ q issued absent.
                get-insert_other pid q p swept (IsIssued-ne clock.wall seq q issued) absent)
              h.issued_calls (gone-swept clock.now);
        requests_once = (
          All-imp _ _ (ids_of s.requests) (IsIssued-ne clock.wall seq) h.issued_requests,
          h.requests_once,
        );
        calls_once = h.calls_once;
        held =
            Dict.Each-insert (λ id q. IsStored requests id q.params) pid p swept
              (λ j e. inl (sym (str_eq→eq j pid e), refl)) (inl (refl, refl))
              (Each-imp (λ id q. IsStored s.requests id q.params)
                (λ id q. IsStored requests id q.params) swept (λ id q held. inr held)
                (held-swept clock.now));
        own = All-imp _ _ s.calls (λ e own. inr own) h.own;
        approved = h.approved;
      }

  -- A confirmation that found its request.
  call-IsOnce :
      (now : ℕ) (e : Execution) (p : PendingAction)
      → Dict.get e.pid (sweep_expired now s.gate).pending ≡ some p
      → p.params ≡ e.params
      → may_confirm s.gate.confirm_callers e.caller ≡ true
      → IsOnce callers (record s {
        gate = (take_pending now e.pid s.gate).0;
        calls = e ∷ s.calls;
        awaiting = e ∷ s.awaiting;
      })
  unfolding take_pending sweep_expired
  call-IsOnce now e p found same allowed =
      let swept = (sweep_expired now s.gate).pending in
      record {
        fresh = take_pending-IsFresh now e.pid s.gate h.fresh;
        same_callers = h.same_callers;
        issued_requests = h.issued_requests;
        issued_calls = (
          Dict.Each-get (λ pid q. IsIssued s.gate.seq pid) e.pid p swept
              (sweep_expired-IsIssued now s.gate h.fresh) found,
          h.issued_calls,
        );
        gone = (
          get-remove_self e.pid swept,
          All-imp _ _ (pids_of s.calls) (λ q. get-remove-none e.pid q swept) (gone-swept now),
        );
        requests_once = h.requests_once;
        calls_once = (
          All-imp _ _ (pids_of s.calls)
              (λ q absent same_id.
                none-some (sym absent ∙ ap (λ i. Dict.get i swept) same_id ∙ found))
              (gone-swept now),
          h.calls_once,
        );
        held =
            Dict.Each-remove (λ id q. IsStored s.requests id q.params) e.pid swept (held-swept now);
        own = (
          subst (IsStored s.requests e.pid) same (
              Dict.Each-get (λ pid q. IsStored s.requests pid q.params) e.pid p swept
                (held-swept now) found),
          h.own,
        );
        approved = (subst (λ c. may_confirm c e.caller ≡ true) h.same_callers allowed, h.approved);
      }

  -- A confirmation whose request is not there, or no longer.
  missing-IsOnce :
      (now : ℕ) (pid : Str) (replies : List (Result (List Envelope)))
      → IsOnce callers (record s { gate = (take_pending now pid s.gate).0; replies = replies })
  unfolding take_pending sweep_expired
  missing-IsOnce now pid replies =
      let swept = (sweep_expired now s.gate).pending in
      same_lists (take_pending now pid s.gate).0 s.awaiting replies
        (take_pending-IsFresh now pid s.gate h.fresh) refl (λ id issued. issued)
        (All-imp _ _ (pids_of s.calls) (λ q. get-remove-none pid q swept) (gone-swept now))
        (Dict.Each-remove (λ id q. IsStored s.requests id q.params) pid swept (held-swept now))

  taken-IsOnce :
      (py : Outside) (clock : Clock) (req : ActionRequest) (pid : Str)
      (found : Option PendingAction)
      → may_confirm s.gate.confirm_callers req.caller_plugin_id ≡ true
      → Dict.get pid (sweep_expired clock.now s.gate).pending ≡ found
      → IsOnce callers (
          arrived req
            (
              (take_pending clock.now pid s.gate).0,
              begin_taken py req pid (found_or_raise s.gate.op pid found),
            )
            s)
  unfolding arrived begin_taken found_or_raise
  taken-IsOnce py clock req pid none allowed found = missing-IsOnce clock.now pid _
  taken-IsOnce py clock req pid (some p) allowed found =
      call-IsOnce clock.now _ p found refl allowed

  pub confirm-IsOnce :
      (py : Outside) (clock : Clock) (req : ActionRequest) (parsed : Result Str)
      → may_confirm s.gate.confirm_callers req.caller_plugin_id ≡ true
      → IsOnce callers (arrived req (begin_confirm py s.gate clock req parsed) s)
  unfolding begin_confirm arrived take_pending
  confirm-IsOnce py clock req (err e) allowed = same_gate s.awaiting _
  confirm-IsOnce py clock req (ok pid) allowed =
      taken-IsOnce py clock req pid (Dict.get pid (sweep_expired clock.now s.gate).pending) allowed
        refl
