-- ===== src/Gate/Turns.antt =====
-- vynkor/confirmation_gate.py: calls of `route` that run side by side. A call gives up control only
-- where it awaits the executor; the table is read and written under its lock.
use vynkor_sdk_python.Prelude.{ℕ, suc, ◌≡◌, List, [], ◌∷◌, ◌++◌}
use vynkor_sdk_python.Errors.{Str, Bytes, Result}
use vynkor_sdk_python.Messages.{ActionRequest, Envelope}
use vynkor_sdk_python.Gate.Table.{Gate, Clock, with_table, with_pending_ttl}
use vynkor_sdk_python.Gate.Route.{Outside, Returned}
use vynkor_sdk_python.Gate.Await.{Execution, Begun, replied, stored, called, begin_route, end_route}

-- The gate with the calls of `route` that await the executor. `requests` are the parameters that were
-- stored, by their ids, and `calls` all calls of the executor, the newest first.
pub record Traffic : Type 0 where
  pub gate : Gate
  pub requests : List (Str × Bytes)
  pub calls : List Execution
  pub awaiting : List Execution
  pub replies : List (Result (List Envelope))

abbrev pub opened : Gate → Traffic
opened gate = record { gate = gate; requests = []; calls = []; awaiting = []; replies = [] }

-- A message has come to the point where its `route` gives up control.
unfoldable pub arrived : ActionRequest → Gate × Begun → Traffic → Traffic
arrived req (gate, replied r) s = record s { gate = gate; replies = r ∷ s.replies }
arrived req (gate, stored pid r) s = record s {
  gate = gate;
  requests = (pid, req.params_json) ∷ s.requests;
  replies = r ∷ s.replies;
}
arrived req (gate, called e) s = record s {
  gate = gate;
  calls = e ∷ s.calls;
  awaiting = e ∷ s.awaiting;
}

pub data Turn (py : Outside) (s : Traffic) : Traffic → Type 0 where
  -- A message is routed, whatever the clocks say.
  arrives :
      (clock : Clock) (req : ActionRequest)
      → Turn py s (arrived req (begin_route py s.gate clock req) s)
  -- The executor returns or raises, for any of the calls that await it.
  returns :
      (before after : List Execution) (e : Execution) (outcome : Result Returned)
      → s.awaiting ≡ before ++ (e ∷ after)
      → Turn py s
          (record s { awaiting = before ++ after; replies = end_route py e outcome ∷ s.replies })
  -- Another gate of the process takes a number.
  counts : Turn py s (record s { gate = with_table s.gate s.gate.pending (suc s.gate.seq) })
  -- The owner sets the time-to-live.
  configures : (ttl : ℕ) → Turn py s (record s { gate = with_pending_ttl ttl s.gate })

pub data Reach (py : Outside) (gate : Gate) : Traffic → Type 0 where
  begin : Reach py gate (opened gate)
  later : {s t : Traffic} → Reach py gate s → Turn py s t → Reach py gate t
