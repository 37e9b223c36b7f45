-- ===== src/Gate/Table.antt =====
-- vynkor/confirmation_gate.py: `PendingAction`, the state of a `ConfirmationGate`, and the table of
-- pending requests. Times are milliseconds; `pending_ttl` is not negative.
use vynkor_sdk_python.Prelude.{
  ℕ, suc, ◌+◌, Bool, true, false, List, [], ◌∷◌, ◌++◌, leb, if◌then◌else◌, Option, none, some,
  length,
}
use vynkor_sdk_python.Prelude.Dict.{Dict}
use vynkor_sdk_python.Prelude.Dict
use vynkor_sdk_python.Errors.{Str, Bytes, Result, ok, err, foreign, value_error, raise_if, ◌>>◌}
use vynkor_sdk_python.Py.Text.{str, decimal, str_key}
use vynkor_sdk_python.Messages.{ActionRequest, ActionSpec}
use vynkor_sdk_python.Gate.Names.{validate_op, is_empty, request_spec, confirm_spec}

pub record PendingAction : Type 0 where
  pub action : Str
  pub params : Bytes
  pub caller_plugin_id : Str
  pub created_at : ℕ

-- `seq` is what the module's counter `_seq` hands out next.
pub record Gate : Type 0 where
  pub op : Str
  pub description : Str
  pub params_schema : Str
  pub risk : ℕ
  pub confirm_callers : List Str
  pub pending_ttl : ℕ
  pub pending : Dict Str PendingAction
  pub seq : ℕ

-- What the clocks say in one call: `monotonic()` at the sweep and at the store, and `time()`.
pub record Clock : Type 0 where
  pub now : ℕ
  pub created : ℕ
  pub wall : ℕ

abbrev pub default_pending_ttl : ℕ
default_pending_ttl = 300000

abbrev pub with_table : Gate → Dict Str PendingAction → ℕ → Gate
with_table gate table seq = record gate { pending = table; seq = seq }

abbrev pub no_callers : List Str → Bool
no_callers [] = true
no_callers (c ∷ callers) = false

-- `ConfirmationGate(op, description, params_schema, risk, confirm_callers)`
unfoldable pub new_gate : Str → Str → Str → ℕ → List Str → ℕ → Result Gate
new_gate op description schema risk callers seq = do
  validate_op op
  raise_if (is_empty description) (foreign (value_error (str "description must not be empty")))
  raise_if (no_callers callers) (
      foreign
        (value_error (str "confirm_callers must name at least one caller allowed to confirm")))
  ok (record {
    op = op;
    description = description;
    params_schema = schema;
    risk = risk;
    confirm_callers = callers;
    pending_ttl = default_pending_ttl;
    pending = [];
    seq = seq;
  })

unfoldable pub pending_count : Gate → ℕ
pending_count gate = length gate.pending

unfoldable pub manifest_entries : Gate → List Str × List ActionSpec
manifest_entries gate =
    let request = request_spec gate.op gate.description gate.params_schema gate.risk in
    let confirm = confirm_spec gate.op gate.description gate.risk in
    (request.name ∷ confirm.name ∷ [], request ∷ confirm ∷ [])

-- `now - p.created_at >= self._pending_ttl`
unfoldable pub is_stale : ℕ → ℕ → PendingAction → Bool
is_stale now ttl p = leb (p.created_at + ttl) now

unfoldable pub stale_pids : ℕ → ℕ → Dict Str PendingAction → List Str
stale_pids now ttl [] = []
stale_pids now ttl ((pid, p) ∷ table) =
    let rest = stale_pids now ttl table in if is_stale now ttl p then pid ∷ rest else rest

-- `for pid in stale: del self._pending[pid]`
unfoldable pub delete_all : List Str → Dict Str PendingAction → Dict Str PendingAction
delete_all [] table = table
delete_all (pid ∷ pids) table = delete_all pids (Dict.remove pid table)

unfoldable pub sweep_expired : ℕ → Gate → Gate
sweep_expired now gate =
    with_table gate (delete_all (stale_pids now gate.pending_ttl gate.pending) gate.pending)
      gate.seq

-- `f"pending-{int(time.time() * 1000)}-{_next_seq()}"`
unfoldable pub pending_id : ℕ → ℕ → Str
pending_id wall seq = str "pending-" ++ (decimal wall ++ (str "-" ++ decimal seq))

unfoldable pub pending_of : Clock → ActionRequest → PendingAction
pending_of clock req = record {
  action = req.action;
  params = req.params_json;
  caller_plugin_id = req.caller_plugin_id;
  created_at = clock.created;
}

unfoldable pub store_request : Clock → ActionRequest → Gate → Gate × Str
store_request clock req gate =
    let swept = sweep_expired clock.now gate in
    let pid = pending_id clock.wall gate.seq in
    (with_table swept (Dict.insert pid (pending_of clock req) swept.pending) (suc gate.seq), pid)

-- `if pending is None: raise ValueError(…)`
unfoldable pub found_or_raise : Str → Str → Option PendingAction → Result PendingAction
found_or_raise op pid none =
    err (foreign (value_error (str "no pending " ++ (op ++ (str " request with id " ++ pid)))))
found_or_raise op pid (some p) = ok p

unfoldable pub take_pending : ℕ → Str → Gate → Gate × Result PendingAction
take_pending now pid gate =
    let swept = sweep_expired now gate in
    (
      with_table swept (Dict.remove pid swept.pending) swept.seq,
      found_or_raise gate.op pid (Dict.get pid swept.pending),
    )

-- `with_pending_ttl(ttl)`
unfoldable pub with_pending_ttl : ℕ → Gate → Gate
with_pending_ttl ttl gate = record gate { pending_ttl = ttl }
