-- ===== src/Gate/Fresh.antt =====
-- vynkor/confirmation_gate.py: a pending id is new when it is handed out.
use vynkor_sdk_python.Prelude.{
  ℕ, suc, ◌<◌, ◌≡◌, refl, sym, ◌∙◌, List, [], ◌∷◌, none, arith, Bool-cases, inl, inr,
}
use vynkor_sdk_python.Prelude.Dict.{Dict}
use vynkor_sdk_python.Prelude.Dict
use vynkor_sdk_python.Errors.{Str, Bytes, Result, ok, err}
use vynkor_sdk_python.Py.Text.{str, str_eq, str_eq→eq, decimal, str_key}
use vynkor_sdk_python.Py.Decimal.{decimal-injective, decimal-IsPlain, after_hyphen, cancel_front}
use vynkor_sdk_python.Messages.{ActionRequest}
use vynkor_sdk_python.Gate.Branches.{route_elim}
use vynkor_sdk_python.Gate.Table.{
  Gate, Clock, PendingAction, pending_id, pending_of, delete_all, stale_pids, sweep_expired,
  store_request, take_pending,
}
use vynkor_sdk_python.Gate.Route.{
  Outside, Returned, parse_pending_id, confirm_parsed, route_confirm, route_request, route,
}

-- Two pending ids with different numbers differ, whatever the clock said.
pub pending_id-injective : (v w m n : ℕ) → pending_id v m ≡ pending_id w n → m ≡ n
unfolding pending_id str
pending_id-injective v w m n e = decimal-injective m n (
    after_hyphen (decimal v) (decimal w) (decimal m) (decimal n) (decimal-IsPlain v)
      (decimal-IsPlain w) (cancel_front (str "pending-") _ _ e))

-- A pending id with a number below a bound.
abbrev pub IsIssued : ℕ → Str → Type 0
IsIssued seq pid = (wall : ℕ) × (n : ℕ) × (pid ≡ pending_id wall n) × (n < seq)

-- Every id in the table has a number that the counter has passed.
abbrev pub IsFresh : Gate → Type 0
IsFresh gate = Dict.Each (λ pid p. IsIssued gate.seq pid) gate.pending

pub get-fresh :
    (wall seq : ℕ) (table : Dict Str PendingAction)
    → Dict.Each (λ pid p. IsIssued seq pid) table
    → Dict.get (pending_id wall seq) table ≡ none
unfolding Dict.get
get-fresh wall seq [] f = refl
get-fresh wall seq ((pid, p) ∷ table) ((v, n, named, below), rest) =
    elim (Bool-cases (str_eq pid (pending_id wall seq))) [
      | inl e ↦
          let same = sym named ∙ str_eq→eq pid (pending_id wall seq) e in
          absurd (omega (arith, pending_id-injective v wall n seq same))
      | inr e ↦ rw e (get-fresh wall seq table rest)
    ]

pub get-IsFresh :
    (wall : ℕ) (gate : Gate)
    → IsFresh gate
    → Dict.get (pending_id wall gate.seq) gate.pending ≡ none
get-IsFresh wall gate f = get-fresh wall gate.seq gate.pending f

pub Each-later :
    (seq : ℕ) (table : Dict Str PendingAction)
    → Dict.Each (λ pid p. IsIssued seq pid) table
    → Dict.Each (λ pid p. IsIssued (suc seq) pid) table
Each-later seq [] f = tt
Each-later seq ((pid, p) ∷ table) ((v, n, named, below), rest) =
    ((v, n, named, omega arith), Each-later seq table rest)

pub Each-delete_all :
    (P : Str → PendingAction → Type 0) (pids : List Str) (table : Dict Str PendingAction)
    → Dict.Each P table
    → Dict.Each P (delete_all pids table)
unfolding delete_all
Each-delete_all P [] table f = f
Each-delete_all P (pid ∷ pids) table f =
    Each-delete_all P pids (Dict.remove pid table) (Dict.Each-remove P pid table f)

pub sweep_expired-IsIssued :
    (now : ℕ) (gate : Gate)
    → IsFresh gate
    → Dict.Each (λ pid p. IsIssued gate.seq pid) (sweep_expired now gate).pending
unfolding sweep_expired
sweep_expired-IsIssued now gate f =
    Each-delete_all (λ pid p. IsIssued gate.seq pid) (stale_pids now gate.pending_ttl gate.pending)
      gate.pending f

pub store_request-IsFresh :
    (clock : Clock) (req : ActionRequest) (gate : Gate)
    → IsFresh gate
    → IsFresh (store_request clock req gate).0
unfolding store_request
store_request-IsFresh clock req gate f =
    let pid = pending_id clock.wall gate.seq in
    Dict.Each-insert (λ pid p. IsIssued (suc gate.seq) pid) pid (pending_of clock req)
      (sweep_expired clock.now gate).pending
      (λ j e. (clock.wall, gate.seq, str_eq→eq j pid e, omega arith))
      (clock.wall, gate.seq, refl, omega arith)
      (Each-later gate.seq (sweep_expired clock.now gate).pending
        (sweep_expired-IsIssued clock.now gate f))

sweep-seq : (now : ℕ) (gate : Gate) → (sweep_expired now gate).seq ≡ gate.seq
unfolding sweep_expired
sweep-seq now gate = refl

pub take_pending-IsFresh :
    (now : ℕ) (pid : Str) (gate : Gate) → IsFresh gate → IsFresh (take_pending now pid gate).0
unfolding take_pending
take_pending-IsFresh now pid gate f = rw (sweep-seq now gate) (
    Dict.Each-remove (λ pid p. IsIssued gate.seq pid) pid (sweep_expired now gate).pending
      (sweep_expired-IsIssued now gate f))

confirm_parsed-IsFresh :
    (py : Outside) (executor : Bytes → Result Returned)
    → (gate : Gate) (clock : Clock) (id : Str) (parsed : Result Str) → IsFresh gate
    → IsFresh (confirm_parsed py executor gate clock id parsed).gate
unfolding confirm_parsed
confirm_parsed-IsFresh py executor gate clock id (err e) f = f
confirm_parsed-IsFresh py executor gate clock id (ok pid) f =
    take_pending-IsFresh clock.now pid gate f

route_step-IsFresh :
    (py : Outside) (executor : Bytes → Result Returned)
    → (gate : Gate) (clock : Clock) (req : ActionRequest) → IsFresh gate
    → IsFresh (route py executor gate clock req).gate
unfolding route_confirm route_request
route_step-IsFresh py executor gate clock req f =
    route_elim py executor (λ r. IsFresh r.gate) gate clock req
      (λ starts named. store_request-IsFresh clock req gate f)
      (λ named allowed.
        confirm_parsed-IsFresh py executor gate clock req.action_id
          (parse_pending_id py req.params_json) f)
      (λ envs. f)

-- Every message keeps the table so that its ids have numbers below the counter, and so the id that
-- the next request gets is not in the table, whatever the clock says.
pub route-IsFresh :
    (py : Outside) (executor : Bytes → Result Returned)
    → (gate : Gate) (clock : Clock) (req : ActionRequest) → IsFresh gate
    → IsFresh (route py executor gate clock req).gate
      × ((wall : ℕ)
          → Dict.get
              (pending_id wall (route py executor gate clock req).gate.seq)
              (route py executor gate clock req).gate.pending
            ≡ none)
route-IsFresh py executor gate clock req f =
    let kept = route_step-IsFresh py executor gate clock req f in
    (kept, λ wall. get-IsFresh wall (route py executor gate clock req).gate kept)
