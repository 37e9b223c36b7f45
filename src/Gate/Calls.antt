-- ===== src/Gate/Calls.antt =====
-- vynkor/confirmation_gate.py: what a gate with overlapping calls of `route` keeps, and lemmas on its table.
use vynkor_sdk_python.Prelude.{
  ℕ, suc, ◌≡◌, ◌≢◌, refl, sym, ap, ◌∙◌, ◌⊎◌, inl, inr, true, List, [], ◌∷◌, map, All, if◌then◌else◌,
  none, some, arith, Bool-cases,
}
use vynkor_sdk_python.Prelude.Dict.{Dict}
use vynkor_sdk_python.Prelude.Dict
use vynkor_sdk_python.Errors.{Str, Bytes}
use vynkor_sdk_python.Py.Text.{str_eq, str_eq→eq, str_eq_refl, str_key}
use vynkor_sdk_python.Gate.Allowlist.{may_confirm}
use vynkor_sdk_python.Gate.Table.{Gate, PendingAction, pending_id, stale_pids, sweep_expired}
use vynkor_sdk_python.Gate.Expiry.{get-delete_all}
use vynkor_sdk_python.Gate.Fresh.{IsIssued, IsFresh, pending_id-injective}
use vynkor_sdk_python.Gate.Await.{Execution}
use vynkor_sdk_python.Gate.Turns.{Traffic}

-- No id stands twice in the list.
abbrev pub IsDistinct : List Str → Type 0
IsDistinct [] = Unit
IsDistinct (pid ∷ pids) = All (λ q. q ≢ pid) pids × IsDistinct pids

-- A request with these parameters was stored under this id.
abbrev pub IsStored : List (Str × Bytes) → Str → Bytes → Type 0
IsStored [] pid params = ⊥
IsStored ((q, given) ∷ requests) pid params =
    ((q ≡ pid) × (given ≡ params)) ⊎ IsStored requests pid params

abbrev pub pids_of : List Execution → List Str
pids_of calls = map (λ e. e.pid) calls

abbrev pub ids_of : List (Str × Bytes) → List Str
ids_of requests = map (λ r. r.0) requests

pub record IsOnce (callers : List Str) (s : Traffic) : Type 0 where
  pub fresh : IsFresh s.gate
  pub same_callers : s.gate.confirm_callers ≡ callers
  pub issued_requests : All (IsIssued s.gate.seq) (ids_of s.requests)
  pub issued_calls : All (IsIssued s.gate.seq) (pids_of s.calls)
  pub gone : All (λ pid. Dict.get pid s.gate.pending ≡ none) (pids_of s.calls)
  pub requests_once : IsDistinct (ids_of s.requests)
  pub calls_once : IsDistinct (pids_of s.calls)
  pub held : Dict.Each (λ pid p. IsStored s.requests pid p.params) s.gate.pending
  pub own : All (λ e. IsStored s.requests e.pid e.params) s.calls
  pub approved : All (λ e. may_confirm callers e.caller ≡ true) s.calls

pub All-imp {ℓ κ μ} :
    {A : Type ℓ} (P : A → Type κ) (Q : A → Type μ) (xs : List A)
    → ((x : A) → P x → Q x)
    → All P xs
    → All Q xs
All-imp P Q [] f h = tt
All-imp P Q (x ∷ xs) f h = (f x h.0, All-imp P Q xs f h.1)

pub All-imp2 {ℓ κ μ ν} :
    {A : Type ℓ} (P : A → Type κ) (Q : A → Type μ) (R : A → Type ν) (xs : List A)
    → ((x : A) → P x → Q x → R x)
    → All P xs
    → All Q xs
    → All R xs
All-imp2 P Q R [] f h k = tt
All-imp2 P Q R (x ∷ xs) f h k = (f x h.0 k.0, All-imp2 P Q R xs f h.1 k.1)

pub Each-imp :
    (P Q : Str → PendingAction → Type 0) (table : Dict Str PendingAction)
    → ((pid : Str) (p : PendingAction) → P pid p → Q pid p)
    → Dict.Each P table
    → Dict.Each Q table
Each-imp P Q [] f h = tt
Each-imp P Q ((pid, p) ∷ table) f h = (f pid p h.0, Each-imp P Q table f h.1)

pub IsIssued-later : (seq : ℕ) (pid : Str) → IsIssued seq pid → IsIssued (suc seq) pid
IsIssued-later seq pid (wall, n, named, below) = (wall, n, named, omega arith)

pub IsIssued-new : (wall seq : ℕ) → IsIssued (suc seq) (pending_id wall seq)
IsIssued-new wall seq = (wall, seq, refl, omega arith)

pub IsIssued-ne : (wall seq : ℕ) (pid : Str) → IsIssued seq pid → pid ≢ pending_id wall seq
IsIssued-ne wall seq pid (v, n, named, below) same =
    omega (arith, pending_id-injective v wall n seq (sym named ∙ same))

-- What is not in the table does not come into it by a sweep, nor by another entry.
pub get-swept :
    (now : ℕ) (gate : Gate) (pid : Str)
    → Dict.get pid gate.pending ≡ none
    → Dict.get pid (sweep_expired now gate).pending ≡ none
unfolding sweep_expired
get-swept now gate pid h =
    ground (arith, get-delete_all pid (stale_pids now gate.pending_ttl gate.pending) gate.pending)

pub get-insert_other :
    (new pid : Str) (p : PendingAction) (table : Dict Str PendingAction)
    → pid ≢ new
    → Dict.get pid table ≡ none
    → Dict.get pid (Dict.insert new p table) ≡ none
get-insert_other new pid p table other h = elim (Bool-cases (str_eq new pid)) [
  | inl e ↦ absurd (other (sym (str_eq→eq new pid e)))
  | inr e ↦ Dict.get-insert new pid p table ∙ rw e h
]

pub get-remove-none :
    (taken pid : Str) (table : Dict Str PendingAction)
    → Dict.get pid table ≡ none
    → Dict.get pid (Dict.remove taken table) ≡ none
get-remove-none taken pid table h = ground (arith, Dict.get-remove taken pid table)

pub get-remove_self :
    (pid : Str) (table : Dict Str PendingAction) → Dict.get pid (Dict.remove pid table) ≡ none
get-remove_self pid table =
    Dict.get-remove pid pid table
    ∙ ap (λ b. if b then none else Dict.get pid table) (str_eq_refl pid)

pub none-some : {A : Type 0} {a : A} → none ≡ some a → ⊥
none-some h = cc
