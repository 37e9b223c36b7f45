-- ===== src/Gate/Expiry.antt =====
-- vynkor/confirmation_gate.py: what `_sweep_expired_locked` and `_take_pending` leave in the table.
use vynkor_sdk_python.Prelude.{
  ℕ, ◌+◌, ◌≤◌, ◌<◌, ◌≡◌, refl, Bool, true, false, ◌||◌, List, [], ◌∷◌, if◌then◌else◌, none, some,
  length, arith,
}
use vynkor_sdk_python.Prelude.Dict.{Dict}
use vynkor_sdk_python.Prelude.Dict
use vynkor_sdk_python.Errors.{Str}
use vynkor_sdk_python.Py.Text.{str_eq, str_key}
use vynkor_sdk_python.Gate.Table.{
  Gate, PendingAction, is_stale, stale_pids, delete_all, sweep_expired,
}

unfoldable pub mem : Str → List Str → Bool
mem pid [] = false
mem pid (p ∷ pids) = str_eq p pid || mem pid pids

pub get-delete_all :
    (pid : Str) (pids : List Str) (table : Dict Str PendingAction)
    → Dict.get pid (delete_all pids table) ≡ (if mem pid pids then none else Dict.get pid table)
unfolding delete_all mem
get-delete_all pid [] table = refl
get-delete_all pid (p ∷ pids) table =
    ground (arith, get-delete_all pid pids (Dict.remove p table), Dict.get-remove p pid table)

stale-mem :
    (now ttl : ℕ) (pid : Str) (table : Dict Str PendingAction) (p : PendingAction)
    → Dict.get pid table ≡ some p
    → is_stale now ttl p ≡ true
    → mem pid (stale_pids now ttl table) ≡ true
unfolding stale_pids mem Dict.get
stale-mem now ttl pid [] p h s = cc
stale-mem now ttl pid ((q, w) ∷ table) p h s = ground (arith, stale-mem now ttl pid table p)

-- What a sweep leaves was there before, and has not waited too long.
pub get-sweep :
    (now : ℕ) (gate : Gate) (pid : Str) (p : PendingAction)
    → Dict.get pid (sweep_expired now gate).pending ≡ some p
    → (Dict.get pid gate.pending ≡ some p) × (now < p.created_at + gate.pending_ttl)
unfolding sweep_expired is_stale
get-sweep now gate pid p h = ground (
  arith,
  get-delete_all pid (stale_pids now gate.pending_ttl gate.pending) gate.pending,
  stale-mem now gate.pending_ttl pid gate.pending p,
)

pub length-delete_all :
    (pids : List Str) (table : Dict Str PendingAction)
    → length (delete_all pids table) ≤ length table
unfolding delete_all
length-delete_all [] table = omega arith
length-delete_all (p ∷ pids) table =
    omega (arith, length-delete_all pids (Dict.remove p table), Dict.length-remove p table)
