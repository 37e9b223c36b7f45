-- ===== src/Client/Bounded.antt =====
-- vynkor/client.py: the bounds of the reassembly table, and what keeps them.
use vynkor_sdk_python.Prelude.{
  ℕ, ◌+◌, ◌≤◌, ◌<◌, ◌≡◌, subst, inl, inr, List, [], ◌∷◌, arith, ◌==◌, length, some, Bool-cases,
}
use vynkor_sdk_python.Prelude.Dict
use vynkor_sdk_python.Prelude.Dict.{
  Dict, nat_key, absent, Each, Each-insert, Each-remove, get-insert, get-remove, length-insert,
  length-remove, remove-insert_self,
}
use vynkor_sdk_python.Framing.Primitives.{max_payload}
use vynkor_sdk_python.Client.Reassembly.{
  ReassemblyBuf, Streams, new_buf, max_reassembly_streams, stale_ids, remove_all, prune_reassembly,
}
use vynkor_sdk_python.Client.Counting.{present, weight, present-empty, weight-empty}

-- A buffer that waits for more: it counts its fragments and their bytes, and holds at most
-- MAX_PAYLOAD bytes.
pub record IsOpen (buf : ReassemblyBuf) : Type 0 where
  pub counted : length buf.fragments ≡ present buf.total buf.fragments
  pub weighed : buf.buffered_bytes ≡ weight buf.total buf.fragments
  pub bounded : buf.buffered_bytes ≤ max_payload
  pub incomplete : length buf.fragments < buf.total

-- Every set of the table is open, and there are at most MAX_REASSEMBLY_STREAMS.
pub record IsBounded (d : Streams) : Type 0 where
  pub open_sets : Each (λ _ buf. IsOpen buf) d
  pub few : length d ≤ max_reassembly_streams

pub Each-get :
    (sid : ℕ) (d : Streams) {buf : ReassemblyBuf}
    → Each (λ _ buf. IsOpen buf) d
    → Dict.get sid d ≡ some buf
    → IsOpen buf
unfolding Dict.get
Each-get sid [] h e = absurd (cc)
Each-get sid ((j, b) ∷ d) {buf} h e = elim (Bool-cases (j == sid)) [
  | inl here ↦ subst IsOpen (ground arith) h.0
  | inr there ↦ Each-get sid d h.1 (rw there at e)
]

pub remove-IsBounded : (sid : ℕ) (d : Streams) → IsBounded d → IsBounded (Dict.remove sid d)
remove-IsBounded sid d b = record {
  open_sets = Each-remove _ sid d b.open_sets;
  few = omega (arith, length-remove sid d, b.few);
}

remove_all-IsBounded : (sids : List ℕ) (d : Streams) → IsBounded d → IsBounded (remove_all sids d)
unfolding remove_all
remove_all-IsBounded [] d b = b
remove_all-IsBounded (sid ∷ sids) d b =
    remove_all-IsBounded sids (Dict.remove sid d) (remove-IsBounded sid d b)

pub prune_reassembly-IsBounded :
    (now : ℕ) (d : Streams) → IsBounded d → IsBounded (prune_reassembly now d)
unfolding prune_reassembly
prune_reassembly-IsBounded now d b = remove_all-IsBounded (stale_ids now d) d b

-- `len` cannot pass the bound by a set that is there already.
pub insert-IsBounded :
    (sid : ℕ) (buf : ReassemblyBuf) (d : Streams)
    → IsOpen buf
    → length d + absent (Dict.get sid d) ≤ max_reassembly_streams
    → IsBounded d
    → IsBounded (Dict.insert sid buf d)
insert-IsBounded sid buf d o l b = record {
  open_sets = Each-insert _ sid buf d (λ j e. o) o b.open_sets;
  few = omega (arith, length-insert sid buf d);
}

pub new_buf-IsOpen : (total flags now : ℕ) → 0 < total → IsOpen (new_buf total flags now)
new_buf-IsOpen total flags now h = record {
  counted = omega (arith, present-empty total);
  weighed = omega (arith, weight-empty total);
  bounded = omega arith;
  incomplete = omega arith;
}
