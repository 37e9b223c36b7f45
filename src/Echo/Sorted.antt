-- ===== src/Echo/Sorted.antt =====
-- examples/echo_plugin.py: the sorted keys of a table whose numbers came in any order.
use vynkor_sdk_python.Prelude.{
  range_from, ℕ, zero, suc, ◌≡◌, refl, sym, ap, subst, ◌∙◌, List, [], ◌∷◌, ◌++◌, if◌then◌else◌,
  Option, none, some, arith, ◌==◌, ==_iff, append-nil, append_assoc, Bool-cases, inl, inr,
}
use mathlib.Core.List.{
  Perm, foldr, Mem, not-mem-nil, mem-cons_self, mem-cons_of_mem, eq-or-mem_of_mem-cons, Nodup,
  Nodup-cons,
}
use mathlib.Core.List.Perm
use mathlib.Core.Logic.Or
use vynkor_sdk_python.Prelude.Ranges.{Nodup-range_from}
use vynkor_sdk_python.Prelude.Dict.{Dict, nat_key}
use vynkor_sdk_python.Prelude.Dict
use vynkor_sdk_python.Errors.{Bytes, ok}
use vynkor_sdk_python.Echo.Handlers.{place, sorted, keys, join_chunks}

place-place : (a b : ℕ) (seqs : List ℕ) → place a (place b seqs) ≡ place b (place a seqs)
unfolding place
place-place a b [] = ground arith
place-place a b (c ∷ seqs) = ground (arith, place-place a b seqs)

sorted-foldr : (seqs : List ℕ) → sorted seqs ≡ foldr place [] seqs
unfolding sorted
sorted-foldr [] = refl
sorted-foldr (seq ∷ seqs) = ap (place seq) (sorted-foldr seqs)

-- The order in which the numbers came does not matter.
sorted-perm : {seqs other : List ℕ} → Perm seqs other → sorted seqs ≡ sorted other
sorted-perm {seqs} {other} p =
    sorted-foldr seqs ∙ Perm.foldr-eq (hlevel) place place-place p [] ∙ sym (sorted-foldr other)

place-range_from :
    (first count : ℕ)
    → place first (range_from (suc first) count) ≡ first ∷ range_from (suc first) count
unfolding place
place-range_from first zero = refl
place-range_from first (suc count) = ground arith

sorted-range_from : (first count : ℕ) → sorted (range_from first count) ≡ range_from first count
unfolding sorted
sorted-range_from first zero = refl
sorted-range_from first (suc count) =
    ap (place first) (sorted-range_from (suc first) count) ∙ place-range_from first count

-- Numbers that are stored one after the other, each with its piece.
unfoldable pub store_all : (ℕ → Bytes) → List ℕ → Dict ℕ Bytes → Dict ℕ Bytes
store_all piece [] d = d
store_all piece (k ∷ order) d = store_all piece order (Dict.insert k (piece k) d)

keys-insert :
    (k : ℕ) (chunk : Bytes) (d : Dict ℕ Bytes)
    → Dict.get k d ≡ none
    → keys (Dict.insert k chunk d) ≡ keys d ++ (k ∷ [])
unfolding Dict.get Dict.insert
keys-insert k chunk [] h = refl
keys-insert k chunk ((j, v) ∷ d) h = ground (arith, keys-insert k chunk d)

keys-store_all :
    (piece : ℕ → Bytes) (order : List ℕ) (d : Dict ℕ Bytes)
    → Nodup order
    → ((k : ℕ) → Mem k order → Dict.get k d ≡ none)
    → keys (store_all piece order d) ≡ keys d ++ order
unfolding store_all
keys-store_all piece [] d once absent = sym (append-nil (keys d))
keys-store_all piece (k ∷ order) d once absent =
    let (fresh, rest) = Nodup-cons.0 once in
    keys-store_all piece order (Dict.insert k (piece k) d) rest (λ j m.
      Dict.get-insert k j (piece k) d ∙ elim (Bool-cases (k == j)) [
        | inl e ↦ absurd (fresh (subst (λ i. Mem i order) (sym ((==_iff k j).0 e)) m))
        | inr e ↦ rw e (absent j (mem-cons_of_mem _ m))
      ])
    ∙ ap (λ ks. ks ++ order) (keys-insert k (piece k) d (absent k mem-cons_self))
    ∙ append_assoc (keys d) (k ∷ []) order

get-insert_same :
    (piece : ℕ → Bytes) (j k : ℕ) (d : Dict ℕ Bytes)
    → Dict.get k d ≡ some (piece k)
    → Dict.get k (Dict.insert j (piece j) d) ≡ some (piece k)
get-insert_same piece j k d h = elim (Bool-cases (j == k)) [
  | inl e ↦ Dict.get-insert j k (piece j) d ∙ rw e (ap (λ i. some (piece i)) ((==_iff j k).0 e))
  | inr e ↦ Dict.get-insert j k (piece j) d ∙ rw e h
]

get-insert_self :
    (piece : ℕ → Bytes) (j : ℕ) (d : Dict ℕ Bytes)
    → Dict.get j (Dict.insert j (piece j) d) ≡ some (piece j)
get-insert_self piece j d =
    Dict.get-insert j j (piece j) d
    ∙ ap (λ b. if b then some (piece j) else Dict.get j d) ((==_iff j j).1 refl)

get-kept :
    (piece : ℕ → Bytes) (order : List ℕ) (k : ℕ) (d : Dict ℕ Bytes)
    → Dict.get k d ≡ some (piece k)
    → Dict.get k (store_all piece order d) ≡ some (piece k)
unfolding store_all
get-kept piece [] k d h = h
get-kept piece (j ∷ order) k d h =
    get-kept piece order k (Dict.insert j (piece j) d) (get-insert_same piece j k d h)

found_set : IsSet (Option Bytes)
found_set = hlevel

get-store_all :
    (piece : ℕ → Bytes) (order : List ℕ) (k : ℕ) (d : Dict ℕ Bytes)
    → Mem k order
    → Dict.get k (store_all piece order d) ≡ some (piece k)
unfolding store_all
get-store_all piece [] k d m = absurd (not-mem-nil m)
get-store_all piece (j ∷ order) k d m =
    let d' = Dict.insert j (piece j) d in
    Or.elim (found_set (Dict.get k (store_all piece order d')) (some (piece k)))
      (eq-or-mem_of_mem-cons m)
      (λ here.
        get-kept piece order k d'
          (subst (λ i. Dict.get i d' ≡ some (piece i)) (sym here) (get-insert_self piece j d)))
      (get-store_all piece order k d')

-- The pieces, one behind the other.
unfoldable pub joined : (ℕ → Bytes) → ℕ → ℕ → Bytes
joined piece first zero = []
joined piece first (suc count) = piece first ++ joined piece (suc first) count

join_chunks-range_from :
    (piece : ℕ → Bytes) (d : Dict ℕ Bytes) (first count : ℕ)
    → ((k : ℕ) → Mem k (range_from first count) → Dict.get k d ≡ some (piece k))
    → join_chunks d (range_from first count) ≡ ok (joined piece first count)
unfolding joined join_chunks
join_chunks-range_from piece d first zero there = refl
join_chunks-range_from piece d first (suc count) there =
    rw
      (
        there first mem-cons_self,
        join_chunks-range_from piece d (suc first) count (λ k m. there k (mem-cons_of_mem _ m)),
      )
      refl

-- The table that holds the pieces of `range(count)`, come in any order, joins to all of them.
pub join_chunks-store_all :
    (piece : ℕ → Bytes) (count : ℕ) (order : List ℕ)
    → Perm order (range_from 0 count)
    → let table = store_all piece order [] in
      join_chunks table (sorted (keys table)) ≡ ok (joined piece 0 count)
unfolding Dict.get
join_chunks-store_all piece count order p =
    let table = store_all piece order [] in
    let once = Perm.nodup (Perm.symm p) (Nodup-range_from 0 count) in
    let in_order : sorted (keys table) ≡ range_from 0 count =
      ap sorted (keys-store_all piece order [] once (λ k m. refl))
      ∙ sorted-perm p
      ∙ sorted-range_from 0 count in
    ap (join_chunks table) in_order
    ∙ join_chunks-range_from piece table 0 count
        (λ k m. get-store_all piece order k [] ((Perm.mem_iff p).1 m))
