-- ===== src/Prelude/Ranges.antt =====
-- The numbers of a range.
use vynkor_sdk_python.Prelude.{
  ℕ, zero, suc, ◌+◌, ◌≤◌, ◌<◌, ◌≡◌, subst, sym, refl, ap, arith, length, List, [], ◌∷◌, ◌∙◌,
  range_from, inl, inr, ◌==◌, ==_iff, Bool-cases,
}
use mathlib.Core.List.{
  Perm, foldr, Mem, not-mem-nil, mem-cons_self, mem-cons_of_mem, eq-or-mem_of_mem-cons, Nodup,
  Nodup-nil, Nodup-cons,
}
use mathlib.Core.List.Perm
use mathlib.Core.HLevel.{⊥_prop}
use mathlib.Core.Logic.Or

pub not-mem-range_from : (k first count : ℕ) → k < first → ¬ Mem k (range_from first count)
not-mem-range_from k first zero lt m = not-mem-nil m
not-mem-range_from k first (suc count) lt m =
    Or.elim ⊥_prop (eq-or-mem_of_mem-cons m) (λ e. omega (arith, e))
      (not-mem-range_from k (suc first) count (omega arith))

pub Nodup-range_from : (first count : ℕ) → Nodup (range_from first count)
Nodup-range_from first zero = Nodup-nil
Nodup-range_from first (suc count) =
    Nodup-cons.1
      (not-mem-range_from first (suc first) count (omega arith), Nodup-range_from (suc first) count)

pub mem-range_from :
    (k first count : ℕ) → first ≤ k → k < first + count → Mem k (range_from first count)
mem-range_from k first zero low high = absurd (omega arith)
mem-range_from k first (suc count) low high = elim (Bool-cases (first == k)) [
  | inl e ↦ subst (λ i. Mem i (range_from first (suc count))) ((==_iff first k).0 e) mem-cons_self
  | inr z ↦ mem-cons_of_mem first (mem-range_from k (suc first) count (ground arith) (omega arith))
]

pub length-range_from : (first count : ℕ) → length (range_from first count) ≡ count
length-range_from first zero = refl
length-range_from first (suc count) = ap suc (length-range_from (suc first) count)

length-foldr : (xs : List ℕ) → length xs ≡ foldr (λ x n. suc n) 0 xs
length-foldr [] = refl
length-foldr (x ∷ xs) = ap suc (length-foldr xs)

pub length-perm : {xs ys : List ℕ} → Perm xs ys → length xs ≡ length ys
length-perm {xs} {ys} p =
    length-foldr xs
    ∙ Perm.foldr-eq (hlevel) (λ x n. suc n) (λ a b n. refl) p 0
    ∙ sym (length-foldr ys)
