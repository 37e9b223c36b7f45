-- ===== src/Py/Decimal.antt =====
-- The decimal digits of a number determine it.
use vynkor_sdk_python.Prelude.{
  ℕ, zero, suc, ◌+◌, ◌-◌, ◌*◌, ◌/◌, ◌%◌, ◌≤◌, ◌<◌, ◌≡◌, refl, sym, ap, ◌∙◌, [], ◌∷◌, ◌++◌, ltb, All,
  arith, Bool-cases, inl, inr,
}
use vynkor_sdk_python.Errors.{Str}
use vynkor_sdk_python.Py.Text.{decimal, decimal_fuel}

-- The number that decimal digits stand for, behind an accumulator.
unfoldable pub value_from : ℕ → Str → ℕ
value_from acc [] = acc
value_from acc (c ∷ s) = value_from (acc * 10 + (c - 48)) s

value_from-snoc :
    (acc : ℕ) (s : Str) (c : ℕ) → value_from acc (s ++ (c ∷ [])) ≡ value_from acc s * 10 + (c - 48)
unfolding value_from
value_from-snoc acc [] c = refl
value_from-snoc acc (d ∷ s) c = value_from-snoc (acc * 10 + (d - 48)) s c

one_digit : (n : ℕ) → value_from 0 ((48 + n) ∷ []) ≡ n
unfolding value_from
one_digit n = omega arith

value_from-decimal_fuel : (fuel n : ℕ) → n < fuel → value_from 0 (decimal_fuel fuel n) ≡ n
unfolding decimal_fuel
value_from-decimal_fuel zero n h = absurd (omega arith)
value_from-decimal_fuel (suc fuel) n h = elim (Bool-cases (ltb n 10)) [
  | inl small ↦ rw small (one_digit n)
  | inr large ↦
      let front = value_from-decimal_fuel fuel (n / 10) (ground arith) in
      rw (large, value_from-snoc 0 (decimal_fuel fuel (n / 10)) (48 + n % 10), front) (omega arith)
]

pub value_from-decimal : (n : ℕ) → value_from 0 (decimal n) ≡ n
unfolding decimal
value_from-decimal n = value_from-decimal_fuel (suc n) n (omega arith)

pub decimal-injective : (m n : ℕ) → decimal m ≡ decimal n → m ≡ n
decimal-injective m n e = sym (value_from-decimal m) ∙ ap (value_from 0) e ∙ value_from-decimal n

-- No digit is a hyphen.
abbrev pub IsPlain : Str → Type 0
IsPlain s = All (λ c. 48 ≤ c) s

IsPlain-snoc : (s : Str) (c : ℕ) → IsPlain s → 48 ≤ c → IsPlain (s ++ (c ∷ []))
IsPlain-snoc [] c h k = (k, tt)
IsPlain-snoc (d ∷ s) c h k = (h.0, IsPlain-snoc s c h.1 k)

decimal_fuel-IsPlain : (fuel n : ℕ) → IsPlain (decimal_fuel fuel n)
unfolding decimal_fuel
decimal_fuel-IsPlain zero n = tt
decimal_fuel-IsPlain (suc fuel) n = elim (Bool-cases (ltb n 10)) [
  | inl small ↦ rw small (omega arith, tt)
  | inr large ↦ rw large (IsPlain-snoc _ _ (decimal_fuel-IsPlain fuel (n / 10)) (omega arith))
]

pub decimal-IsPlain : (n : ℕ) → IsPlain (decimal n)
unfolding decimal
decimal-IsPlain n = decimal_fuel-IsPlain (suc n) n

-- What stands behind the first hyphen.
pub after_hyphen : (s t u v : Str) → IsPlain s → IsPlain t → s ++ (45 ∷ u) ≡ t ++ (45 ∷ v) → u ≡ v
after_hyphen [] [] u v p q e = cc
after_hyphen [] (d ∷ t) u v p q e = let same : 45 ≡ d = cc in absurd (omega (arith, same, q.0))
after_hyphen (c ∷ s) [] u v p q e = let same : c ≡ 45 = cc in absurd (omega (arith, same, p.0))
after_hyphen (c ∷ s) (d ∷ t) u v p q e = after_hyphen s t u v p.1 q.1 (cc)

-- Equal texts behind a common front.
pub cancel_front : (s u v : Str) → s ++ u ≡ s ++ v → u ≡ v
cancel_front [] u v e = e
cancel_front (c ∷ s) u v e = cancel_front s u v (cc)
