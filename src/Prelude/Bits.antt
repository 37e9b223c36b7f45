-- ===== src/Prelude/Bits.antt =====
-- The bit operations at variables: one equation for the lowest digit of each, and from these the
-- arithmetic of the masks that the program uses.
use Prim.Native.Nat.{
  ℕ, zero, suc, ◌+◌, ◌*◌, ◌/◌, ◌%◌, ◌≤◌, min, max, digits, bit_and, bit_or, bit_and-bitwise,
  bit_or-bitwise,
}
use mathlib.Core.Path.{◌≡◌, refl, ap}
use native.Mathlib.Omega.{arith}

-- Any count of digits that covers `a` gives the same result.
module _ (end : ℕ → ℕ) (digit : ℕ → ℕ → ℕ) where
  digits-bitwise :
      (fuel k a b : ℕ) → a ≤ fuel → a ≤ k → digits end digit fuel a b ≡ digits end digit k a b
  digits-bitwise zero zero zero b _ _ = refl
  digits-bitwise zero (suc k) zero b _ _ = refl
  digits-bitwise (suc fuel) zero zero b _ _ = refl
  digits-bitwise (suc fuel) (suc k) zero b _ _ = refl
  digits-bitwise (suc fuel) (suc k) (suc a) b p q =
      rw (digits-bitwise fuel k (suc a / 2) (b / 2) (omega arith) (omega arith))
  digits-bitwise zero _ (suc a) b p q = absurd (omega arith)
  digits-bitwise (suc fuel) zero (suc a) b p q = absurd (omega arith)

pub bit_and_digit : (x y : ℕ) → bit_and x y ≡ min (x % 2) (y % 2) + 2 * bit_and (x / 2) (y / 2)
bit_and_digit zero b = simp bit_and-bitwise (omega arith)
bit_and_digit (suc a) b = simp bit_and-bitwise (
    omega (
      arith,
      digits-bitwise (λ _. 0) min a (suc a / 2) (suc a / 2) (b / 2) (omega arith) (omega arith),
    ))

pub bit_or_digit : (x y : ℕ) → bit_or x y ≡ max (x % 2) (y % 2) + 2 * bit_or (x / 2) (y / 2)
bit_or_digit zero b = simp bit_or-bitwise (omega arith)
bit_or_digit (suc a) b = simp bit_or-bitwise (
    omega (
      arith,
      digits-bitwise (λ y. y) max a (suc a / 2) (suc a / 2) (b / 2) (omega arith) (omega arith),
    ))

module _ where
  and-zero : (fuel a : ℕ) → a ≤ fuel → bit_and a 0 ≡ 0
  and-zero fuel zero h = refl
  and-zero zero (suc a) h = absurd (omega arith)
  and-zero (suc fuel) (suc a) h =
      omega (arith, bit_and_digit (suc a) 0, and-zero fuel (suc a / 2) (omega arith))

  or-zero : (fuel a : ℕ) → a ≤ fuel → bit_or a 0 ≡ a
  or-zero fuel zero h = refl
  or-zero zero (suc a) h = absurd (omega arith)
  or-zero (suc fuel) (suc a) h =
      omega (arith, bit_or_digit (suc a) 0, or-zero fuel (suc a / 2) (omega arith))

  and-le : (fuel a b : ℕ) → a ≤ fuel → bit_and a b ≤ b
  and-le fuel zero b h = omega (arith, bit_and_digit 0 b, bit_and-bitwise 0 b)
  and-le zero (suc a) b h = absurd (omega arith)
  and-le (suc fuel) (suc a) b h =
      omega (arith, bit_and_digit (suc a) b, and-le fuel (suc a / 2) (b / 2) (omega arith))

pub bit_and-zero : (a : ℕ) → bit_and a 0 ≡ 0
bit_and-zero a = and-zero a a (omega arith)

pub bit_or-zero : (a : ℕ) → bit_or a 0 ≡ a
bit_or-zero a = or-zero a a (omega arith)

-- A mask bounds what it is laid over.
pub bit_and-le : (a b : ℕ) → bit_and a b ≤ b
bit_and-le a b = and-le a a b (omega arith)

-- One bit, tested and set.
pub bit_and_one : (a : ℕ) → bit_and a 1 ≡ a % 2
bit_and_one a = omega (arith, bit_and_digit a 1, bit_and-zero (a / 2))

pub bit_and_two : (a : ℕ) → bit_and a 2 ≡ a / 2 % 2 * 2
bit_and_two a = omega (arith, bit_and_digit a 2, bit_and_one (a / 2))

pub bit_and_four : (a : ℕ) → bit_and a 4 ≡ a / 4 % 2 * 4
bit_and_four a = omega (arith, bit_and_digit a 4, bit_and_two (a / 2))

pub bit_and_sixteen : (a : ℕ) → bit_and a 16 ≡ a / 16 % 2 * 16
bit_and_sixteen a =
    omega (arith, bit_and_digit a 16, bit_and_digit (a / 2) 8, bit_and_four (a / 2 / 2))

pub bit_or_one : (a : ℕ) → bit_or a 1 ≡ a / 2 * 2 + 1
bit_or_one a = omega (arith, bit_or_digit a 1, bit_or-zero (a / 2))

pub bit_or_two : (a : ℕ) → bit_or a 2 ≡ a / 4 * 4 + 2 + a % 2
bit_or_two a = omega (arith, bit_or_digit a 2, bit_or_one (a / 2))

pub bit_and_five : (a : ℕ) → bit_and a 5 ≡ a % 2 + a / 4 % 2 * 4
bit_and_five a = omega (arith, bit_and_digit a 5, bit_and_two (a / 2))

-- The number of `k` digits that are all one.
unfoldable pub ones : ℕ → ℕ
ones zero = 0
ones (suc k) = 2 * ones k + 1

pub bit_and-ones : (k a : ℕ) → a ≤ ones k → bit_and a (ones k) ≡ a
unfolding ones
bit_and-ones zero a h = omega (arith, bit_and-zero a)
bit_and-ones (suc k) a h =
    let half : (2 * ones k + 1) / 2 ≡ ones k = omega arith in
    omega (
      arith,
      bit_and_digit a (2 * ones k + 1),
      ap (bit_and (a / 2)) half,
      bit_and-ones k (a / 2) (omega arith),
    )
