-- ===== src/Client/Counting.antt =====
-- The fragments with a sequence number below a bound: how many there are, and how many bytes.
use vynkor_sdk_python.Prelude.{
  ℕ, zero, suc, ◌+◌, ◌-◌, ◌≤◌, ◌<◌, ◌≡◌, refl, ap, inl, inr, [], ◌++◌, arith, ◌==◌, length,
  length-append, some, Bool-cases, Option-cases,
}
use vynkor_sdk_python.Prelude.Dict
use vynkor_sdk_python.Prelude.Dict.{Dict, nat_key, absent, get-insert, length-insert}
use vynkor_sdk_python.Errors.{Bytes, ok}
use vynkor_sdk_python.Client.Reassembly.{join_from, size_at}

unfoldable pub present : ℕ → Dict ℕ Bytes → ℕ
present zero d = 0
present (suc n) d = present n d + (1 - absent (Dict.get n d))

unfoldable pub weight : ℕ → Dict ℕ Bytes → ℕ
weight zero d = 0
weight (suc n) d = weight n d + size_at n d

pub present-empty : (n : ℕ) → present n [] ≡ 0
unfolding present Dict.get
present-empty zero = refl
present-empty (suc n) = omega (arith, present-empty n)

pub weight-empty : (n : ℕ) → weight n [] ≡ 0
unfolding weight Dict.get
weight-empty zero = refl
weight-empty (suc n) = omega (arith, weight-empty n)

present_above :
    (n k : ℕ) (v : Bytes) (d : Dict ℕ Bytes) → n ≤ k → present n (Dict.insert k v d) ≡ present n d
unfolding present
present_above zero k v d h = refl
present_above (suc n) k v d h = ground (arith, get-insert k n v d, present_above n k v d)

pub present-insert :
    (n k : ℕ) (v : Bytes) (d : Dict ℕ Bytes)
    → k < n
    → present n (Dict.insert k v d) ≡ present n d + absent (Dict.get k d)
unfolding present
present-insert zero k v d h = absurd (omega arith)
present-insert (suc n) k v d h = elim (Bool-cases (k == n)) [
  | inl last ↦ ground (arith, get-insert k n v d, present_above n k v d)
  | inr below ↦ ground (arith, get-insert k n v d, present-insert n k v d)
]

weight_above :
    (n k : ℕ) (v : Bytes) (d : Dict ℕ Bytes) → n ≤ k → weight n (Dict.insert k v d) ≡ weight n d
unfolding weight
weight_above zero k v d h = refl
weight_above (suc n) k v d h = ground (arith, get-insert k n v d, weight_above n k v d)

pub weight-insert :
    (n k : ℕ) (v : Bytes) (d : Dict ℕ Bytes)
    → k < n
    → weight n (Dict.insert k v d) + size_at k d ≡ weight n d + length v
unfolding weight
weight-insert zero k v d h = absurd (omega arith)
weight-insert (suc n) k v d h = elim (Bool-cases (k == n)) [
  | inl last ↦ ground (arith, get-insert k n v d, weight_above n k v d)
  | inr below ↦ ground (arith, get-insert k n v d, weight-insert n k v d)
]

pub size_at-le-weight : (n k : ℕ) (d : Dict ℕ Bytes) → k < n → size_at k d ≤ weight n d
unfolding weight
size_at-le-weight zero k d h = absurd (omega arith)
size_at-le-weight (suc n) k d h = elim (Bool-cases (k == n)) [
  | inl last ↦ ground arith
  | inr below ↦ ground (arith, size_at-le-weight n k d)
]

pub present-le : (n : ℕ) (d : Dict ℕ Bytes) → present n d ≤ n
unfolding present
present-le zero d = omega arith
present-le (suc n) d = omega (arith, present-le n d)

-- Where as many are present as can be, each of them is.
pub present_full :
    (n k : ℕ) (d : Dict ℕ Bytes)
    → present n d ≡ n
    → k < n
    → (chunk : Bytes) × (Dict.get k d ≡ some chunk)
unfolding present
present_full zero k d e h = absurd (omega arith)
present_full (suc n) k d e h = elim (Option-cases (Dict.get k d)) [
  | inr found ↦ found
  | inl missing ↦ elim (Bool-cases (k == n)) [
    | inl last ↦ absurd (ground (arith, present-le n d))
    | inr below ↦ present_full n k d (ground (arith, present-le n d)) (ground arith)
  ]
]

weight-suc :
    (n : ℕ) (d : Dict ℕ Bytes) (chunk : Bytes)
    → Dict.get n d ≡ some chunk
    → weight (suc n) d ≡ weight n d + length chunk
unfolding weight
weight-suc n d chunk e = ground arith

pub join_from-suc :
    (d : Dict ℕ Bytes) (seq left : ℕ) (chunk back : Bytes)
    → Dict.get seq d ≡ some chunk
    → join_from d (suc seq) left ≡ ok back
    → join_from d seq (suc left) ≡ ok (chunk ++ back)
unfolding join_from
join_from-suc d seq left chunk back e j = ground arith

-- Joining full fragments raises nothing, and gives as many bytes as were buffered.
pub join_from-present :
    (seq left n : ℕ) (d : Dict ℕ Bytes)
    → seq + left ≡ n
    → present n d ≡ n
    → (whole : Bytes) × (join_from d seq left ≡ ok whole)
      × (length whole + weight seq d ≡ weight n d)
unfolding join_from
join_from-present seq zero n d e full =
    let all : seq ≡ n = omega arith in ([], refl, omega (arith, ap (λ k. weight k d) all))
join_from-present seq (suc left) n d e full =
    let (chunk, found) = present_full n seq d full (omega arith) in
    let (back, joined, size) = join_from-present (suc seq) left n d (omega arith) full in
    (
      chunk ++ back,
      join_from-suc d seq left chunk back found joined,
      omega (arith, length-append chunk back, weight-suc seq d chunk found, size),
    )
