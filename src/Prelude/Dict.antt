-- ===== src/Prelude/Dict.antt =====
-- Python's `dict` as an association list in insertion order, over keys with a Boolean equality.
use Prim.Native.Nat.{ℕ, ◌+◌, ◌≤◌}
use mathlib.Core.Path.{◌≡◌, refl, ap, subst}
use mathlib.Core.Logic.{◌↔◌, inl, inr}
use mathlib.Core.Bool.{Bool, true}
use mathlib.Core.Option
use mathlib.Core.Option.{Option, none, some}
use mathlib.Core.List.{List, [], ◌∷◌}
use native.Mathlib.Omega.{arith}
use vynkor_sdk_python.Prelude.Tests.{if◌then◌else◌, ◌==◌, ==_iff, Bool-cases}
use vynkor_sdk_python.Prelude.Lists.{length}

-- The equality test that Python's dict calls on its keys.
pub record Key {ℓ} (K : Type ℓ) : Type ℓ where
  pub beq : K → K → Bool
  pub beq_iff : (a b : K) → (beq a b ≡ true) ↔ (a ≡ b)

instance abbrev pub nat_key : Key ℕ
nat_key = record { beq = ◌==◌; beq_iff = ==_iff }

abbrev pub Dict {ℓ κ} : Type ℓ → Type κ → Type (ℓ ⊔ κ)
Dict K V = List (K × V)

-- 1 for a key that is not there.
abbrev pub absent {ℓ} : {V : Type ℓ} → Option V → ℕ
absent none = 1
absent (some v) = 0

module _ {ℓ κ} {K : Type ℓ} {V : Type κ} ⦃key : Key K⦄ where
  unfoldable pub get : K → Dict K V → Option V
  get k [] = none
  get k ((j, v) ∷ d) = if key.beq j k then some v else get k d

  -- `d[k] = v` keeps the place of a key that is there already.
  unfoldable pub insert : K → V → Dict K V → Dict K V
  insert k v [] = (k, v) ∷ []
  insert k v ((j, w) ∷ d) = if key.beq j k then (j, v) ∷ d else (j, w) ∷ insert k v d

  -- `del d[k]` of a key that is there, and `d.pop(k, None)`.
  unfoldable pub remove : K → Dict K V → Dict K V
  remove k [] = []
  remove k ((j, v) ∷ d) = let rest = remove k d in if key.beq j k then rest else (j, v) ∷ rest

  pub get-insert :
      (k j : K) (v : V) (d : Dict K V)
      → get j (insert k v d) ≡ (if key.beq k j then some v else get j d)
  unfolding get insert
  get-insert k j v [] = refl
  get-insert k j v ((i, w) ∷ d) =
      ground (arith, key.beq_iff k j, key.beq_iff i k, key.beq_iff i j, get-insert k j v d)

  pub get-remove :
      (k j : K) (d : Dict K V) → get j (remove k d) ≡ (if key.beq k j then none else get j d)
  unfolding get remove
  get-remove k j [] = ground arith
  get-remove k j ((i, w) ∷ d) =
      ground (arith, key.beq_iff k j, key.beq_iff i k, key.beq_iff i j, get-remove k j d)

  -- A dict grows by the keys that it did not have.
  pub length-insert :
      (k : K) (v : V) (d : Dict K V) → length (insert k v d) ≡ length d + absent (get k d)
  unfolding get insert
  length-insert k v [] = omega arith
  length-insert k v ((i, w) ∷ d) = ground (arith, length-insert k v d)

  pub length-remove : (k : K) (d : Dict K V) → length (remove k d) ≤ length d
  unfolding remove
  length-remove k [] = omega arith
  length-remove k ((i, w) ∷ d) = ground (arith, length-remove k d)

  -- Every entry satisfies a predicate.
  abbrev pub Each {μ} : (K → V → Type μ) → Dict K V → Type μ
  Each P [] = Unit
  Each P ((k, v) ∷ d) = P k v × Each P d

  pub Each-insert {μ} :
      (P : K → V → Type μ) (k : K) (v : V) (d : Dict K V)
      → ((j : K) → key.beq j k ≡ true → P j v)
      → P k v
      → Each P d
      → Each P (insert k v d)
  unfolding insert
  Each-insert P k v [] q h e = (h, tt)
  Each-insert P k v ((i, w) ∷ d) q h e = ground (arith, q i, Each-insert P k v d q h e.1)

  pub Each-get {μ} :
      (P : K → V → Type μ) (k : K) (v : V) (d : Dict K V) → Each P d → get k d ≡ some v → P k v
  unfolding get
  Each-get P k v [] e h = absurd (cc)
  Each-get P k v ((i, w) ∷ d) e h = elim (Bool-cases (key.beq i k)) [
    | inl same ↦
        let found : some w ≡ some v = ground arith in
        subst (λ j. P j v) ((key.beq_iff i k).0 same)
          (subst (P i) (ap (λ o. Option.get_or o w) found) e.0)
    | inr other ↦ Each-get P k v d e.1 (ground arith)
  ]

  pub Each-remove {μ} : (P : K → V → Type μ) (k : K) (d : Dict K V) → Each P d → Each P (remove k d)
  unfolding remove
  Each-remove P k [] e = tt
  Each-remove P k ((i, w) ∷ d) e = ground (arith, Each-remove P k d e.1)

  -- What was written under a key goes with the key.
  pub remove-insert_self : (k : K) (v : V) (d : Dict K V) → remove k (insert k v d) ≡ remove k d
  unfolding remove insert
  remove-insert_self k v [] = ground (arith, key.beq_iff k k)
  remove-insert_self k v ((i, w) ∷ d) = ground (arith, remove-insert_self k v d)
