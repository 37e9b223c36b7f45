-- ===== src/Package/Binding.antt =====
-- vynkor/__init__.py: which names a namespace has after assignments.
use vynkor_sdk_python.Prelude.{
  ◌≡◌, refl, subst, Bool, true, false, ◌&&◌, List, [], ◌∷◌, ◌++◌, some, if◌then◌else◌, arith, All,
  Bool-cases, inl, inr,
}
use vynkor_sdk_python.Prelude.Dict
use vynkor_sdk_python.Prelude.Dict.{get-insert}
use vynkor_sdk_python.Errors.{Str}
use vynkor_sdk_python.Py.Text.{str_eq, str_eq→eq, str_key}
use vynkor_sdk_python.Package.Import.{Meaning, Namespace, bind_each}

abbrev pub is_in : Str → List Str → Bool
is_in name [] = false
is_in name (other ∷ names) = if str_eq other name then true else is_in name names

-- Every name of the first list is in the second, and none of them is.
abbrev pub covers : List Str → List Str → Bool
covers names [] = true
covers names (name ∷ rest) = is_in name names && covers names rest

abbrev pub avoids : List Str → List Str → Bool
avoids names [] = true
avoids names (name ∷ rest) = if is_in name names then false else avoids names rest

-- The names stand for the values of a function.
abbrev pub AreBound : (Str → Meaning) → List Str → Namespace → Type 0
AreBound value names space = All (λ name. Dict.get name space ≡ some (value name)) names

pub get-bind_each :
    (value : Str → Meaning) (names : List Str) (space : Namespace) (name : Str)
    → Dict.get name (bind_each value names space)
      ≡ (if is_in name names then some (value name) else Dict.get name space)
unfolding bind_each
get-bind_each value [] space name = refl
get-bind_each value (other ∷ names) space name =
    rw
      (
        get-bind_each value names (Dict.insert other (value other) space) name,
        get-insert other name (value other) space,
      )
      (elim (Bool-cases (str_eq other name)) [
        | inl same ↦
            rw (same, str_eq→eq other name same)
              (elim (Bool-cases (is_in name names)) [
                | inl later ↦ rw later refl
                | inr none_later ↦ rw none_later refl
              ])
        | inr differs ↦ rw differs refl
      ])

-- A name that is not assigned keeps its value.
pub get-insert_other :
    (other name : Str) (value : Meaning) (space : Namespace)
    → str_eq other name ≡ false
    → Dict.get name (Dict.insert other value space) ≡ Dict.get name space
get-insert_other other name value space differs =
    rw (get-insert other name value space, differs) refl

pub is_in-eq-false :
    (name other : Str) (names : List Str)
    → is_in name (other ∷ names) ≡ false
    → (str_eq other name ≡ false) × (is_in name names ≡ false)
is_in-eq-false name other names out = elim (Bool-cases (str_eq other name)) [
  | inl same ↦ absurd (ground arith)
  | inr differs ↦ (differs, ground arith)
]

pub is_in-All {ℓ} :
    (P : Str → Type ℓ) (names : List Str) (name : Str)
    → All P names
    → is_in name names ≡ true
    → P name
is_in-All P [] name held found = cc
is_in-All P (other ∷ names) name (p, held) found = elim (Bool-cases (str_eq other name)) [
  | inl same ↦ subst P (str_eq→eq other name same) p
  | inr differs ↦ is_in-All P names name held (ground arith)
]

pub covers-All {ℓ} :
    (P : Str → Type ℓ) (names rest : List Str)
    → ((name : Str) → is_in name names ≡ true → P name)
    → covers names rest ≡ true
    → All P rest
covers-All P names [] each covered = tt
covers-All P names (name ∷ rest) each covered =
    (each name (ground arith), covers-All P names rest each (ground arith))

pub avoids-All {ℓ κ} :
    (P : Str → Type ℓ) (Q : Str → Type κ) (names rest : List Str)
    → ((name : Str) → is_in name names ≡ false → P name → Q name)
    → avoids names rest ≡ true
    → All P rest
    → All Q rest
avoids-All P Q names [] each avoided held = tt
avoids-All P Q names (name ∷ rest) each avoided (p, held) =
    (each name (ground arith) p, avoids-All P Q names rest each (ground arith) held)

pub All-append {ℓ} :
    (P : Str → Type ℓ) (names rest : List Str) → All P names → All P rest → All P (names ++ rest)
All-append P [] rest held more = more
All-append P (name ∷ names) rest (p, held) more = (p, All-append P names rest held more)

-- A name of two lists that is not in the first is in the second.
pub is_in-append :
    (name : Str) (names rest : List Str)
    → is_in name names ≡ false
    → is_in name (names ++ rest) ≡ true
    → is_in name rest ≡ true
is_in-append name [] rest out found = found
is_in-append name (other ∷ names) rest out found = elim (Bool-cases (str_eq other name)) [
  | inl same ↦ ground arith
  | inr differs ↦ is_in-append name names rest (ground arith) (ground arith)
]

pub is_in-append-eq-false :
    (name : Str) (names rest : List Str)
    → is_in name (names ++ rest) ≡ false
    → (is_in name names ≡ false) × (is_in name rest ≡ false)
is_in-append-eq-false name [] rest out = (refl, out)
is_in-append-eq-false name (other ∷ names) rest out =
    let (differs, out1) = is_in-eq-false name other (names ++ rest) out in
    let (first, second) = is_in-append-eq-false name names rest out1 in
    (rw (differs, first) refl, second)

pub map-All {ℓ κ} :
    (P : Str → Type ℓ) (Q : Str → Type κ)
    → ((name : Str) → P name → Q name)
    → (names : List Str) → All P names
    → All Q names
map-All P Q each [] held = tt
map-All P Q each (name ∷ names) (p, held) = (each name p, map-All P Q each names held)
