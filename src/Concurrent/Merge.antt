-- ===== src/Concurrent/Merge.antt =====
-- Two lists merged into one, each in its own order.
use vynkor_sdk_python.Prelude.{◌≡◌, List, [], ◌∷◌, ◌++◌, ◌+◌, length, arith}

pub data Merge {ℓ} {A : Type ℓ} : List A → List A → List A → Type ℓ where
  nil : Merge [] [] []
  left : {x : A} {xs ys zs : List A} → Merge xs ys zs → Merge (x ∷ xs) ys (x ∷ zs)
  right : {y : A} {xs ys zs : List A} → Merge xs ys zs → Merge xs (y ∷ ys) (y ∷ zs)

module _ {ℓ} {A : Type ℓ} where
  pub Merge-snoc_left :
      {xs ys zs : List A} (a : A) → Merge xs ys zs → Merge (xs ++ (a ∷ [])) ys (zs ++ (a ∷ []))
  Merge-snoc_left a nil = left nil
  Merge-snoc_left a (left m) = left (Merge-snoc_left a m)
  Merge-snoc_left a (right m) = right (Merge-snoc_left a m)

  pub Merge-snoc_right :
      {xs ys zs : List A} (a : A) → Merge xs ys zs → Merge xs (ys ++ (a ∷ [])) (zs ++ (a ∷ []))
  Merge-snoc_right a nil = right nil
  Merge-snoc_right a (left m) = left (Merge-snoc_right a m)
  Merge-snoc_right a (right m) = right (Merge-snoc_right a m)

  pub length-Merge : {xs ys zs : List A} → Merge xs ys zs → length zs ≡ length xs + length ys
  length-Merge nil = omega arith
  length-Merge (left m) = omega (arith, length-Merge m)
  length-Merge (right m) = omega (arith, length-Merge m)
