-- ===== src/Slice.antt =====
-- Go slices as lists: reading, writing and the removal of an item by the last one.
pub mod Removal
pub mod Writes
pub mod All
use dummy_cd.Base.{ℕ, zero, suc, Option, none, some, List, [], ◌∷◌}

module _ {ℓ} {A : Type ℓ} where
  abbrev pub get_elem? : List A → ℕ → Option A
  get_elem? [] i = none
  get_elem? (x ∷ xs) zero = some x
  get_elem? (x ∷ xs) (suc i) = get_elem? xs i

  abbrev pub set : List A → ℕ → A → List A
  set [] i v = []
  set (x ∷ xs) zero v = v ∷ xs
  set (x ∷ xs) (suc i) v = x ∷ set xs i v

  abbrev pub get_last? : List A → Option A
  get_last? [] = none
  get_last? (x ∷ []) = some x
  get_last? (x ∷ y ∷ xs) = get_last? (y ∷ xs)

  -- xs[:len(xs)-1]
  abbrev pub drop_last : List A → List A
  drop_last [] = []
  drop_last (x ∷ []) = []
  drop_last (x ∷ y ∷ xs) = x ∷ drop_last (y ∷ xs)

  -- xs[i] = xs[len(xs)-1]; xs = xs[:len(xs)-1]
  unfoldable pub swap_remove : List A → ℕ → List A
  swap_remove xs i = elim (get_last? xs) [ none ↦ xs | some x ↦ drop_last (set xs i x) ]
