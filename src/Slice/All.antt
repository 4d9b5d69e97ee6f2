-- ===== src/Slice/All.antt =====
-- A predicate at every item, through reads, writes and removals.
use dummy_cd.Base.{ℕ, zero, suc, ◌≡◌, subst, some, List, [], ◌∷◌, All, Option-cases, inl, inr}
use dummy_cd.Slice.{get_elem?, set, get_last?, drop_last, swap_remove}

module _ {A : Type 0} (P : A → Type 0) where
  pub All-set : (xs : List A) (i : ℕ) (v : A) → P v → All P xs → All P (set xs i v)
  All-set [] i v h all = all
  All-set (x ∷ xs) zero v h all = (h, all.1)
  All-set (x ∷ xs) (suc i) v h all = (all.0, All-set xs i v h all.1)

  pub All-get : (xs : List A) (i : ℕ) {v : A} → get_elem? xs i ≡ some v → All P xs → P v
  All-get [] i h all = cc
  All-get (x ∷ xs) zero {v} h all = let same : x ≡ v = cc in subst P same all.0
  All-get (x ∷ xs) (suc i) h all = All-get xs i h all.1

  All-get_last : (xs : List A) {v : A} → get_last? xs ≡ some v → All P xs → P v
  All-get_last [] h all = cc
  All-get_last (x ∷ []) {v} h all = let same : x ≡ v = cc in subst P same all.0
  All-get_last (x ∷ y ∷ xs) h all = All-get_last (y ∷ xs) h all.1

  All-drop_last : (xs : List A) → All P xs → All P (drop_last xs)
  All-drop_last [] all = all
  All-drop_last (x ∷ []) all = tt
  All-drop_last (x ∷ y ∷ xs) all = (all.0, All-drop_last (y ∷ xs) all.1)

  pub All-swap_remove : (xs : List A) (i : ℕ) → All P xs → All P (swap_remove xs i)
  unfolding swap_remove
  All-swap_remove xs i all = elim (Option-cases (get_last? xs)) [
    | inl e ↦ rw (swap_remove, e) all
    | inr (v, e) ↦
        rw (swap_remove, e)
          (All-drop_last (set xs i v) (All-set xs i v (All-get_last xs e all) all))
  ]
