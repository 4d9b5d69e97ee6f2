-- ===== src/Slice/Removal.antt =====
-- The removal of an item by the last one, as a permutation.
use mathlib.Core.List.{Perm, perm_append_singleton}
use mathlib.Core.List.Perm
use dummy_cd.Base.{ℕ, zero, suc, ◌≡◌, refl, sym, ap, subst, some, List, [], ◌∷◌, ◌++◌}
use dummy_cd.Slice.{get_elem?, set, get_last?, drop_last, swap_remove}

module _ {A : Type 0} where
  split_last : (xs : List A) {l : A} → get_last? xs ≡ some l → xs ≡ drop_last xs ++ (l ∷ [])
  split_last [] h = cc
  split_last (x ∷ []) h = cc
  split_last (x ∷ y ∷ xs) h = ap (◌∷◌ x) (split_last (y ∷ xs) h)

  get_last?-set :
      (xs : List A) (i : ℕ) {l : A} → get_last? xs ≡ some l → get_last? (set xs i l) ≡ some l
  get_last?-set [] i h = h
  get_last?-set (x ∷ []) zero h = refl
  get_last?-set (x ∷ []) (suc i) h = h
  get_last?-set (x ∷ y ∷ xs) zero h = h
  get_last?-set (x ∷ y ∷ xs) (suc zero) h = get_last?-set (y ∷ xs) zero h
  get_last?-set (x ∷ y ∷ xs) (suc (suc i)) h = get_last?-set (y ∷ xs) (suc i) h

  set-perm :
      (xs : List A) (i : ℕ) (l : A) {x : A}
      → get_elem? xs i ≡ some x
      → Perm (l ∷ xs) (x ∷ set xs i l)
  set-perm [] i l h = cc
  set-perm (y ∷ xs) zero l {x} h = let e : y ≡ x = cc in rw e (Perm.swap _ _ _)
  set-perm (y ∷ xs) (suc i) l {x} h =
      Perm.trans (Perm.swap _ _ _) (Perm.trans (Perm.cons y (set-perm xs i l h)) (Perm.swap _ _ _))

  get_last?-cons : (x : A) (xs : List A) → (l : A) × (get_last? (x ∷ xs) ≡ some l)
  get_last?-cons x [] = (x, refl)
  get_last?-cons x (y ∷ xs) = get_last?-cons y xs

  split_last-perm : (xs : List A) {l : A} → get_last? xs ≡ some l → Perm xs (l ∷ drop_last xs)
  split_last-perm xs {l} h =
      subst (λ ys. Perm ys (l ∷ drop_last xs)) (sym (split_last xs h))
        (perm_append_singleton l (drop_last xs))

  removed-perm :
      (xs : List A) (i : ℕ) {x l : A}
      → get_elem? xs i ≡ some x
      → get_last? xs ≡ some l
      → Perm xs (x ∷ drop_last (set xs i l))
  removed-perm xs i {x} {l} h e = Perm.cons_inv (
      Perm.trans (set-perm xs i l h) (
        Perm.trans (Perm.cons x (split_last-perm (set xs i l) (get_last?-set xs i e)))
          (Perm.swap _ _ _)))

  pub swap_remove-perm :
      (xs : List A) (i : ℕ) {x : A} → get_elem? xs i ≡ some x → Perm xs (x ∷ swap_remove xs i)
  unfolding swap_remove
  swap_remove-perm [] i h = cc
  swap_remove-perm (y ∷ xs) i {x} h =
      let (l, e) = get_last?-cons y xs in rw (e, swap_remove) (removed-perm (y ∷ xs) i h e)
