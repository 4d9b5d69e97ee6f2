-- ===== src/Instance/Handler/Deletion.antt =====
-- server/pkg/instance/handler.go, DeleteRepository: which repository it removes.
use mathlib.Core.List.{Perm}
use dummy_cd.Base.{
  ℕ, zero, suc, ◌+◌, String, ◌≡◌, ◌≢◌, ◌⊎◌, refl, subst, Option, none, some, List, [], ◌∷◌, arith,
  ◌==◌, eq_iff, Bool-cases, All, inl, inr,
}
use dummy_cd.Go.{ok, err, err_repository_config_not_found}
use dummy_cd.Slice.{get_elem?, swap_remove}
use dummy_cd.Slice.Removal.{swap_remove-perm}
use dummy_cd.Libs.{Types}
use dummy_cd.Instance.{Libraries}
use dummy_cd.Instance.Repository.{RepositoryConfig}
use dummy_cd.Instance.Handler.{HandlerState, find_last, delete_at, delete_found, delete_repository}

module _ {T : Types} (name : String) where
  -- The index that is found is one at which the name stands.
  find_last-found :
      (repos : List (RepositoryConfig T)) (j : ℕ) (last : Option ℕ) {k : ℕ}
      → find_last name repos j last ≡ some k
      → (last ≡ some k)
        ⊎ ((i : ℕ) × (r : RepositoryConfig T) × (k ≡ j + i)
            × (get_elem? repos i ≡ some r)
            × (r.name ≡ name))
  unfolding find_last
  find_last-found [] j last h = inl h
  find_last-found (r ∷ rest) j last {k} h = elim (find_last-found rest (suc j) _ h) [
    | inl e ↦ elim (Bool-cases (r.name == name)) [
      | inl same ↦ inr (0, r, ground arith, refl, (eq_iff r.name name).0 same)
      | inr other ↦ inl (ground arith)
    ]
    | inr (i, x, at, e, n) ↦ inr (suc i, x, omega arith, e, n)
  ]

  find_last-named :
      (repos : List (RepositoryConfig T)) (k : ℕ)
      → find_last name repos zero none ≡ some k
      → (r : RepositoryConfig T) × (get_elem? repos k ≡ some r) × (r.name ≡ name)
  find_last-named repos k h = elim (find_last-found repos zero none h) [
    | inl e ↦ cc
    | inr (i, r, at, e, named) ↦
        let same : i ≡ k = omega arith in (r, subst (λ n. get_elem? repos n ≡ some r) same e, named)
  ]

  find_last-absent :
      (repos : List (RepositoryConfig T)) (j : ℕ) (last : Option ℕ)
      → All (λ r. r.name ≢ name) repos
      → find_last name repos j last ≡ last
  unfolding find_last
  find_last-absent [] j last h = refl
  find_last-absent (r ∷ rest) j last h =
      ground (arith, eq_iff r.name name, find_last-absent rest (suc j) last h.1)

module _ {T : Types} (libs : Libraries T) where
  delete_at-done :
      (i : ℕ) (r : RepositoryConfig T) (s : HandlerState T)
      → (delete_at libs i r s).0 ≡ ok tt
      → (delete_at libs i r s).1.handler.repos ≡ swap_remove s.handler.repos i
  unfolding delete_at
  delete_at-done i r s h = ground arith

  delete_found-done :
      (i : ℕ) (r : RepositoryConfig T) (s : HandlerState T)
      → get_elem? s.handler.repos i ≡ some r
      → (delete_found libs (some i) s).0 ≡ ok tt
      → (delete_found libs (some i) s).1.handler.repos ≡ swap_remove s.handler.repos i
  unfolding delete_found
  delete_found-done i r s e h = ground (arith, delete_at-done i r s)

  found-perm :
      (name : String) (o : Option ℕ) (s : HandlerState T)
      → find_last name s.handler.repos zero none ≡ o
      → (delete_found libs o s).0 ≡ ok tt
      → (r : RepositoryConfig T) × (r.name ≡ name)
        × Perm s.handler.repos (r ∷ (delete_found libs o s).1.handler.repos)
  found-perm name none s e h = unfold delete_found in cc
  found-perm name (some k) s e h =
      let (r, at, named) = find_last-named name s.handler.repos k e in
      (r, named, rw (delete_found-done k r s at h) (swap_remove-perm s.handler.repos k at))

  -- A DeleteRepository that succeeds removes one repository, which has the name, and no other: the
  -- repositories before are that one and those after, in some order.
  pub delete_repository-perm :
      (name : String) (s : HandlerState T)
      → (delete_repository libs name s).0 ≡ ok tt
      → (r : RepositoryConfig T) × (r.name ≡ name)
        × Perm s.handler.repos (r ∷ (delete_repository libs name s).1.handler.repos)
  unfolding delete_repository
  delete_repository-perm name s h = found-perm name _ s refl h

  -- Where no repository has the name, DeleteRepository says so and changes nothing.
  pub delete_repository-absent :
      (name : String) (s : HandlerState T)
      → All (λ r. r.name ≢ name) s.handler.repos
      → delete_repository libs name s ≡ (err err_repository_config_not_found, s)
  unfolding delete_repository delete_found
  delete_repository-absent name s h = rw (find_last-absent name s.handler.repos zero none h) refl
