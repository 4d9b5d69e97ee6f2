-- ===== src/Instance/Repository/Synced.antt =====
-- server/pkg/instance/repository.go, AddOrUpdateApplication: the two ends of a request that the
-- server answers with no error, done and up to date.
use dummy_cd.Base.{
  ℕ, zero, suc, String, [], ◌∷◌, ◌≡◌, ◌≢◌, subst, ◌⊎◌, true, Option, none, some, List, arith,
  Bool-cases, Option-cases, inl, inr,
}
use dummy_cd.Go.{Error, no_err_already_up_todate, Result-cases, ok, err, panic, blocked}
use dummy_cd.Slice.{get_elem?}
use dummy_cd.Libs.{Types}
use dummy_cd.Libs.Charts.{RestConfig}
use dummy_cd.Instance.{Libraries}
use dummy_cd.Instance.Application.{Application, ApplicationSpec}
use dummy_cd.Instance.Repository.{
  RepoState, find_first, cmp_equal, add_application, replace_application, update_application, place,
  add_or_update_application,
}
use dummy_cd.Instance.Sentinel.{IsOwn, new_application-Never}
use dummy_cd.Instance.Repository.Keeps.{add_or_update-place}
use dummy_cd.Instance.Repository.Placement.{add_or_update_application-Placed, cmp_equal_self}

module _ {T : Types} where
  -- An application that the request would leave as it is.
  abbrev pub Has : ApplicationSpec T → List (Option (Application T)) → Type 0
  Has app apps =
      (i : ℕ) × (a : Application T) × (get_elem? apps i ≡ some (some a))
      × (cmp_equal a.spec app ≡ true)

module _ {T : Types} (libs : Libraries T) (rest : RestConfig) where
  find_first-ne-err :
      {S : Type 0} (name : String) (apps : List (Option (Application T))) (j : ℕ) (s : S)
      (e : Error)
      → (find_first name apps j s).0 ≢ err e
  unfolding find_first
  find_first-ne-err name [] j s e h = cc
  find_first-ne-err name (none ∷ rest) j s e h = cc
  find_first-ne-err name (some a ∷ rest) j s e h =
      ground (arith, find_first-ne-err name rest (suc j) s e)

  -- A search that finds no answer does not end the request with the sentinel.
  unfound_own :
      (app : ApplicationSpec T) (s : RepoState T)
      → let r = (find_first app.name s.repository.apps zero s).0 in
        ((e : Error) × (r ≡ err e)) ⊎ ((r ≡ panic) ⊎ (r ≡ blocked))
        → (add_or_update_application libs rest app s).0 ≢ err no_err_already_up_todate
  unfolding add_or_update_application
  unfound_own app s (inl (x, e)) h = find_first-ne-err app.name s.repository.apps zero s x e
  unfound_own app s (inr (inl e)) h = ground arith
  unfound_own app s (inr (inr e)) h = ground arith

module _ {T : Types} {libs : Libraries T} (own : IsOwn libs) (rest : RestConfig) where
  add_own :
      (app : ApplicationSpec T) (s : RepoState T)
      → (add_application libs rest app s).0 ≢ err no_err_already_up_todate
  unfolding add_application
  add_own app s h = ground (arith, new_application-Never own app rest s.world)

  update-Has :
      (i : ℕ) (b : Application T) (app : ApplicationSpec T) (s : RepoState T)
      → (update_application libs rest i b app s).0 ≡ err no_err_already_up_todate
      → (cmp_equal b.spec app ≡ true) × ((update_application libs rest i b app s).1 ≡ s)
  unfolding update_application replace_application
  update-Has i b app s h =
      let w = (libs.files.remove_all b.storage_path s.world).1 in
      elim (Bool-cases (cmp_equal b.spec app)) [
        | inl e ↦ (e, ground arith)
        | inr e ↦ absurd (
            ground
              (arith, new_application-Never own app rest w, own.remove_all b.storage_path s.world))
      ]

  place-Has :
      (app : ApplicationSpec T) (o : Option ℕ) (s : RepoState T)
      → (place libs rest app o s).0 ≡ err no_err_already_up_todate
      → Has app (place libs rest app o s).1.repository.apps
  unfolding place
  place-Has app none s h = absurd (add_own app s h)
  place-Has app (some i) s h = elim (Option-cases (get_elem? s.repository.apps i)) [
    | inl e ↦ ground arith
    | inr (none, e) ↦ ground arith
    | inr (some b, e) ↦
        let done : (update_application libs rest i b app s).0 ≡ err no_err_already_up_todate =
          ground arith in
        let (same, kept) = update-Has i b app s done in rw (e, kept) (i, b, e, same)
  ]

  -- A request that ends with no error, or with the sentinel, leaves the application as requested.
  pub add_or_update-Has :
      (app : ApplicationSpec T) (s : RepoState T)
      → let r = (add_or_update_application libs rest app s).0 in
        (r ≡ ok tt) ⊎ (r ≡ err no_err_already_up_todate)
        → Has app (add_or_update_application libs rest app s).1.repository.apps
  add_or_update-Has app s (inl done) =
      let (i, a, met, at, f, free) = add_or_update_application-Placed libs rest app s done in
      (i, a, at, cmp_equal_self libs rest a.spec app f.0)
  add_or_update-Has app s (inr done) =
      elim (Result-cases (find_first app.name s.repository.apps zero s).0) [
        | inl (o, e) ↦
            let same = add_or_update-place libs rest app o s e in
            rw same (place-Has app o s (subst (λ r. r.0 ≡ err no_err_already_up_todate) same done))
        | inr other ↦ absurd (unfound_own libs rest app s other done)
      ]
