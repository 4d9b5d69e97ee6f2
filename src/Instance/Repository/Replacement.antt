-- ===== src/Instance/Repository/Replacement.antt =====
-- server/pkg/instance/repository.go, AddOrUpdateApplication where an application has the name: what
-- a failed replacement leaves behind.
use dummy_cd.Base.{
  ℕ, zero, suc, ◌+◌, String, ◌≡◌, refl, subst, true, false, Option, none, some, List, [], ◌∷◌,
  arith, ◌==◌, Bool-cases, inl, inr,
}
use dummy_cd.Go.{Error, ok, err, panic, value}
use dummy_cd.Util.{pointer}
use dummy_cd.Slice.{get_elem?, set}
use dummy_cd.Slice.Writes.{set-set, get_elem?-set}
use dummy_cd.Libs.{Types}
use dummy_cd.Libs.Charts.{RestConfig}
use dummy_cd.Instance.{Libraries}
use dummy_cd.Instance.Application.{Application, ApplicationSpec, new_application}
use dummy_cd.Instance.Repository.{
  RepoState, find_first, cmp_equal, replace_application, update_application, place,
  add_or_update_application,
}
use dummy_cd.Instance.Repository.Keeps.{add_or_update-place}

module _ {T : Types} {S : Type 0} (name : String) (s t : S) where
  -- A nil pointer at the place where the name was found is met by the same search.
  find_first-nil :
      (apps : List (Option (Application T))) (j k : ℕ)
      → (find_first name apps j s).0 ≡ ok (some k)
      → (i : ℕ) × (k ≡ j + i) × ((find_first name (set apps i none) j t).0 ≡ panic)
  unfolding find_first
  find_first-nil [] j k h = cc
  find_first-nil (none ∷ rest) j k h = cc
  find_first-nil (some a ∷ rest) j k h = elim (Bool-cases (a.name == name)) [
    | inl e ↦ (0, ground arith, refl)
    | inr e ↦
        let (i, at, met) = find_first-nil rest (suc j) k (ground arith) in
        (suc i, omega arith, ground arith)
  ]

  find_first-nil_start :
      (apps : List (Option (Application T))) (k : ℕ)
      → (find_first name apps zero s).0 ≡ ok (some k)
      → (find_first name (set apps k none) zero t).0 ≡ panic
  find_first-nil_start apps k h =
      let (i, at, met) = find_first-nil apps zero k h in
      let same : i ≡ k = omega arith in
      subst (λ n. (find_first name (set apps n none) zero t).0 ≡ panic) same met

module _ {T : Types} (libs : Libraries T) (rest : RestConfig) where
  update-fails :
      (i : ℕ) (a : Application T) (app : ApplicationSpec T) (s : RepoState T) (e : Error)
      → get_elem? s.repository.apps i ≡ some (some a)
      → cmp_equal a.spec app ≡ false
      → s.repository.held ≡ false
      → a.held ≡ false
      → (libs.files.remove_all a.storage_path s.world).0 ≡ value tt
      → (new_application libs app rest (libs.files.remove_all a.storage_path s.world).1).0 ≡ err e
      → let (r, t) = update_application libs rest i a app s in
        (r ≡ err e)
        × (t.repository.apps ≡ set s.repository.apps i none)
        × (t.repository.held ≡ false)
  unfolding update_application replace_application pointer
  update-fails i a app s e at differ free free' removed made =
      let apps = s.repository.apps in
      let held : Option (Application T) = some (record a { held = true }) in
      ground
        (arith, set-set apps i held none, set-set apps i none none, get_elem?-set apps i none at)

  place-fails :
      (i : ℕ) (a : Application T) (app : ApplicationSpec T) (s : RepoState T) (e : Error)
      → get_elem? s.repository.apps i ≡ some (some a)
      → cmp_equal a.spec app ≡ false
      → s.repository.held ≡ false
      → a.held ≡ false
      → (libs.files.remove_all a.storage_path s.world).0 ≡ value tt
      → (new_application libs app rest (libs.files.remove_all a.storage_path s.world).1).0 ≡ err e
      → let (r, t) = place libs rest app (some i) s in
        (r ≡ err e) × (t.repository.apps ≡ set s.repository.apps i none)
  unfolding place
  place-fails i a app s e at differ free free' removed made =
      ground (arith, update-fails i a app s e at differ free free' removed made)

  -- Where the search meets a nil pointer, the request ends in a panic.
  add_or_update-panics :
      (app : ApplicationSpec T) (s : RepoState T)
      → (find_first app.name s.repository.apps zero s).0 ≡ panic
      → (add_or_update_application libs rest app s).0 ≡ panic
  unfolding add_or_update_application
  add_or_update-panics app s h = ground arith

  -- An application that differs from the request is found, its files are removed, and NewApplication
  -- fails. Then the request fails with that error, and the application's place holds a nil pointer:
  -- the next request for the same name, whatever it asks for, ends in a panic.
  pub add_or_update_application-leaves_nil :
      (i : ℕ) (a : Application T) (app next : ApplicationSpec T) (s : RepoState T) (e : Error)
      → (find_first app.name s.repository.apps zero s).0 ≡ ok (some i)
      → get_elem? s.repository.apps i ≡ some (some a)
      → cmp_equal a.spec app ≡ false
      → s.repository.held ≡ false
      → a.held ≡ false
      → (libs.files.remove_all a.storage_path s.world).0 ≡ value tt
      → (new_application libs app rest (libs.files.remove_all a.storage_path s.world).1).0 ≡ err e
      → next.name ≡ app.name
      → let (r, t) = add_or_update_application libs rest app s in
        (r ≡ err e)
        × (get_elem? t.repository.apps i ≡ some none)
        × ((add_or_update_application libs rest next t).0 ≡ panic)
  add_or_update_application-leaves_nil i a app next s e found at differ free free' removed made
        same =
      let t = (place libs rest app (some i) s).1 in
      let (failed, left) = place-fails i a app s e at differ free free' removed made in
      let met = find_first-nil_start app.name s t s.repository.apps i found in
      rw (add_or_update-place libs rest app (some i) s found) (
        failed,
        rw left (get_elem?-set s.repository.apps i none at),
        add_or_update-panics next t (rw (same, left) met),
      )
