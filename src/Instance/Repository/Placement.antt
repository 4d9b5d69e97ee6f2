-- ===== src/Instance/Repository/Placement.antt =====
-- server/pkg/instance/repository.go, AddOrUpdateApplication: what a request that succeeds leaves.
use dummy_cd.Base.{
  ℕ, zero, suc, ◌+◌, String, ◌≡◌, refl, sym, ap, subst, true, false, Option, none, some, List, [],
  ◌∷◌, ◌++◌, arith, ◌==◌, eq_refl, Bool-cases, Option-cases, inl, inr,
}
use dummy_cd.Go.{no_err_already_up_todate, OnOk, Result-cases, ok, err, zero_hash}
use dummy_cd.Util.{pointer}
use dummy_cd.Slice.{get_elem?, set}
use dummy_cd.Slice.Writes.{set-set, get_elem?-set}
use dummy_cd.Libs.{Types}
use dummy_cd.Libs.Charts.{RestConfig}
use dummy_cd.Instance.{Libraries}
use dummy_cd.Instance.Application.{Application, ApplicationSpec, new_application}
use dummy_cd.Instance.Repository.{
  RepoState, find_first, cmp_equal, add_application, replace_application, update_application, place,
  add_or_update_application,
}
use dummy_cd.Instance.Repository.Keeps.{add_or_update-place}

module _ {T : Types} {S : Type 0} (name : String) (a : Application T) (named : a.name ≡ name)
    (s t : S) where
  -- An application that is appended to those without its name is found at the end.
  find_first-append :
      (apps : List (Option (Application T))) (j : ℕ)
      → (find_first name apps j s).0 ≡ ok none
      → (i : ℕ) × ((find_first name (apps ++ some a ∷ []) j t).0 ≡ ok (some (j + i)))
        × (get_elem? (apps ++ some a ∷ []) i ≡ some (some a))
  unfolding find_first
  find_first-append [] j h = (0, rw (named, eq_refl name) ground arith, refl)
  find_first-append (none ∷ rest) j h = cc
  find_first-append (some b ∷ rest) j h = elim (Bool-cases (b.name == name)) [
    | inl e ↦ ground arith
    | inr e ↦
        let (i, met, at) = find_first-append rest (suc j) (ground arith) in
        (suc i, ground arith, at)
  ]

  -- An application in the place where its name was found is found there.
  find_first-set :
      (apps : List (Option (Application T))) (j k : ℕ)
      → (find_first name apps j s).0 ≡ ok (some k)
      → (i : ℕ) × (k ≡ j + i)
        × ((find_first name (set apps i (some a)) j t).0 ≡ ok (some k))
        × (get_elem? (set apps i (some a)) i ≡ some (some a))
  unfolding find_first
  find_first-set [] j k h = cc
  find_first-set (none ∷ rest) j k h = cc
  find_first-set (some b ∷ rest) j k h = elim (Bool-cases (b.name == name)) [
    | inl e ↦ (0, ground arith, rw (named, eq_refl name) ground arith, refl)
    | inr e ↦
        let (i, k_at, met, at) = find_first-set rest (suc j) k (ground arith) in
        (suc i, omega arith, ground arith, at)
  ]

module _ {T : Types} (libs : Libraries T) (rest : RestConfig) where
  -- What is made is of the request, has no revision, and has its mutex free.
  abbrev pub Fresh : ApplicationSpec T → Application T → Type 0
  Fresh app a = (a.spec ≡ app) × (a.current_revision ≡ zero_hash) × (a.held ≡ false)

  new_application-Fresh :
      (app : ApplicationSpec T) (w : T.World) → OnOk (Fresh app) (new_application libs app rest w).0
  unfolding new_application
  new_application-Fresh app w = ground arith

  pub Fresh-made :
      (app : ApplicationSpec T) (w : T.World) {a : Application T}
      → (new_application libs app rest w).0 ≡ ok a
      → Fresh app a
  Fresh-made app w e = subst (OnOk (Fresh app)) e (new_application-Fresh app w)

  -- The list of applications that a request leaves.
  abbrev Leaves :
      ApplicationSpec T → (Application T → List (Option (Application T))) → RepoState T → Type 0
  Leaves app apps t =
      (a : Application T) × Fresh app a × (t.repository.apps ≡ apps a) × (t.repository.held ≡ false)

  add-Leaves :
      (app : ApplicationSpec T) (s : RepoState T)
      → (add_application libs rest app s).0 ≡ ok tt
      → Leaves app (λ a. s.repository.apps ++ some a ∷ []) (add_application libs rest app s).1
  unfolding add_application
  add-Leaves app s h = elim (Result-cases (new_application libs app rest s.world).0) [
    | inl (a, e) ↦ (a, Fresh-made app s.world e, ground arith, ground arith)
    | inr (inl (x, e)) ↦ ground arith
    | inr (inr (inl e)) ↦ ground arith
    | inr (inr (inr e)) ↦ ground arith
  ]

  update-Leaves :
      (i : ℕ) (b : Application T) (app : ApplicationSpec T) (s : RepoState T)
      → get_elem? s.repository.apps i ≡ some (some b)
      → (update_application libs rest i b app s).0 ≡ ok tt
      → Leaves app
          (λ a. set s.repository.apps i (some a))
          (update_application libs rest i b app s).1
  unfolding update_application replace_application pointer
  update-Leaves i b app s at h =
      let w = (libs.files.remove_all b.storage_path s.world).1 in
      let apps = s.repository.apps in
      let locked : Option (Application T) = some (record b { held = true }) in
      elim (Result-cases (new_application libs app rest w).0) [
        | inl (a, e) ↦
            let left : Option (Application T) = some (record a { held = false }) in
            let f = Fresh-made app w e in
            (
              record a { held = false },
              (f.0, f.1, refl),
              ground (
                arith,
                set-set apps i locked (some a),
                set-set apps i (some a) left,
                get_elem?-set apps i (some a) at,
              ),
              ground arith,
            )
        | inr (inl (x, e)) ↦ ground arith
        | inr (inr (inl e)) ↦ ground arith
        | inr (inr (inr e)) ↦ ground arith
      ]

  -- The repository has the application in the first place of its name, with no revision yet and its
  -- mutex free, and the repository's own mutex is free.
  abbrev pub Placed : ApplicationSpec T → RepoState T → Type 0
  Placed app t =
      (i : ℕ) × (a : Application T) × ((find_first app.name t.repository.apps zero t).0
        ≡ ok (some i))
      × (get_elem? t.repository.apps i ≡ some (some a))
      × Fresh app a
      × (t.repository.held ≡ false)

  -- A search for the name ends at index `i`, and the application is there.
  abbrev At :
      ApplicationSpec T → Application T → RepoState T → ℕ → List (Option (Application T)) → Type 0
  At app a t i apps =
      ((find_first app.name apps zero t).0 ≡ ok (some i)) × (get_elem? apps i ≡ some (some a))

  append-Placed :
      (app : ApplicationSpec T) (a : Application T) (s t : RepoState T)
      → Fresh app a
      → t.repository.apps ≡ s.repository.apps ++ some a ∷ []
      → t.repository.held ≡ false
      → (find_first app.name s.repository.apps zero s).0 ≡ ok none
      → Placed app t
  append-Placed app a s t f left free new =
      let named : a.name ≡ app.name = ap (λ (x : ApplicationSpec T). x.name) f.0 in
      let (i, met, at) = find_first-append app.name a named s t s.repository.apps 0 new in
      let found : At app a t i (s.repository.apps ++ some a ∷ []) = (ground (arith, met), at) in
      let there = subst (At app a t i) (sym left) found in (i, a, there.0, there.1, f, free)

  set-Placed :
      (app : ApplicationSpec T) (a : Application T) (i : ℕ) (s t : RepoState T)
      → Fresh app a
      → t.repository.apps ≡ set s.repository.apps i (some a)
      → t.repository.held ≡ false
      → (find_first app.name s.repository.apps zero s).0 ≡ ok (some i)
      → Placed app t
  set-Placed app a i s t f left free found =
      let named : a.name ≡ app.name = ap (λ (x : ApplicationSpec T). x.name) f.0 in
      let (k, same, met, at) = find_first-set app.name a named s t s.repository.apps 0 i found in
      let there : k ≡ i = omega arith in
      let before : At app a t i (set s.repository.apps i (some a)) =
        subst
          (λ n.
            ((find_first app.name (set s.repository.apps n (some a)) zero t).0 ≡ ok (some i))
            × (get_elem? (set s.repository.apps n (some a)) n ≡ some (some a)))
          there (met, at) in
      let after = subst (At app a t i) (sym left) before in (i, a, after.0, after.1, f, free)

  place-Placed :
      (app : ApplicationSpec T) (o : Option ℕ) (s : RepoState T)
      → (find_first app.name s.repository.apps zero s).0 ≡ ok o
      → (place libs rest app o s).0 ≡ ok tt
      → Placed app (place libs rest app o s).1
  unfolding place
  place-Placed app none s found h =
      let t = (add_application libs rest app s).1 in
      let (a, f, left, free) = add-Leaves app s h in append-Placed app a s t f left free found
  place-Placed app (some i) s found h = elim (Option-cases (get_elem? s.repository.apps i)) [
    | inl e ↦ ground arith
    | inr (none, e) ↦ ground arith
    | inr (some b, e) ↦
        let t = (update_application libs rest i b app s).1 in
        let done : (update_application libs rest i b app s).0 ≡ ok tt = ground arith in
        let (a, f, left, free) = update-Leaves i b app s e done in
        rw e (set-Placed app a i s t f left free found)
  ]

  search_ends :
      (app : ApplicationSpec T) (s : RepoState T)
      → (add_or_update_application libs rest app s).0 ≡ ok tt
      → (o : Option ℕ) × ((find_first app.name s.repository.apps zero s).0 ≡ ok o)
  unfolding add_or_update_application
  search_ends app s h = elim (Result-cases (find_first app.name s.repository.apps zero s).0) [
    | inl found ↦ found
    | inr (inl (x, e)) ↦ ground arith
    | inr (inr (inl e)) ↦ ground arith
    | inr (inr (inr e)) ↦ ground arith
  ]

  -- A request that succeeds leaves the repository with the application as it was requested, found
  -- first under its name, with no revision yet; and both mutexes are free.
  pub add_or_update_application-Placed :
      (app : ApplicationSpec T) (s : RepoState T)
      → (add_or_update_application libs rest app s).0 ≡ ok tt
      → Placed app (add_or_update_application libs rest app s).1
  add_or_update_application-Placed app s h =
      let (o, e) = search_ends app s h in
      let same = add_or_update-place libs rest app o s e in
      rw same (place-Placed app o s e (subst (λ r. r.0 ≡ ok tt) same h))

  pub cmp_equal_self : (a app : ApplicationSpec T) → a ≡ app → cmp_equal a app ≡ true
  unfolding cmp_equal
  cmp_equal_self a app e =
      rw
        (
          e,
          eq_refl app.name,
          eq_refl app.namespace,
          eq_refl app.url,
          eq_refl app.reference,
          eq_refl app.sparse_path,
        )
        refl

  Placed-up_to_date :
      (app : ApplicationSpec T) (t : RepoState T)
      → Placed app t
      → add_or_update_application libs rest app t ≡ (err no_err_already_up_todate, t)
  unfolding place update_application
  Placed-up_to_date app t (i, a, met, at, f, free) =
      rw (add_or_update-place libs rest app (some i) t met) ground
        (arith, cmp_equal_self a.spec app f.0)

  -- The same request again finds the application up to date and changes nothing.
  pub add_or_update_application-idempotent :
      (app : ApplicationSpec T) (s : RepoState T)
      → (add_or_update_application libs rest app s).0 ≡ ok tt
      → let t = (add_or_update_application libs rest app s).1 in
        add_or_update_application libs rest app t ≡ (err no_err_already_up_todate, t)
  add_or_update_application-idempotent app s h =
      Placed-up_to_date app (add_or_update_application libs rest app s).1
        (add_or_update_application-Placed app s h)
