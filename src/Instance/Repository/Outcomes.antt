-- ===== src/Instance/Repository/Outcomes.antt =====
-- server/pkg/instance/repository.go, AddOrUpdateApplication and DeleteApplication: the list of
-- applications that they leave, however they end.
use dummy_cd.Base.{
  ℕ, ◌≡◌, refl, ◌⊎◌, true, false, Option, none, some, List, [], ◌∷◌, ◌++◌, arith, Bool-cases, inl,
  inr,
}
use dummy_cd.Go.{Result-cases, Returned-cases}
use dummy_cd.Util.{pointer}
use dummy_cd.Slice.{get_elem?, set, swap_remove}
use dummy_cd.Slice.Writes.{set-set, get_elem?-set}
use dummy_cd.Libs.{Types}
use dummy_cd.Libs.Charts.{RestConfig}
use dummy_cd.Instance.{Libraries}
use dummy_cd.Instance.Application.{Application, ApplicationSpec, new_application}
use dummy_cd.Instance.Repository.{
  RepoState, cmp_equal, add_application, replace_application, update_application,
  remove_application,
}
use dummy_cd.Instance.Repository.Placement.{Fresh-made}

module _ {T : Types} (libs : Libraries T) (rest : RestConfig) where
  -- What stands in a place that held `b`: nothing, or an application of the settings of `b` or of
  -- the request.
  abbrev pub Fits : ApplicationSpec T → Application T → Option (Application T) → Type 0
  Fits app b none = Unit
  Fits app b (some a) = (a.spec ≡ b.spec) ⊎ (a.spec ≡ app)

  abbrev pub Sets :
      ApplicationSpec T
      → Application T
      → ℕ
      → List (Option (Application T))
      → List (Option (Application T))
      → Type 0
  Sets app b i apps apps' =
      (apps' ≡ apps) ⊎ ((o : Option (Application T)) × Fits app b o × (apps' ≡ set apps i o))

  -- The mutexes are free, and the files of the old application are to be removed.
  removed-Sets :
      (i : ℕ) (b : Application T) (app : ApplicationSpec T) (s : RepoState T)
      → get_elem? s.repository.apps i ≡ some (some b)
      → cmp_equal b.spec app ≡ false
      → s.repository.held ≡ false
      → b.held ≡ false
      → Sets app b i s.repository.apps (update_application libs rest i b app s).1.repository.apps
  unfolding update_application replace_application pointer
  removed-Sets i b app s at differ free free' =
      let apps = s.repository.apps in
      let locked : Option (Application T) = some (record b { held = true }) in
      let released : Option (Application T) = some (record b { held = false }) in
      let w = (libs.files.remove_all b.storage_path s.world).1 in
      elim (Returned-cases (libs.files.remove_all b.storage_path s.world).0) [
        | inr (x, e) ↦ inr (
          released,
          inl refl,
          ground (arith, set-set apps i locked released, get_elem?-set apps i locked at),
        )
        | inl (u, e) ↦ elim (Result-cases (new_application libs app rest w).0) [
          | inl (a, made) ↦
              let kept : Option (Application T) = some (record a { held = false }) in
              inr (
                kept,
                inr (Fresh-made libs rest app w made).0,
                ground (
                  arith,
                  set-set apps i locked (some a),
                  set-set apps i (some a) kept,
                  get_elem?-set apps i (some a) at,
                ),
              )
          | inr (inl (x, made)) ↦ inr (
            none,
            tt,
            ground (
              arith,
              set-set apps i locked none,
              set-set apps i none none,
              get_elem?-set apps i none at,
            ),
          )
          | inr (inr (inl made)) ↦ inr (
            released,
            inl refl,
            ground (arith, set-set apps i locked released, get_elem?-set apps i locked at),
          )
          | inr (inr (inr made)) ↦ inr (
            locked,
            inl refl,
            ground (arith, set-set apps i locked released, get_elem?-set apps i locked at),
          )
        ]
      ]

  pub update-Sets :
      (i : ℕ) (b : Application T) (app : ApplicationSpec T) (s : RepoState T)
      → get_elem? s.repository.apps i ≡ some (some b)
      → Sets app b i s.repository.apps (update_application libs rest i b app s).1.repository.apps
  unfolding update_application
  update-Sets i b app s at = elim (Bool-cases (cmp_equal b.spec app)) [
    | inl e ↦ inl (ground arith)
    | inr differ ↦ elim (Bool-cases s.repository.held) [
      | inl e ↦ inl (ground arith)
      | inr free ↦ elim (Bool-cases b.held) [
        | inl e ↦ inl (ground arith)
        | inr free' ↦ removed-Sets i b app s at differ free free'
      ]
    ]
  ]

  abbrev pub Appends :
      ApplicationSpec T → List (Option (Application T)) → List (Option (Application T)) → Type 0
  Appends app apps apps' =
      (apps' ≡ apps) ⊎ ((a : Application T) × (a.spec ≡ app) × (apps' ≡ apps ++ some a ∷ []))

  pub add-Appends :
      (app : ApplicationSpec T) (s : RepoState T)
      → Appends app s.repository.apps (add_application libs rest app s).1.repository.apps
  unfolding add_application
  add-Appends app s = elim (Result-cases (new_application libs app rest s.world).0) [
    | inl (a, e) ↦ elim (Bool-cases s.repository.held) [
      | inl held ↦ inl (ground arith)
      | inr free ↦ inr (a, (Fresh-made libs rest app s.world e).0, ground arith)
    ]
    | inr (inl (x, e)) ↦ inl (ground arith)
    | inr (inr (inl e)) ↦ inl (ground arith)
    | inr (inr (inr e)) ↦ inl (ground arith)
  ]

  -- What DeleteApplication leaves of a list.
  abbrev pub Removes :
      Application T → ℕ → List (Option (Application T)) → List (Option (Application T)) → Type 0
  Removes a i apps apps' =
      (apps' ≡ apps)
      ⊎ ((apps' ≡ set apps i (some (record a { held = true })))
          ⊎ (apps' ≡ swap_remove (set apps i (some (record a { held = true }))) i))

  pub remove-Removes :
      (i : ℕ) (a : Application T) (s : RepoState T)
      → Removes a i s.repository.apps (remove_application libs rest i a s).1.repository.apps
  unfolding remove_application
  remove-Removes i a s = ground arith
