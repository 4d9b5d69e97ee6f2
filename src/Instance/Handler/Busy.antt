-- ===== src/Instance/Handler/Busy.antt =====
-- server/pkg/instance/handler.go, Handle: an application whose mutex is held.
use dummy_cd.Base.{ℕ, zero, suc, ◌≡◌, ◌≢◌, true, false, Option, none, some, List, [], ◌∷◌, arith}
use dummy_cd.Go.{OnOk, ok}
use dummy_cd.Slice.{get_elem?}
use dummy_cd.Libs.{Types}
use dummy_cd.Instance.{Libraries}
use dummy_cd.Instance.Application.{Application}
use dummy_cd.Instance.Lifecycle.{run_life_cycle}
use dummy_cd.Instance.Repository.{RepositoryConfig, run_app}
use dummy_cd.Instance.Handler.{run_apps, run_repository}

module _ {T : Types} (libs : Libraries T) where
  run_apps-held :
      (apps : List (Option (Application T))) (i : ℕ) (a : Application T) (w : T.World)
      → get_elem? apps i ≡ some (some a)
      → a.held ≡ true
      → OnOk (λ _. ⊥) (run_apps libs apps w).0
  unfolding run_apps
  run_apps-held [] i a w at held = cc
  run_apps-held (none ∷ rest) i a w at held = tt
  run_apps-held (some b ∷ rest) zero a w at held = ground arith
  run_apps-held (some b ∷ rest) (suc i) a w at held =
      ground (arith, run_apps-held rest i a (run_app b (run_life_cycle libs) w).1 at held)

  -- A tick does not get through a repository that has an application whose mutex is held: the
  -- counter of the wait group falls below zero, or a run before it does not end well.
  pub run_repository-busy :
      (r : RepositoryConfig T) (i : ℕ) (a : Application T) (w : T.World)
      → r.held ≡ false
      → get_elem? r.apps i ≡ some (some a)
      → a.held ≡ true
      → (r' : RepositoryConfig T) → (run_repository libs r w).0 ≢ ok r'
  unfolding run_repository
  run_repository-busy r i a w free at held r' h = ground (arith, run_apps-held r.apps i a w at held)
