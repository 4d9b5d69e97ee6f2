-- ===== src/Instance/Lifecycle/Revision.antt =====
-- server/pkg/instance/application.go, RunLifeCycle: what becomes of CurrentRevision.
use dummy_cd.Base.{◌≡◌, ◌≢◌, inl, inr, ◌⊎◌, refl, false, arith}
use dummy_cd.Go.{git_already_up_to_date, Returned, value, failed, Result, ok, Hash, is_zero}
use dummy_cd.Libs.{Types}
use dummy_cd.Instance.{Libraries}
use dummy_cd.Instance.Application.{
  AppState, DeliveryProvider, helm_provider, raw_provider, provider_delivery, deliver,
}
use dummy_cd.Instance.Lifecycle.{
  get_application_head_revision, take_head, after_pull, reset_to, pull_updates, reconcile,
  update_repository, after_fetch, run_life_cycle,
}

module _ {T : Types} (libs : Libraries T) where
  -- A delivery changes neither what the application is nor its revision.
  provider_delivery-keeps :
      (p : DeliveryProvider T) (s : AppState T)
      → let t = (provider_delivery libs p s).1 in
        (t.app.spec ≡ s.app.spec) × (t.app.current_revision ≡ s.app.current_revision)
  unfolding provider_delivery
  provider_delivery-keeps (helm_provider p) s = (refl, refl)
  provider_delivery-keeps (raw_provider p) s = (refl, refl)

  pub deliver-keeps :
      (s : AppState T)
      → let t = (deliver libs s).1 in
        (t.app.spec ≡ s.app.spec) × (t.app.current_revision ≡ s.app.current_revision)
  unfolding deliver
  deliver-keeps s = provider_delivery-keeps s.app.delivery_provider s

  head-keeps : (s : AppState T) → (get_application_head_revision libs s).1.app ≡ s.app
  unfolding get_application_head_revision
  head-keeps s = ground arith

  -- A run that ends with `t` has kept the revision of `s`, or has moved on to one that is not zero.
  abbrev pub Moves : AppState T → AppState T → Type 0
  Moves s t =
      (t.app.spec ≡ s.app.spec)
      × ((t.app.current_revision ≡ s.app.current_revision)
          ⊎ (is_zero t.app.current_revision ≡ false))

  take_head-Moves : (s : AppState T) → Moves s (take_head libs s).1
  unfolding take_head
  take_head-Moves s = grind (arith, head-keeps, deliver-keeps)

  take_head-nonzero :
      (s : AppState T)
      → (take_head libs s).0 ≡ ok tt
      → is_zero (take_head libs s).1.app.current_revision ≡ false
  unfolding take_head
  take_head-nonzero s h = grind (arith, head-keeps, deliver-keeps)

  -- The outcome of one part of the run that starts at `s`.
  abbrev Settles : AppState T → Result (Unit {0}) × AppState T → Type 0
  Settles s (r, t) =
      (t.app.spec ≡ s.app.spec)
      × ((t.app.current_revision ≡ s.app.current_revision)
          ⊎ (is_zero t.app.current_revision ≡ false))
      × (r ≡ ok tt → is_zero t.app.current_revision ≡ false)

  take_head-Settles : (s : AppState T) → Settles s (take_head libs s)
  take_head-Settles s = ((take_head-Moves s).0, (take_head-Moves s).1, take_head-nonzero s)

  after_pull-Settles : (r : Returned (Unit {0})) (s : AppState T) → Settles s (after_pull libs r s)
  unfolding after_pull
  after_pull-Settles (value u) s = take_head-Settles s
  after_pull-Settles (failed git_already_up_to_date) s = ground (arith, take_head-Settles s)
  after_pull-Settles (failed e) s = ground arith

  reset_to-Settles : (w : T.Worktree) (h : Hash) (s : AppState T) → Settles s (reset_to libs w h s)
  unfolding reset_to
  reset_to-Settles w h s = grind (arith, take_head-Settles)

  pull_updates-Settles : (w : T.Worktree) (s : AppState T) → Settles s (pull_updates libs w s)
  unfolding pull_updates
  pull_updates-Settles w s = grind (arith, after_pull-Settles)

  reconcile-Settles :
      (w : T.Worktree) (l r : Hash) (s : AppState T) → Settles s (reconcile libs w l r s)
  unfolding reconcile
  reconcile-Settles w l r s = ground (arith, pull_updates-Settles w s, reset_to-Settles w r s)

  update_repository-Settles : (s : AppState T) → Settles s (update_repository libs s)
  unfolding update_repository
  update_repository-Settles s = grind (arith, reconcile-Settles)

  after_fetch-Settles :
      (r : Returned (Unit {0})) (s : AppState T) → Settles s (after_fetch libs r s)
  unfolding after_fetch
  after_fetch-Settles (value u) s = update_repository-Settles s
  after_fetch-Settles (failed git_already_up_to_date) s =
      ground (arith, update_repository-Settles s, deliver-keeps s)
  after_fetch-Settles (failed e) s = ground arith

  run-Settles : (s : AppState T) → Settles s (run_life_cycle libs s)
  unfolding run_life_cycle
  run-Settles s = grind (arith, after_fetch-Settles)

  -- A run of the life cycle leaves the application's settings alone. It keeps the revision or moves
  -- it to one that is not zero, whether it succeeds or fails.
  pub run_life_cycle-Moves : (s : AppState T) → Moves s (run_life_cycle libs s).1
  run_life_cycle-Moves s = let r = run-Settles s in (r.0, r.1)

  -- After a run of the life cycle that succeeds the revision is not zero.
  pub run_life_cycle-nonzero :
      (s : AppState T)
      → (run_life_cycle libs s).0 ≡ ok tt
      → is_zero (run_life_cycle libs s).1.app.current_revision ≡ false
  run_life_cycle-nonzero s = (run-Settles s).2

  fetched-deliver :
      (s : AppState T)
      → is_zero s.app.current_revision ≡ false
      → (libs.git.fetch s.app.repo s.app.fetch_options s.world).0 ≡ failed git_already_up_to_date
      → run_life_cycle libs s
        ≡ deliver libs
            (record s { world = (libs.git.fetch s.app.repo s.app.fetch_options s.world).1 })
  unfolding run_life_cycle after_fetch
  fetched-deliver s nonzero nothing = ground arith

  -- Where a run has moved the revision, also if its delivery failed, a next run that finds nothing to
  -- fetch is a delivery of that revision, and ends as the delivery does.
  pub run_life_cycle-retries :
      (s : AppState T)
      → let t = (run_life_cycle libs s).1 in
        t.app.current_revision ≢ s.app.current_revision
        → (libs.git.fetch t.app.repo t.app.fetch_options t.world).0 ≡ failed git_already_up_to_date
        → run_life_cycle libs t
          ≡ deliver libs
              (record t { world = (libs.git.fetch t.app.repo t.app.fetch_options t.world).1 })
  run_life_cycle-retries s moved nothing =
      fetched-deliver (run_life_cycle libs s).1
        (elim (run_life_cycle-Moves s).1 [ inl same ↦ absurd (moved same) | inr nonzero ↦ nonzero ])
        nothing
