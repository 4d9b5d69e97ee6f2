-- ===== src/Instance/Handler/Tick/Busy.antt =====
-- server/pkg/instance/handler.go, a tick of Handle: applications whose mutex is held when it starts.
use dummy_cd.Base.{ap, ◌≡◌, refl, subst, true, false, Option, none, some, List, [], ◌∷◌, map}
use dummy_cd.Go.{ok}
use dummy_cd.Libs.{Types}
use dummy_cd.Instance.{Libraries}
use dummy_cd.Instance.Application.{Application}
use dummy_cd.Instance.Repository.{RepositoryConfig}
use dummy_cd.Instance.Handler.{run_apps}
use dummy_cd.Instance.Handler.Tick.{
  Tick, starting, met, started, enters, starts, meets_busy, meets_busy_at_zero, negative_counter,
  finishes, Reach, here, next,
}
use dummy_cd.Instance.Handler.Tick.Orders.{at_rest, jobs_of, run_apps-runs, run_apps-cons}

module _ {T : Types} (libs : Libraries T) where
  -- Where a repository that is free has two applications, the first free and the second with its
  -- mutex held: the tick can free the handler's mutex while the goroutine of the first is still to
  -- run its life cycle.
  pub Reach-early :
      (r : RepositoryConfig T) (a b : Application T) (w : T.World)
      → r.held ≡ false
      → r.apps ≡ some a ∷ some b ∷ []
      → a.held ≡ false
      → b.held ≡ true
      → (t : Tick T) × Reach libs (started (r ∷ []) w) t
        × (t.finished ≡ true)
        × (t.crash ≡ none)
        × (t.jobs ≡ record { app = a; phase = starting } ∷ [])
        × (t.world ≡ w)
  Reach-early r a b w free e f g = (
    _,
    next
        (next
          (next (next here (enters _ r [] refl refl refl free)) (starts _ a (some b ∷ []) refl e f))
          (meets_busy _ b [] 0 refl refl g refl))
        (finishes _ refl refl refl refl refl),
    refl,
    refl,
    refl,
    refl,
  )

  -- A repository that is free, whose applications run one after another to the end, and there is one
  -- at least. Its tick can free the handler's mutex while each application's mutex is still held; and
  -- where the mutex of the first application is not freed before the next tick comes to it, that tick
  -- ends the process, since the counter falls below zero.
  pub late_unlock :
      (r : RepositoryConfig T) (a : Application T) (rest apps' : List (Option (Application T)))
      (w v : T.World)
      → r.held ≡ false
      → r.apps ≡ some a ∷ rest
      → (run_apps libs r.apps w).0 ≡ ok apps'
      → Reach libs
          (started (r ∷ []) w)
          (record (at_rest [] [] (jobs_of true apps') (run_apps libs r.apps w).1) {
            finished = true;
          })
        × ((u : Tick T) × Reach libs
              (started (record r { apps = map met (jobs_of true apps') } ∷ []) v)
              u
            × (u.crash ≡ some negative_counter))
  late_unlock r a rest apps' w v free e h =
      let (q, a', rest', f, g, k, same, l) =
        run_apps-cons libs a rest apps' w (subst (λ x. (run_apps libs x w).0 ≡ ok apps') e h) in
      let met_again : RepositoryConfig T = record r { apps = map met (jobs_of true apps') } in
      let held_now : Application T = record a' { held = true } in
      let first : met_again.apps ≡ some held_now ∷ map met (jobs_of true rest') =
        ap (λ x. map met (jobs_of true x)) same in
      (
        run_apps-runs libs true r apps' w free h,
        (
          _,
          next (next here (enters _ met_again [] refl refl refl free))
              (meets_busy_at_zero _ held_now (map met (jobs_of true rest')) refl first refl refl),
          refl,
        ),
      )
