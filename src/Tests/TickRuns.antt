-- ===== src/Tests/TickRuns.antt =====
-- Runs of a tick with its goroutines, in the small world.
use mathlib.Core.WellFounded.{Acc}
use dummy_cd.Base.{◌≡◌, ◌≢◌, refl, ◌⊎◌, true, false, none, some, [], ◌∷◌}
use dummy_cd.Instance.Application.{Application, deliver, provider_delivery}
use dummy_cd.Instance.Lifecycle.{
  run_life_cycle, after_fetch, after_pull, get_application_head_revision, pull_updates, reconcile,
  take_head, update_repository,
}
use dummy_cd.Instance.Repository.{RepositoryConfig}
use dummy_cd.Instance.Handler.{run_apps, run_repository, run_repositories}
use dummy_cd.Instance.Handler.Tick.{
  Job, Tick, starting, signalled, negative_counter, IsOver, started, Step, enters, starts, Reach,
  here, next,
}
use dummy_cd.Instance.Handler.Tick.Counting.{counted, Reach-counted}
use dummy_cd.Instance.Handler.Tick.Busy.{Reach-early, late_unlock}
use dummy_cd.Instance.Handler.Tick.Progress.{IsWaiting, Reach-ends}
use dummy_cd.Instance.Handler.Tick.Orders.{left_at, run_repositories-runs}
use dummy_cd.Helm.Actions.{delivery}
use dummy_cd.Tests.Toy.{toy, toy_libs}
use dummy_cd.Tests.InstanceRuns.{web, fresh, one_app}

abbrev web_job : Job toy
web_job = record { app = web; phase = starting }

-- The loop has started the goroutine of the application.
abbrev web_started : Tick toy
web_started = record {
  repos = [];
  waiting = [];
  jobs = web_job ∷ [];
  counter = 1;
  finished = false;
  crash = none;
  world = [];
}

web_starts : Reach toy_libs (started (one_app ∷ []) []) web_started
web_starts =
    next (next here (enters _ one_app [] refl refl refl refl)) (starts _ web [] refl refl refl)

Reach-counted_example :
    (1 ≡ counted (web_job ∷ []))
    × (web_started.crash ≢ some negative_counter)
    × ((web_started.finished ≡ false) ⊎ (counted (web_job ∷ []) ≡ 0))
Reach-counted_example = Reach-counted (one_app ∷ []) [] refl web_starts

Reach-ends_example :
    Acc (λ u t. Step toy_libs t u) web_started
    × (((u : Tick toy) × Step toy_libs web_started u)
        ⊎ (IsOver web_started ⊎ ((web_started.crash ≢ none) ⊎ IsWaiting toy_libs web_started)))
Reach-ends_example = Reach-ends toy_libs (one_app ∷ []) [] web_starts

-- The application as its run has left it.
abbrev web_after : Application toy
web_after = (run_life_cycle toy_libs fresh).1.app

abbrev after_run : RepositoryConfig toy
after_run = record one_app { apps = some web_after ∷ [] }

-- The tick is over, with the world that the run has left.
abbrev web_over : Tick toy
web_over = record {
  repos = [];
  waiting = [];
  jobs = record { app = web_after; phase = left_at false } ∷ [];
  counter = 0;
  finished = true;
  crash = none;
  world = (run_repositories toy_libs (one_app ∷ []) []).1;
}

run_repositories-runs_example : Reach toy_libs (started (one_app ∷ []) []) web_over
unfolding run_repositories run_repository run_apps run_life_cycle after_fetch update_repository
    reconcile pull_updates after_pull take_head get_application_head_revision deliver
    provider_delivery delivery
run_repositories-runs_example =
    run_repositories-runs toy_libs false (one_app ∷ []) (after_run ∷ []) [] refl

-- The second application has its mutex held.
abbrev busy_app : RepositoryConfig toy
busy_app = record one_app { apps = some web ∷ some (record web { held = true }) ∷ [] }

Reach-early_example :
    (t : Tick toy) × Reach toy_libs (started (busy_app ∷ []) []) t
    × (t.finished ≡ true)
    × (t.crash ≡ none)
    × (t.jobs ≡ web_job ∷ [])
    × (t.world ≡ [])
Reach-early_example =
    Reach-early toy_libs busy_app web (record web { held = true }) [] refl refl refl refl

-- The next tick over the applications of one that has not freed their mutexes.
abbrev relocked : RepositoryConfig toy
relocked = record one_app { apps = some (record web_after { held = true }) ∷ [] }

late_unlock_example :
    Reach toy_libs (started (one_app ∷ []) []) (record web_over {
      jobs = record { app = web_after; phase = signalled } ∷ [];
      world = (run_apps toy_libs (some web ∷ []) []).1;
    })
    × ((u : Tick toy) × Reach toy_libs (started (relocked ∷ []) []) u
        × (u.crash ≡ some negative_counter))
unfolding run_apps run_life_cycle after_fetch update_repository reconcile pull_updates after_pull
    take_head get_application_head_revision deliver provider_delivery delivery
late_unlock_example = late_unlock toy_libs one_app web [] (some web_after ∷ []) [] [] refl refl refl
