-- ===== src/Tests/PoolRuns.antt =====
-- Runs of a cleanup with its goroutines.
use mathlib.Core.WellFounded.{Acc}
use dummy_cd.Raw.Cleanup.Pool.Progress.{Step-progress}
use dummy_cd.Base.{◌⊎◌}
use dummy_cd.Base.{◌≤◌, ◌≡◌, refl, true, false, List, [], ◌∷◌, All, arith}
use dummy_cd.Libs.Cluster.{ApiGroup, Requirement}
use dummy_cd.Raw.Cleanup.{app_requirement, clean_groups}
use dummy_cd.Raw.Cleanup.Pool.{
  Pool, in_channel, to_list, Step, next_version, starts, Reach, here, next, started, IsOver,
}
use dummy_cd.Raw.Cleanup.Pool.Bounds.{Reach-bounded}
use dummy_cd.Raw.Cleanup.Pool.Progress.{Step-terminates}
use dummy_cd.Raw.Cleanup.Pool.Sequential.{clean_groups-runs}
use dummy_cd.Raw.Cleanup.Pool.Early.{early_return, IsUnlisted}
use dummy_cd.Tests.Toy.{toy, toy_kube}

abbrev selector : List Requirement
selector = app_requirement "web" ∷ []

abbrev apps_group : ApiGroup
apps_group = record { name = "apps"; versions = ("apps/v1", "v1") ∷ [] }

abbrev head_of_loops : Pool toy
head_of_loops = started (apps_group ∷ []) []

abbrev one_running : Pool toy
one_running = record {
  versions = [];
  waiting = [];
  round = 1;
  returned = false;
  jobs =
      record {
        channel = 1;
        kind = record { group = "apps"; version = "v1"; resource = "deployments" };
        todo = to_list;
      }
      ∷ [];
  world = [];
}

one_comes_to_run : Reach toy_kube "web" selector head_of_loops one_running
unfolding in_channel
one_comes_to_run =
    next (next here (next_version head_of_loops _ [] refl refl refl))
      (starts _ _ [] refl (omega arith))

Reach-bounded_example : in_channel 1 (one_running.jobs) ≤ 10
Reach-bounded_example = Reach-bounded (apps_group ∷ []) [] one_comes_to_run 1

Step-terminates_example : Acc (λ q p. Step toy_kube "web" selector p q) head_of_loops
Step-terminates_example = Step-terminates toy_kube "web" selector head_of_loops

clean_groups-runs_example :
    (p : Pool toy) × Reach toy_kube "web" selector head_of_loops p
    × IsOver p
    × (p.world ≡ (clean_groups toy_kube "web" selector (apps_group ∷ []) []).1)
clean_groups-runs_example = clean_groups-runs toy_kube "web" selector (apps_group ∷ []) []

early_return_example :
    (p : Pool toy) × Reach toy_kube "web" selector head_of_loops p
    × (p.returned ≡ true)
    × (in_channel 1 p.jobs ≡ 1)
    × All IsUnlisted p.jobs
    × (p.world ≡ [])
early_return_example =
    early_return toy_kube "web" selector "apps" "apps/v1" "v1" ("deployments" ∷ []) [] refl
      (omega arith)

Step-progress_example :
    ((q : Pool toy) × Step toy_kube "web" selector head_of_loops q) ⊎ IsOver head_of_loops
Step-progress_example = Step-progress toy_kube "web" selector head_of_loops
