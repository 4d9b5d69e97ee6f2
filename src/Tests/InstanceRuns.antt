-- ===== src/Tests/InstanceRuns.antt =====
-- Runs of the life cycle and of a repository in the small world.
use dummy_cd.Base.{String, ◌≡◌, ◌≢◌, refl, true, false, none, some, [], ◌∷◌, arith}
use dummy_cd.Go.{no_err_already_up_todate, Result, ok, err, panic, blocked, failed, other}
use dummy_cd.Slice.{get_elem?, swap_remove}
use dummy_cd.Instance.{Libraries}
use dummy_cd.Instance.Remote.{Remote, new_git_repository}
use dummy_cd.Instance.Application.{
  Application, ApplicationSpec, AppState, helm_provider, deliver, new_application,
  provider_delivery, provider_uninstall, uninstall_provider,
}
use dummy_cd.Instance.Lifecycle.{
  run_life_cycle, after_fetch, after_pull, get_application_head_revision, pull_updates, reconcile,
  take_head, update_repository,
}
use dummy_cd.Instance.Repository.{
  RepositoryConfig, RepoState, add_or_update_application, delete_application, cmp_equal, find_first,
  find_last, remove_application, remove_found,
}
use dummy_cd.Instance.Repository.{place, add_application}
use dummy_cd.Instance.Repository.Placement.{
  Placed, add_or_update_application-Placed, add_or_update_application-idempotent,
}
use dummy_cd.Instance.Repository.Deletion.{delete_application-locks_out}
use dummy_cd.Instance.Repository.Replacement.{add_or_update_application-leaves_nil}
use dummy_cd.Instance.Handler.{run_repository}
use dummy_cd.Tests.Toy.{toy, toy_git, toy_libs, toy_rest}
use dummy_cd.Tests.HelmRuns.{ready, requested}
use dummy_cd.Helm.Actions.{delivery, uninstall}
use dummy_cd.Helm.Setup.{new_helm_provider}

abbrev pub toy_remote : Remote toy
toy_remote = record {
  name = "charts";
  settings = record {
    url = "https://host/charts";
    private_key_secret = "";
    insecure_ignore_host_key = false;
  };
  auth = none;
}

abbrev pub spec_named : String → ApplicationSpec toy
spec_named name = record {
  name = name;
  namespace = "web";
  url = "https://host/charts";
  reference = "main";
  sparse_path = "chart";
  remote = toy_remote;
  helm = requested;
}

-- The application as NewApplication makes it.
abbrev made_of : ApplicationSpec toy → Result (Application toy)
made_of spec = (new_application toy_libs spec toy_rest []).0

abbrev pub web : Application toy
web = record {
  spec = spec_named "web";
  storage_path = "/storage";
  handled_path = "/storage";
  current_revision = 0;
  clone_options = record {
    url = "https://host/charts";
    reference_name = "refs/heads/main";
    single_branch = true;
    no_checkout = false;
    auth = none;
  };
  checkout_options = record {
    sparse_checkout_directories = "chart" ∷ [];
    keep = false;
    branch = "refs/heads/main";
    force = true;
  };
  pull_options = record {
    remote_name = "origin";
    remote_url = "https://host/charts";
    reference_name = "refs/heads/main";
    single_branch = true;
    force = true;
    auth = none;
  };
  fetch_options = record {
    remote_name = "origin";
    remote_url = "https://host/charts";
    force = true;
    auth = none;
  };
  log_options = λ s. true;
  repo = tt;
  held = false;
  delivery_provider = helm_provider ready;
}

abbrev pub fresh : AppState toy
fresh = record { app = web; world = [] }

run_delivers : (run_life_cycle toy_libs fresh).1.world ≡ ("web", "seven") ∷ []
unfolding run_life_cycle after_fetch update_repository reconcile pull_updates after_pull take_head
    get_application_head_revision deliver provider_delivery delivery
run_delivers = refl

run_moves : (run_life_cycle toy_libs fresh).1.app.current_revision ≡ 7
unfolding run_life_cycle after_fetch update_repository reconcile pull_updates after_pull take_head
    get_application_head_revision deliver provider_delivery
run_moves = refl

head_moves : (run_life_cycle toy_libs fresh).1.app.current_revision ≢ web.current_revision
head_moves = λ e. omega (arith, run_moves)

abbrev pub one_app : RepositoryConfig toy
one_app = record { remote = toy_remote; held = false; apps = some web ∷ [] }

abbrev before : RepoState toy
before = record { repository = one_app; world = [] }

abbrev value_of : Result (Application toy) → Application toy
value_of (ok a) = a
value_of _ = web

abbrev api : Application toy
api = value_of (made_of (spec_named "api"))

delete_application-locks_out_example :
    let t = (delete_application toy_libs toy_rest "web" before).1 in
    ((add_or_update_application toy_libs toy_rest (spec_named "api") t).0 ≡ blocked)
    × (run_repository toy_libs t.repository [] ≡ (ok t.repository, []))
unfolding delete_application new_application find_last remove_found remove_application
    uninstall_provider provider_uninstall uninstall find_first swap_remove new_git_repository
    new_helm_provider
delete_application-locks_out_example =
    delete_application-locks_out toy_libs toy_rest "web" 0 before (spec_named "api") api [] refl
      refl refl refl

-- Repositories that cannot be cloned.
abbrev uncloned : Libraries toy
uncloned = record toy_libs {
  git = record toy_git { plain_clone = λ p b o w. (failed (other "no route"), w) };
}

abbrev moved : ApplicationSpec toy
moved = record (spec_named "web") { reference = "next" }

add_or_update_application-leaves_nil_example :
    let (r, t) = add_or_update_application uncloned toy_rest moved before in
    (r ≡ err (other "no route"))
    × (get_elem? t.repository.apps 0 ≡ some none)
    × ((add_or_update_application uncloned toy_rest moved t).0 ≡ panic)
unfolding add_or_update_application new_application find_first cmp_equal new_git_repository
add_or_update_application-leaves_nil_example =
    add_or_update_application-leaves_nil uncloned toy_rest 0 web moved moved before
      (other "no route") refl refl refl refl refl refl refl refl

abbrev empty : RepoState toy
empty = record { repository = record one_app { apps = [] }; world = [] }

abbrev placing : RepoState toy
placing = (add_or_update_application toy_libs toy_rest (spec_named "web") empty).1

add_or_update_application-Placed_example : Placed toy_libs toy_rest (spec_named "web") placing
unfolding add_or_update_application find_first place add_application new_application
    new_git_repository new_helm_provider
add_or_update_application-Placed_example =
    add_or_update_application-Placed toy_libs toy_rest (spec_named "web") empty refl

add_or_update_application-idempotent_example :
    add_or_update_application toy_libs toy_rest (spec_named "web") placing
    ≡ (err no_err_already_up_todate, placing)
unfolding add_or_update_application find_first place add_application new_application
    new_git_repository new_helm_provider
add_or_update_application-idempotent_example =
    add_or_update_application-idempotent toy_libs toy_rest (spec_named "web") empty refl
