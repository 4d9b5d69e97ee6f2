-- ===== src/Tests/ServerRuns.antt =====
-- Runs of the server: histories of requests and ticks.
use dummy_cd.Base.{String, ◌≡◌, refl, false, none, List, [], ◌∷◌}
use dummy_cd.Instance.Handler.{
  HandlerState, tick, get_repository_config, with_handler, add_repository, append_unless, run_all,
  run_repositories, run_repository, run_apps,
}
use dummy_cd.Instance.Application.{new_application, deliver, provider_delivery}
use dummy_cd.Instance.Lifecycle.{
  run_life_cycle, after_fetch, update_repository, reconcile, pull_updates, after_pull, take_head,
  get_application_head_revision,
}
use dummy_cd.Instance.Remote.{new_remote, new_git_repository}
use dummy_cd.Instance.Repository.{
  new_repository_config, add_or_update_application, find_first, place, add_application,
}
use dummy_cd.Helm.Setup.{new_helm_provider}
use dummy_cd.Helm.Actions.{delivery}
use dummy_cd.Server.Messages.{on_repository, spec_of, replace_first}
use dummy_cd.Pb
use dummy_cd.Server.Requests.{
  Event, adds_repository, adds_or_updates_application, ticks, run, respond,
  add_or_update_application_request, add_or_update_in, add_repository_request, create_unless,
  create_repository,
}
use dummy_cd.Tests.Toy.{toy, toy_libs, toy_rest}

abbrev started : HandlerState toy
started = record {
  handler = record { repos = []; held = false; current_namespace = "dummy" };
  world = [];
}

abbrev repository_at : String → Pb.Repository
repository_at url = record {
  name = "charts";
  url = url;
  private_key_secret = "";
  insecure_ignore_host_key = false;
}

abbrev application_at : String → Pb.Application
application_at url = record {
  name = "web";
  namespace = "web";
  url = url;
  reference = "main";
  sparse_path = "chart";
  revision = none;
  helm = none;
}

-- A URL is asked for twice, and an application is added before a tick.
abbrev history : List Event
history =
    adds_repository (repository_at "https://host/charts")
    ∷ adds_repository (repository_at "https://host/charts")
    ∷ adds_repository (repository_at "https://host/raw")
    ∷ adds_or_updates_application (application_at "https://host/charts")
    ∷ ticks
    ∷ []

history_delivers : (run toy_libs toy_rest history started).world ≡ ("web", "seven") ∷ []
unfolding run respond tick add_or_update_application_request add_or_update_in get_repository_config
    add_repository_request create_unless with_handler create_repository new_repository_config
    new_remote add_repository append_unless on_repository add_or_update_application find_first place
    add_application new_application new_git_repository new_helm_provider spec_of run_all
    run_repositories run_repository run_apps run_life_cycle after_fetch update_repository reconcile
    pull_updates after_pull take_head get_application_head_revision deliver provider_delivery
    delivery replace_first
history_delivers = refl
