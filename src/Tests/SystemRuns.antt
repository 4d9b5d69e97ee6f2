-- ===== src/Tests/SystemRuns.antt =====
-- Runs of the operator and the server together, on a small world of libraries.
use dummy_cd.Base.{◌≡◌, refl, none, List, [], ◌∷◌, Holds, is_nil, not}
use dummy_cd.Go.{value, other}
use dummy_cd.Instance.Sentinel.{IsOwn}
use dummy_cd.Server.Main.{MainLibrary, start, or_panic, new_server}
use dummy_cd.Operator.Reconcile.{
  application_message, deletion_message, reconcile_application, reconcile_repository,
  reconcile_found_application, reconcile_found_repository, sync_repository, sync_application,
  ensure_repo_finalizer, ensure_app_finalizer, finalize_application, repository_message,
}
use dummy_cd.System.{
  ApiLibrary, Wire, System, joined, Happening, server_starts, server_ticks, application_reconciles,
  repository_reconciles, resources_change, happen_all, happen, up, rpc, answer_of, answer,
}
use dummy_cd.System.Consistent.{IsSound, happen_all-IsSound}
use dummy_cd.System.Agreement.{
  AgreesWith, LacksAsked, reconcile_application-Agrees, reconcile_application-Lacks,
}
use dummy_cd.Instance.Connection.{new_kubernetes_config, store_credentials}
use dummy_cd.Util.{read_file}
use dummy_cd.Server.Requests.{
  respond, add_or_update_application_request, add_or_update_in, add_repository_request,
  create_unless, create_repository, delete_application_request, delete_in,
}
use dummy_cd.Server.Messages.{on_repository, spec_of, replace_first, up_to_date_is_ok}
use dummy_cd.Instance.Handler.{
  tick, get_repository_config, with_handler, add_repository, append_unless, run_all,
  run_repositories, run_repository, run_apps,
}
use dummy_cd.Instance.Application.{
  new_application, deliver, provider_delivery, uninstall, uninstall_provider, provider_uninstall,
}
use dummy_cd.Instance.Lifecycle.{
  run_life_cycle, after_fetch, update_repository, reconcile, pull_updates, after_pull, take_head,
  get_application_head_revision,
}
use dummy_cd.Instance.Remote.{new_remote, new_git_repository}
use dummy_cd.Instance.Repository.{
  new_repository_config, add_or_update_application, find_first, place, add_application,
  delete_application, find_last, remove_found, remove_application,
}
use dummy_cd.Helm.Setup.{new_helm_provider}
use dummy_cd.Helm.Actions.{delivery}
use dummy_cd.Tests.Toy.{toy, toy_libs, toy_rest}
use dummy_cd.Tests.OperatorRuns.{Stored, web_request, created, deleted}

abbrev toy_api : ApiLibrary Stored
toy_api = record {
  get_application = λ n w. (value (w.app), w);
  update_application = λ n a w. (value tt, record w { app = a });
  get_repository = λ n w. (value (w.repo), w);
  update_repository = λ n r w. (value tt, record w { repo = r });
  contains_finalizer = λ m f. not (is_nil m.finalizers);
  add_finalizer = λ f m. record m { finalizers = f ∷ m.finalizers };
  remove_finalizer = λ f m. record m { finalizers = [] };
}

abbrev toy_wire : Wire
toy_wire = record { status = λ e. e; unavailable = other "unavailable" }

abbrev toy_main : MainLibrary (toy.World)
toy_main = record {
  listen = λ port w. (value tt, w);
  found_config = toy_rest;
  text = λ bytes. "dummy";
}

abbrev off : System Stored toy
off = record { api = created; server = none; world = [] }

-- The server comes up, the repository and the application are reconciled, and the application is
-- delivered; then both are to be deleted.
abbrev lived : List (Happening Stored)
lived =
    server_starts 50031
    ∷ repository_reconciles web_request
    ∷ application_reconciles web_request
    ∷ server_ticks
    ∷ resources_change deleted
    ∷ []

abbrev up_and_serving : List (Happening Stored)
up_and_serving = server_starts 50031 ∷ repository_reconciles web_request ∷ []

toy-IsOwn : IsOwn toy_libs
toy-IsOwn = record {
  remove_all = λ p w h. cc;
  plain_clone = λ p b o w h. cc;
  plain_open = λ p w h. cc;
  worktree = λ r w h. cc;
  checkout = λ t o w h. cc;
  update = λ m w h. cc;
  load = λ p w h. cc;
  init_configuration = λ f n w h. cc;
  new_client_set = λ r h. cc;
  new_dynamic_client = λ r h. cc;
  get_namespace = λ n w h. cc;
  create_namespace = λ n w h. cc;
}

happen_all-IsSound_example :
    IsSound (happen_all toy_libs toy_main toy_wire toy_api lived off).server
happen_all-IsSound_example = happen_all-IsSound toy_libs toy_main toy_wire toy_api lived off refl

lived_delivers :
    (happen_all toy_libs toy_main toy_wire toy_api lived off).world ≡ ("web", "seven") ∷ []
unfolding happen happen_all up rpc answer_of answer joined reconcile_application
    reconcile_found_application reconcile_repository reconcile_found_repository sync_repository
    sync_application ensure_repo_finalizer ensure_app_finalizer finalize_application
    repository_message application_message deletion_message start or_panic new_server
    new_kubernetes_config store_credentials read_file respond add_or_update_application_request
    add_or_update_in add_repository_request create_unless create_repository
    delete_application_request delete_in on_repository spec_of replace_first up_to_date_is_ok tick
    get_repository_config with_handler add_repository append_unless run_all run_repositories
    run_repository run_apps new_application deliver provider_delivery uninstall uninstall_provider
    provider_uninstall run_life_cycle after_fetch update_repository reconcile pull_updates
    after_pull take_head get_application_head_revision new_remote new_git_repository
    new_repository_config add_or_update_application find_first place add_application
    delete_application find_last remove_found remove_application new_helm_provider delivery
lived_delivers = refl

reconcile_application-Agrees_example :
    Holds
      (λ server. AgreesWith web_request (created.app) server.handler.repos)
      (reconcile_application
        (joined toy_libs toy_wire toy_api)
        web_request
        (happen_all toy_libs toy_main toy_wire toy_api up_and_serving off)).1.server
unfolding happen happen_all up rpc answer_of answer joined reconcile_application
    reconcile_found_application reconcile_repository reconcile_found_repository sync_repository
    sync_application ensure_repo_finalizer ensure_app_finalizer finalize_application
    repository_message application_message deletion_message start or_panic new_server
    new_kubernetes_config store_credentials read_file respond add_or_update_application_request
    add_or_update_in add_repository_request create_unless create_repository
    delete_application_request delete_in on_repository spec_of replace_first up_to_date_is_ok tick
    get_repository_config with_handler add_repository append_unless run_all run_repositories
    run_repository run_apps new_application deliver provider_delivery uninstall uninstall_provider
    provider_uninstall run_life_cycle after_fetch update_repository reconcile pull_updates
    after_pull take_head get_application_head_revision new_remote new_git_repository
    new_repository_config add_or_update_application find_first place add_application
    delete_application find_last remove_found remove_application new_helm_provider delivery
reconcile_application-Agrees_example =
    reconcile_application-Agrees toy_libs toy_wire toy_api toy-IsOwn web_request
      (happen_all toy_libs toy_main toy_wire toy_api up_and_serving off) (created.app) refl refl
      refl

reconcile_application-Lacks_example :
    Holds
      (λ server. LacksAsked web_request (deleted.app) server.handler.repos)
      (reconcile_application
        (joined toy_libs toy_wire toy_api)
        web_request
        (happen_all toy_libs toy_main toy_wire toy_api lived off)).1.server
unfolding happen happen_all up rpc answer_of answer joined reconcile_application
    reconcile_found_application reconcile_repository reconcile_found_repository sync_repository
    sync_application ensure_repo_finalizer ensure_app_finalizer finalize_application
    repository_message application_message deletion_message start or_panic new_server
    new_kubernetes_config store_credentials read_file respond add_or_update_application_request
    add_or_update_in add_repository_request create_unless create_repository
    delete_application_request delete_in on_repository spec_of replace_first up_to_date_is_ok tick
    get_repository_config with_handler add_repository append_unless run_all run_repositories
    run_repository run_apps new_application deliver provider_delivery uninstall uninstall_provider
    provider_uninstall run_life_cycle after_fetch update_repository reconcile pull_updates
    after_pull take_head get_application_head_revision new_remote new_git_repository
    new_repository_config add_or_update_application find_first place add_application
    delete_application find_last remove_found remove_application new_helm_provider delivery
reconcile_application-Lacks_example =
    reconcile_application-Lacks toy_libs toy_main toy_wire toy_api lived off web_request
      (deleted.app) refl refl refl refl refl
