-- ===== src/Server/Requests.antt =====
-- server/pkg/server/server.go: the handlers of the gRPC service. A handler runs from its start to
-- its end with no other in between; `blocked` is a handler that waits for a mutex.
use dummy_cd.Base.{Option, none, some, List, [], ◌∷◌, ◌++◌, map}
use dummy_cd.Go.{
  err_repository_config_not_found, err_application_not_found, Exec, pure, raise, panics, attempt,
  gets, ◌>>=◌,
}
use dummy_cd.Libs.{Types}
use dummy_cd.Libs.Charts.{RestConfig}
use dummy_cd.Instance.{Libraries}
use dummy_cd.Instance.Application.{Application, AppState}
use dummy_cd.Instance.Lifecycle.{get_revision_strings_map}
use dummy_cd.Instance.Repository.{
  RepositoryConfig, new_repository_config, add_or_update_application, delete_application,
}
use dummy_cd.Instance.Handler.{
  HandlerState, on_world, with_handler, get_repository_config, add_repository, delete_repository,
  get_application, tick,
}
use dummy_cd.Pb
use dummy_cd.Pb.{get_helm}
use dummy_cd.Server.Messages.{settings_of, spec_of, up_to_date_is_ok, on_repository}

module _ {T : Types} (libs : Libraries T) (kube_config : RestConfig) where
  open libs use {helm as helm_lib}

  -- What AddRepository does while it holds the handler's mutex.
  unfoldable pub create_repository : Pb.Repository → Exec (HandlerState T) (Unit {0})
  unfolding settings_of
  create_repository repo = do
    namespace ← gets (λ s. s.handler.current_namespace)
    created ←
        on_world (new_repository_config libs kube_config repo.name (settings_of repo) namespace)
    add_repository created

  -- A URL that the handler has already is no error.
  unfoldable pub create_unless :
      Pb.Repository → Option (RepositoryConfig T) → Exec (HandlerState T) (Unit {0})
  create_unless repo (some _) = pure tt
  create_unless repo none = with_handler (create_repository repo)

  unfoldable pub add_repository_request : Pb.Repository → Exec (HandlerState T) (Unit {0})
  add_repository_request repo = do
    repos ← gets (λ s. s.handler.repos)
    create_unless repo (get_repository_config repo.url repos)

  unfoldable pub delete_repository_request : Pb.Repository → Exec (HandlerState T) (Unit {0})
  delete_repository_request repo = with_handler (delete_repository libs repo.name)

  unfoldable pub add_or_update_in :
      Pb.Application → Option (RepositoryConfig T) → Exec (HandlerState T) (Unit {0})
  unfolding up_to_date_is_ok
  add_or_update_in app none = raise err_repository_config_not_found
  add_or_update_in app (some r) = do
    done ← attempt (
        on_repository app.url r (add_or_update_application libs kube_config (spec_of app r.remote)))
    up_to_date_is_ok done

  unfoldable pub add_or_update_application_request :
      Pb.Application → Exec (HandlerState T) (Unit {0})
  add_or_update_application_request app = do
    repos ← gets (λ s. s.handler.repos)
    add_or_update_in app (get_repository_config app.url repos)

  unfoldable pub delete_in :
      Pb.Application → Option (RepositoryConfig T) → Exec (HandlerState T) (Unit {0})
  delete_in app none = pure tt
  delete_in app (some r) = on_repository app.url r (delete_application libs kube_config app.name)

  -- The loop ends at the first repository of the URL; where there is none the answer is no error.
  unfoldable pub delete_application_request : Pb.Application → Exec (HandlerState T) (Unit {0})
  delete_application_request app = do
    repos ← gets (λ s. s.handler.repos)
    delete_in app (get_repository_config app.url repos)

  unfoldable pub application_message : Application T → Pb.Application
  application_message a = record {
    name = a.name;
    namespace = a.namespace;
    url = a.url;
    reference = a.reference;
    sparse_path = "";
    revision = some (record { hash = helm_lib.hash_string a.current_revision; message = "" });
    helm = none;
  }

  unfoldable pub application_messages :
      {S : Type 0} → List (Option (Application T)) → Exec S (List Pb.Application)
  unfolding application_message
  application_messages [] = pure []
  application_messages (none ∷ rest) = panics
  application_messages (some a ∷ rest) = do
    messages ← application_messages rest
    pure (application_message a ∷ messages)

  unfoldable pub repository_messages :
      {S : Type 0} → List (RepositoryConfig T) → Exec S (List Pb.Application)
  unfolding application_messages
  repository_messages [] = pure []
  repository_messages (r ∷ rest) = do
    messages ← application_messages r.apps
    more ← repository_messages rest
    pure (messages ++ more)

  unfoldable pub get_applications_request : Exec (HandlerState T) (List Pb.Application)
  get_applications_request = do repos ← gets (λ s. s.handler.repos); repository_messages repos

  abbrev run_in_world : {A : Type 0} → Application T → Exec (AppState T) A → Exec (HandlerState T) A
  run_in_world a m s =
      let start : AppState T = record { app = a; world = s.world } in
      ((m start).0, record s { world = (m start).1.world })

  unfoldable pub revisions_of : Option (Application T) → Exec (HandlerState T) (List Pb.Revision)
  revisions_of none = raise err_application_not_found
  revisions_of (some a) = do
    revisions ← run_in_world a (get_revision_strings_map libs)
    pure (map (λ r. record { hash = r.0; message = r.1 }) revisions)

  unfoldable pub get_application_revisions_request :
      Pb.Application → Exec (HandlerState T) (List Pb.Revision)
  unfolding revisions_of
  get_application_revisions_request app = do
    repos ← gets (λ s. s.handler.repos)
    found ← get_application app.name app.url repos
    revisions_of found

  -- CheckoutApplicationRevision answers with no error and does nothing.
  unfoldable pub checkout_application_revision_request :
      Pb.Application → Exec (HandlerState T) (Unit {0})
  checkout_application_revision_request app = pure tt

-- What reaches the server: the requests that change its state, and the ticks of Handle.
pub data Event : Type 0 where
  adds_repository : Pb.Repository → Event
  deletes_repository : Pb.Repository → Event
  adds_or_updates_application : Pb.Application → Event
  deletes_application : Pb.Application → Event
  ticks : Event

module _ {T : Types} (libs : Libraries T) (kube_config : RestConfig) where
  unfoldable pub respond : Event → Exec (HandlerState T) (Unit {0})
  respond (adds_repository m) = add_repository_request libs kube_config m
  respond (deletes_repository m) = delete_repository_request libs kube_config m
  respond (adds_or_updates_application m) = add_or_update_application_request libs kube_config m
  respond (deletes_application m) = delete_application_request libs kube_config m
  respond ticks = tick libs

  -- The state after a history of events. An event that is answered with an error, or that ends in a
  -- panic or in a wait, leaves the state that it had come to.
  unfoldable pub run : List Event → HandlerState T → HandlerState T
  run [] s = s
  run (e ∷ rest) s = run rest (respond e s).1
