-- ===== src/Tests/OperatorRuns.antt =====
-- Runs of the reconcilers. The API server stores one application and one repository.
use dummy_cd.Operator.Reconcile.{reconcile_repository}
use dummy_cd.Operator.Reconcile.Finalizers.{reconcile_repository-keeps_finalizer}
use dummy_cd.Base.{
  String, ◌≡◌, refl, Bool, true, false, none, some, List, [], ◌∷◌, Holds, is_nil, not,
}
use dummy_cd.Go.{value, failed, other, Result, ok, err, panic}
use dummy_cd.Operator.Resources.{
  Application, Repository, ObjectMeta, NamespacedName, OperatorLibrary,
}
use dummy_cd.Operator.Reconcile.{
  app_finalizer, repo_finalizer, reconcile_application, ensure_app_finalizer,
  reconcile_found_application, sync_application,
}
use dummy_cd.Operator.Main.{ManagerLibrary, main, run_manager, with_client}
use dummy_cd.Operator.Main.Nil.{main-nil_client}
use dummy_cd.Operator.Reconcile.Finalizers.{
  OperatorLaws, reconcile_application-finalizer_stored, reconcile_application-keeps_finalizer,
}

pub record Stored : Type 0 where
  pub app : Application
  pub repo : Repository

-- `deletes` is what the server answers to a request for a deletion.
module _ (deletes : Result (Unit {0})) where
  abbrev api_server : OperatorLibrary Stored
  api_server = record {
    get_application = λ n w. (value (w.app), w);
    update_application = λ n a w. (value tt, record w { app = a });
    get_repository = λ n w. (value (w.repo), w);
    update_repository = λ n r w. (value tt, record w { repo = r });
    contains_finalizer = λ m f. not (is_nil m.finalizers);
    add_finalizer = λ f m. record m { finalizers = f ∷ m.finalizers };
    remove_finalizer = λ f m. record m { finalizers = [] };
    rpc_add_repository = λ m w. (ok tt, w);
    rpc_delete_repository = λ m w. (deletes, w);
    rpc_add_or_update_application = λ m w. (ok tt, w);
    rpc_delete_application = λ m w. (deletes, w);
  }

  value_app : {a b : Application} → value a ≡ value b → some a ≡ some b
  value_app e = cc

  value_repo : {a b : Repository} → value a ≡ value b → some a ≡ some b
  value_repo e = cc

  stored_laws : (req : NamespacedName) → OperatorLaws api_server req
  stored_laws req = record {
    apps = λ w. some (w.app);
    repos = λ w. some (w.repo);
    get_app_reads = λ w e. value_app e;
    get_app_keeps = λ w. refl;
    update_app_stores = λ w a e. refl;
    rpc_update_keeps = λ w m. refl;
    rpc_delete_keeps = λ w m. refl;
    get_repo_reads = λ w e. value_repo e;
    get_repo_keeps = λ w. refl;
    update_repo_stores = λ w r e. refl;
    rpc_add_keeps = λ w m. refl;
    rpc_remove_keeps = λ w m. refl;
    contains_add = λ f m. refl;
  }

abbrev pub web_request : NamespacedName
web_request = record { namespace = "argo"; name = "web" }

abbrev meta_of : Bool → List String → ObjectMeta
meta_of deleting finalizers = record { deleting = deleting; finalizers = finalizers }

abbrev app_of : ObjectMeta → Application
app_of meta = record {
  meta = meta;
  spec = record {
    url = "https://host/charts";
    namespace = "web";
    reference = "main";
    sparse_path = "chart";
    helm = record {
      check_values_equal = false;
      re_install_release = false;
      create_namespace = true;
      atomic = true;
      include_crds = false;
      values_files = [];
    };
  };
}

abbrev repo_of : ObjectMeta → Repository
repo_of meta = record {
  meta = meta;
  spec = record {
    url = "https://host/charts";
    private_key_secret = "";
    insecure_ignore_host_key = false;
  };
}

abbrev pub created : Stored
created = record { app = app_of (meta_of false []); repo = repo_of (meta_of false []) }

abbrev pub deleted : Stored
deleted = record {
  app = app_of (meta_of true (app_finalizer ∷ []));
  repo = repo_of (meta_of true (repo_finalizer ∷ []));
}

abbrev refusing : Result (Unit {0})
refusing = err (other "unavailable")

reconcile_application-finalizer_stored_example :
    Holds
      (λ b. not (is_nil b.meta.finalizers) ≡ true)
      (some ((reconcile_application (api_server (ok tt)) web_request created).1.app))
unfolding stored_laws reconcile_application reconcile_found_application sync_application
    ensure_app_finalizer
reconcile_application-finalizer_stored_example =
    reconcile_application-finalizer_stored (stored_laws (ok tt) web_request) created refl

reconcile_application-keeps_finalizer_example :
    ((reconcile_application (api_server refusing) web_request deleted).0
      ≡ err (other "unavailable"))
    × (some ((reconcile_application (api_server refusing) web_request deleted).1.app)
        ≡ some (deleted.app))
unfolding stored_laws
reconcile_application-keeps_finalizer_example =
    reconcile_application-keeps_finalizer (stored_laws refusing web_request) deleted (deleted.app)
      (other "unavailable") refl refl refl refl

-- No client can be made; the rest of main succeeds.
abbrev no_client : ManagerLibrary Stored (Unit {0})
no_client = record {
  dial = λ address w. (failed (other "no client"), w);
  new_manager = λ w. (value tt, w);
  set_up_repositories = λ c w. (value tt, w);
  set_up_applications = λ c w. (value tt, w);
  add_healthz_check = λ w. (value tt, w);
  add_readyz_check = λ w. (value tt, w);
  start = λ w. (value tt, w);
}

main-nil_client_example :
    (main no_client "dummycd-server:50031" deleted ≡ run_manager no_client none deleted)
    × ((reconcile_application
          (with_client {Conn = Unit {0}} none (api_server (ok tt)))
          web_request
          deleted).0
        ≡ panic)
main-nil_client_example =
    main-nil_client no_client (api_server (ok tt)) web_request "dummycd-server:50031"
      (other "no client") deleted deleted (deleted.app) refl refl refl

reconcile_repository-keeps_finalizer_example :
    ((reconcile_repository (api_server refusing) web_request deleted).0 ≡ err (other "unavailable"))
    × (some ((reconcile_repository (api_server refusing) web_request deleted).1.repo)
        ≡ some (deleted.repo))
unfolding stored_laws
reconcile_repository-keeps_finalizer_example =
    reconcile_repository-keeps_finalizer (stored_laws refusing web_request) deleted (deleted.repo)
      (other "unavailable") refl refl refl refl
