-- ===== src/Operator/Main/Nil.antt =====
-- operator/main.go: what comes of a client that could not be made.
use dummy_cd.Base.{String, ◌≡◌, true, none, arith}
use dummy_cd.Go.{Error, value, failed, panic}
use dummy_cd.Operator.Resources.{Application, NamespacedName, OperatorLibrary}
use dummy_cd.Operator.Reconcile.{
  app_finalizer, reconcile_application, reconcile_found_application, sync_application,
  finalize_application, ensure_app_finalizer,
}
use dummy_cd.Server.Client.{new_server_client}
use dummy_cd.Operator.Main.{ManagerLibrary, make_client, run_manager, main, with_client}

module _ {W Conn : Type 0} (main_lib : ManagerLibrary W Conn) (lib : OperatorLibrary W)
    (req : NamespacedName) where
  panics_without :
      (v : W) (a : Application)
      → (lib.get_application req v).0 ≡ value a
      → lib.contains_finalizer a.meta app_finalizer ≡ true
      → (reconcile_application (with_client {Conn = Conn} none lib) req v).0 ≡ panic
  unfolding with_client reconcile_application reconcile_found_application sync_application
      finalize_application ensure_app_finalizer
  panics_without v a got bears = ground arith

  -- Where the operator cannot make its client, main runs the manager nevertheless, with the pointer
  -- nil; and a Reconcile of an application that bears the finalizer, whether the application is being
  -- deleted or not, then ends in a panic.
  pub main-nil_client :
      (address : String) (e : Error) (w v : W) (a : Application)
      → (main_lib.dial address w).0 ≡ failed e
      → (lib.get_application req v).0 ≡ value a
      → lib.contains_finalizer a.meta app_finalizer ≡ true
      → (main main_lib address w ≡ run_manager main_lib none (main_lib.dial address w).1)
        × ((reconcile_application (with_client {Conn = Conn} none lib) req v).0 ≡ panic)
  unfolding main make_client new_server_client
  main-nil_client address e w v a refused got bears = (ground arith, panics_without v a got bears)
