-- ===== src/Operator/Main.antt =====
-- operator/main.go: how the operator comes up. Flags, the scheme and the log are left out.
pub mod Nil
use dummy_cd.Base.{String, Option}
use dummy_cd.Go.{Call, Exec, pure, call, must, deref, ◌>>=◌, ◌>>◌}
use dummy_cd.Util.{pointer}
use dummy_cd.Server.Client.{Client, new_server_client}
use dummy_cd.Operator.Resources.{OperatorLibrary}

-- What main calls outside the program: grpc.Dial and controller-runtime. The reconcilers that are set up hold the
-- pointer to the client.
pub record ManagerLibrary (W Conn : Type 0) : Type 0 where
  pub dial : String → Call W Conn
  pub new_manager : Call W (Unit {0})
  pub set_up_repositories : Option (Client Conn) → Call W (Unit {0})
  pub set_up_applications : Option (Client Conn) → Call W (Unit {0})
  pub add_healthz_check : Call W (Unit {0})
  pub add_readyz_check : Call W (Unit {0})
  pub start : Call W (Unit {0})

module _ {W Conn : Type 0} (lib : ManagerLibrary W Conn) where
  -- An error is logged, and the program goes on with the pointer that it has.
  unfoldable pub make_client : String → Exec W (Option (Client Conn))
  unfolding pointer
  make_client address = do made ← call (new_server_client lib.dial address); pure (pointer made)

  -- An error of the rest ends the program with the exit code 1: here, with the error.
  unfoldable pub run_manager : Option (Client Conn) → Exec W (Unit {0})
  run_manager client = do
    must lib.new_manager
    must (lib.set_up_repositories client)
    must (lib.set_up_applications client)
    must lib.add_healthz_check
    must lib.add_readyz_check
    must lib.start

  unfoldable pub main : String → Exec W (Unit {0})
  unfolding make_client run_manager
  main address = do client ← make_client address; run_manager client

-- The calls of the server, through the reconcilers' pointer to the client.
unfoldable pub with_client :
    {W Conn : Type 0} → Option (Client Conn) → OperatorLibrary W → OperatorLibrary W
with_client client lib = record lib {
  rpc_add_repository = λ m. (do deref client; lib.rpc_add_repository m);
  rpc_delete_repository = λ m. (do deref client; lib.rpc_delete_repository m);
  rpc_add_or_update_application = λ m. (do deref client; lib.rpc_add_or_update_application m);
  rpc_delete_application = λ m. (do deref client; lib.rpc_delete_application m);
}
