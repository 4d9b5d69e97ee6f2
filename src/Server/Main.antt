-- ===== src/Server/Main.antt =====
-- server/main.go: how the server comes up. Flags and log levels are left out.
pub mod Started
use dummy_cd.Base.{ℕ, String, false, Option, none, some, []}
use dummy_cd.Go.{Returned, value, failed, Call, Exec, pure, panics, attempt, must, ◌>>=◌, ◌>>◌}
use dummy_cd.Libs.{Types}
use dummy_cd.Libs.Files.{Bytes}
use dummy_cd.Libs.Charts.{RestConfig}
use dummy_cd.Util.{read_file}
use dummy_cd.Instance.{Libraries}
use dummy_cd.Instance.Connection.{new_kubernetes_config}
use dummy_cd.Instance.Handler.{RepositoryHandler}

-- The server of the gRPC service.
pub record Server (T : Types) : Type 0 where
  pub handler : RepositoryHandler T
  pub kube_config : RestConfig

-- What main calls outside the program: net.Listen on a port of tcp, what GetConfigOrDie answers,
-- and the conversion of bytes to a string.
pub record MainLibrary (W : Type 0) : Type 0 where
  pub listen : ℕ → Call W (Unit {0})
  pub found_config : RestConfig
  pub text : Bytes → String

abbrev pub namespace_file : String
namespace_file = "/var/run/secrets/kubernetes.io/serviceaccount/namespace"

-- `x, err := f()` and `util.PanicOnError(err)`
unfoldable pub or_panic : {S A : Type 0} → Exec S A → Exec S A
or_panic m = do done ← attempt m; elim done [ value a ↦ pure a | failed e ↦ panics ]

module _ {T : Types} (libs : Libraries T) (main_lib : MainLibrary T.World) where
  unfoldable pub new_server : RestConfig → Option Bytes → Exec T.World (Server T)
  new_server config none = panics
  new_server config (some bytes) = pure (record {
    handler = record { repos = []; held = false; current_namespace = main_lib.text bytes };
    kube_config = config;
  })

  -- main, up to the server that it registers and serves.
  unfoldable pub start : ℕ → Exec T.World (Server T)
  start port = do
    config ← or_panic (new_kubernetes_config libs.files libs.workspace main_lib.found_config)
    or_panic (must (main_lib.listen port))
    namespace ← read_file libs.files namespace_file
    new_server config namespace
