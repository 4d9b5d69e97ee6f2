-- ===== src/Helm/Setup.antt =====
-- server/pkg/provider/helm.go, the types and the constructors, NewHelmKubernetesConfig to
-- NewHelmProvider.
pub mod Construction
use dummy_cd.Base.{ℕ, String, Bool, true, Option, none, some, List, [], ◌∷◌}
use dummy_cd.Go.{Returned, value, failed, Exec, pure, raise, panics, deref, call, must, ◌>>=◌, ◌>>◌}
use dummy_cd.Libs.{Types}
use dummy_cd.Libs.Files.{FilesLibrary}
use dummy_cd.Libs.Charts.{RestConfig, ConfigFlags, Configuration, EnvSettings, Manager, HelmLibrary}
use dummy_cd.Util.{get_user_home, get_files_full_path}

-- `action_timeout` is in seconds.
pub record HelmActionOptions : Type 0 where
  pub check_values_equal : Bool
  pub re_install_release : Bool
  pub create_namespace : Bool
  pub atomic : Bool
  pub include_crds : Bool
  pub action_timeout : ℕ

-- The field appRevision points to the application's CurrentRevision or is nil; what the pointer
-- shows is handed to the methods.
pub data RevisionPointer : Type 0 where
  nil : RevisionPointer
  current_revision : RevisionPointer

pub record HelmProvider (T : Types) : Type 0 where
  pub cfg : Option Configuration
  pub chart : Option T.Chart
  pub settings : EnvSettings
  pub manager : Manager
  pub action_options : HelmActionOptions
  pub app_revision : RevisionPointer
  pub release_name : String
  pub chart_path : String
  pub value_files : List String
  pub chart_values : Option T.Values
  pub namespace : String

unfoldable pub new_helm_kubernetes_config : RestConfig → String → ConfigFlags
new_helm_kubernetes_config rest namespace = record {
  api_server = rest.host;
  bearer_token = rest.bearer_token;
  ca_file = rest.ca_file;
  cert_file = rest.cert_file;
  key_file = rest.key_file;
  namespace = namespace;
  insecure = rest.insecure;
}

-- h.logWithFields reads the revision's text through the pointer.
unfoldable pub log_with_fields : {S : Type 0} → RevisionPointer → Exec S (Unit {0})
log_with_fields nil = panics
log_with_fields current_revision = pure tt

-- `if err != nil { helm.logWithFields().Error(err); return nil, err }`
unfoldable pub check_logged : {S A : Type 0} → RevisionPointer → Returned A → Exec S A
unfolding log_with_fields
check_logged p (value a) = pure a
check_logged p (failed e) = do log_with_fields p; raise e

module _ {T : Types} (files : FilesLibrary T) (helm_lib : HelmLibrary T) (helm_debug : Bool) where
  unfoldable pub new_helm_settings : String → Exec T.World EnvSettings
  unfolding get_user_home
  new_helm_settings namespace = do
    home ← deref (get_user_home files)
    pure (record helm_lib.new_settings {
      debug = true;
      namespace = namespace;
      repository_cache = files.join (home ∷ ".cache" ∷ "helm" ∷ "repository" ∷ []);
    })

  unfoldable pub new_manager : String → EnvSettings → Manager
  new_manager chart_path settings = record {
    chart_path = chart_path;
    debug = helm_debug;
    repository_cache = settings.repository_cache;
  }

  -- NewHelmManager returns the manager beside the error of its update.
  unfoldable pub new_helm_manager :
      String → EnvSettings → Exec T.World (Manager × Returned (Unit {0}))
  unfolding new_manager
  new_helm_manager chart_path settings = do
    updated ← call (helm_lib.update (new_manager chart_path settings))
    pure (new_manager chart_path settings, updated)

  unfoldable pub new_helm_chart : Manager → String → Exec T.World T.Chart
  new_helm_chart manager chart_path = do
    must (helm_lib.update manager)
    must (helm_lib.load chart_path)

  unfoldable pub new_helm_chart_values : EnvSettings → List String → Exec T.World T.Values
  new_helm_chart_values settings value_files = must (helm_lib.merge_values settings value_files)

  -- The provider after the assignments that end with `helm.manager, err = NewHelmManager(...)`.
  unfoldable pub prepared :
      String → String → String → HelmProvider T → EnvSettings → Manager → HelmProvider T
  prepared release_name chart_path namespace helm settings manager = record helm {
    cfg = none;
    release_name = release_name;
    chart_path = chart_path;
    namespace = namespace;
    action_options = record (helm.action_options) { action_timeout = 360 };
    settings = record settings { namespace = namespace };
    manager = manager;
  }

  unfoldable pub new_helm_provider :
      String → String → String → HelmProvider T → RestConfig → Exec T.World (HelmProvider T)
  unfolding new_helm_settings new_helm_manager new_helm_chart new_helm_kubernetes_config prepared
      check_logged get_files_full_path
  new_helm_provider release_name chart_path namespace helm rest = do
    settings ← new_helm_settings namespace
    managed ← new_helm_manager chart_path (record settings { namespace = namespace })
    let h = prepared release_name chart_path namespace helm settings managed.0
    check_logged h.app_revision managed.1
    configured ←
        call (helm_lib.init_configuration (new_helm_kubernetes_config rest namespace) namespace)
    cfg ← check_logged h.app_revision configured
    let ready = record h {
      cfg = some cfg;
      app_revision = current_revision;
      value_files = get_files_full_path files chart_path h.value_files;
    }
    chart ← new_helm_chart ready.manager ready.chart_path
    pure (record ready { chart = some chart })
