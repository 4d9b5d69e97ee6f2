-- ===== src/Instance/Application.antt =====
-- server/pkg/instance/application.go and provider/interface.go: an application, how it is made, and
-- the calls of its delivery provider.
use Prim.Native.String.{◌++◌ as append}
use dummy_cd.Base.{String, Bool, true, false, [], ◌∷◌, ◌==◌, if◌then◌else◌}
use dummy_cd.Go.{
  Returned, value, failed, Exec, Hash, zero_hash, pure, call, must, zoom, gets, ◌>>=◌, ◌>>◌,
}
use dummy_cd.Libs.{Types}
use dummy_cd.Libs.Charts.{RestConfig}
use dummy_cd.Libs.Git.{CloneOptions, FetchOptions, PullOptions, CheckoutOptions}
use dummy_cd.Helm.Setup.{HelmProvider, new_helm_provider}
use dummy_cd.Helm.Actions
use dummy_cd.Raw.Provider.{RawProvider, new_raw_provider}
use dummy_cd.Raw.Provider
use dummy_cd.Raw.Cleanup
use dummy_cd.Instance.{Libraries}
use dummy_cd.Instance.Remote.{
  Remote, get_clone_options, get_fetch_options, get_pull_options, new_git_repository,
}
use text.Mathlib.Text.{starts_with}

-- The fields of Application that a request sets.
pub record ApplicationSpec (T : Types) : Type 0 where
  pub name : String
  pub namespace : String
  pub url : String
  pub reference : String
  pub sparse_path : String
  pub remote : Remote T
  pub helm : HelmProvider T

-- The implementations of the interface DeliveryProvider.
pub data DeliveryProvider (T : Types) : Type 0 where
  helm_provider : HelmProvider T → DeliveryProvider T
  raw_provider : RawProvider T → DeliveryProvider T

-- `held` is that the mutex is held. The field Helm is the provider where that is a helm provider.
pub record Application (T : Types) : Type 0 where
  pub spec : ApplicationSpec T
  pub open spec use *
  pub storage_path : String
  pub handled_path : String
  pub current_revision : Hash
  pub clone_options : CloneOptions T
  pub checkout_options : CheckoutOptions
  pub pull_options : PullOptions T
  pub fetch_options : FetchOptions T
  pub log_options : String → Bool
  pub repo : T.Repository
  pub held : Bool
  pub delivery_provider : DeliveryProvider T

abbrev pub local_reference_name : String → String
local_reference_name reference = append "refs/heads/" reference

abbrev pub remote_reference_name : String → String
remote_reference_name reference = append "refs/remotes/origin/" reference

-- The PathFilter of the log.
unfoldable pub path_filter : String → String → Bool
path_filter sparse_path s = if sparse_path == "" then true else starts_with s sparse_path

unfoldable pub checkout_options_of : String → String → CheckoutOptions
checkout_options_of sparse_path reference_name = record {
  sparse_checkout_directories = sparse_path ∷ [];
  keep = false;
  branch = reference_name;
  force = true;
}

module _ {T : Types} (libs : Libraries T) where
  open libs use {files, helm as helm_lib, kube, git, helm_debug, workspace}

  -- What NewApplication does with the answer of IsChartDir: no chart is delivered as raw resources.
  unfoldable pub new_delivery_provider :
      ApplicationSpec T → String → RestConfig → Returned Bool → Exec T.World (DeliveryProvider T)
  new_delivery_provider app handled_path rest (failed e) = do
    p ← new_raw_provider files kube app.name handled_path app.namespace rest
    pure (raw_provider p)
  new_delivery_provider app handled_path rest (value _) = do
    p ←
        new_helm_provider files helm_lib helm_debug app.name handled_path app.namespace app.helm
          rest
    pure (helm_provider p)

  unfoldable pub new_application : ApplicationSpec T → RestConfig → Exec T.World (Application T)
  unfolding new_delivery_provider path_filter checkout_options_of get_clone_options
      get_fetch_options get_pull_options
  new_application app rest = do
    let storage_path = files.join (workspace ∷ app.name ∷ [])
    let handled_path = files.join (storage_path ∷ app.sparse_path ∷ [])
    let reference_name = local_reference_name app.reference
    let checkout_options = checkout_options_of app.sparse_path reference_name
    let clone_options = get_clone_options app.remote reference_name
    repo ← new_git_repository libs storage_path clone_options checkout_options
    chart ← call (helm_lib.is_chart_dir handled_path)
    provider ← new_delivery_provider app handled_path rest chart
    pure (record {
      spec = app;
      storage_path = storage_path;
      handled_path = handled_path;
      current_revision = zero_hash;
      clone_options = clone_options;
      checkout_options = checkout_options;
      pull_options = get_pull_options app.remote reference_name;
      fetch_options = get_fetch_options app.remote;
      log_options = path_filter app.sparse_path;
      repo = repo;
      held = false;
      delivery_provider = provider;
    })

pub record AppState (T : Types) : Type 0 where
  pub app : Application T
  pub world : T.World

abbrev pub on_world : {T : Types} {A : Type 0} → Exec T.World A → Exec (AppState T) A
on_world = zoom (λ s. s.world) (λ w s. record s { world = w })

module _ {T : Types} (libs : Libraries T) where
  open libs use {files, helm as helm_lib, kube}

  abbrev keep_provider : AppState T → DeliveryProvider T → T.World → AppState T
  keep_provider s p w = record { app = record (s.app) { delivery_provider = p }; world = w }

  -- a.deliveryProvider.Delivery(), by the provider's type.
  unfoldable pub provider_delivery : DeliveryProvider T → Exec (AppState T) (Unit {0})
  provider_delivery (helm_provider p) s =
      let (r, t) =
        Actions.delivery helm_lib s.app.current_revision
          (record { provider = p; world = s.world }) in
      (r, keep_provider s (helm_provider t.provider) t.world)
  provider_delivery (raw_provider p) s =
      let (r, t) =
        Provider.delivery files kube (helm_lib.hash_string s.app.current_revision)
          (record { provider = p; world = s.world }) in
      (r, keep_provider s (raw_provider t.provider) t.world)

  unfoldable pub deliver : Exec (AppState T) (Unit {0})
  deliver s = provider_delivery s.app.delivery_provider s

  -- a.deliveryProvider.Uninstall()
  unfoldable pub provider_uninstall : DeliveryProvider T → Exec (AppState T) (Unit {0})
  provider_uninstall (helm_provider p) s =
      let (r, t) = Actions.uninstall helm_lib (record { provider = p; world = s.world }) in
      (r, keep_provider s (helm_provider t.provider) t.world)
  provider_uninstall (raw_provider p) s =
      let (r, t) =
        Cleanup.uninstall kube s.app.current_revision (helm_lib.hash_string s.app.current_revision)
          (record { provider = p; world = s.world }) in
      (r, keep_provider s (raw_provider t.provider) t.world)

  unfoldable pub uninstall_provider : Exec (AppState T) (Unit {0})
  uninstall_provider s = provider_uninstall s.app.delivery_provider s

  -- Application.Uninstall
  unfoldable pub uninstall : Exec (AppState T) (Unit {0})
  unfolding uninstall_provider
  uninstall = do
    uninstall_provider
    a ← gets (λ s. s.app)
    on_world (must (files.remove_all a.storage_path))
