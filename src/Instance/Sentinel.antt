-- ===== src/Instance/Sentinel.antt =====
-- server/pkg/util/errors.go, NoErrAlreadyUpTodate: an error of the program's own, which no library
-- gives back. What comes of that for server/pkg/instance/application.go, NewApplication.
use dummy_cd.Base.{
  is_nil, String, ◌≢◌, true, false, Bool, Option, none, some, List, [], ◌∷◌, arith, if◌then◌else◌,
}
use dummy_cd.Go.{
  Error, no_err_already_up_todate, no_one_resource_file_found, Returned, value, failed, Result, ok,
  err, panic, blocked, Call, Exec, pure, raise, check, must, deref, continue, ◌>>=◌,
}
use dummy_cd.Libs.{Types}
use dummy_cd.Libs.Charts.{RestConfig}
use dummy_cd.Util.{find_files_with_regex}
use dummy_cd.Raw.Manifest.{new_unstructured_resource, new_unstructured_resources}
use dummy_cd.Raw.Provider.{
  get_resource_files, ensure_namespace, namespace_or_default, build_raw_provider, new_raw_provider,
}
use dummy_cd.Helm.Setup.{
  HelmProvider, RevisionPointer, check_logged, new_helm_settings, new_manager, prepared,
  new_helm_kubernetes_config, new_helm_manager, new_helm_chart, new_helm_provider,
}
use dummy_cd.Instance.{Libraries}
use dummy_cd.Instance.Remote.{open_cloned, new_git_repository}
use dummy_cd.Instance.Application.{ApplicationSpec, new_delivery_provider, new_application}

abbrev pub sentinel : Error
sentinel = no_err_already_up_todate

-- A call that does not give the sentinel back.
abbrev pub Foreign : {W A : Type 0} → Call W A → Type 0
Foreign {W = W} c = (w : W) → (c w).0 ≢ failed sentinel

-- No call of a library that NewApplication makes gives the sentinel back, nor does RemoveAll.
pub record IsOwn {T : Types} (libs : Libraries T) : Type 0 where
  pub remove_all : (path : String) → Foreign (libs.files.remove_all path)
  pub plain_clone : (path : _) (b : _) (o : _) → Foreign (libs.git.plain_clone path b o)
  pub plain_open : (path : String) → Foreign (libs.git.plain_open path)
  pub worktree : (r : T.Repository) → Foreign (libs.git.worktree r)
  pub checkout : (t : T.Worktree) (o : _) → Foreign (libs.git.checkout t o)
  pub update : (m : _) → Foreign (libs.helm.update m)
  pub load : (path : String) → Foreign (libs.helm.load path)
  pub init_configuration : (f : _) (ns : String) → Foreign (libs.helm.init_configuration f ns)
  pub new_client_set : (rest : RestConfig) → libs.kube.new_client_set rest ≢ failed sentinel
  pub new_dynamic_client : (rest : RestConfig) → libs.kube.new_dynamic_client rest ≢ failed sentinel
  pub get_namespace : (ns : String) → Foreign (libs.kube.get_namespace ns)
  pub create_namespace : (ns : String) → Foreign (libs.kube.create_namespace ns)

-- Code that never ends with the sentinel.
abbrev pub Never : {S A : Type 0} → Exec S A → Type 0
Never {S = S} m = (s : S) → (m s).0 ≢ err sentinel

module _ {S : Type 0} where
  continue-Never :
      {A B : Type 0} (r : Result A) (f : A → Exec S B) (s : S)
      → r ≢ err sentinel
      → ((a : A) → Never (f a))
      → (continue r f s).0 ≢ err sentinel
  continue-Never (ok a) f s k l h = l a s h
  continue-Never (err e) f s k l h = k (ground arith)
  continue-Never panic f s k l h = cc
  continue-Never blocked f s k l h = cc

  bind-Never :
      {A B : Type 0} (m : Exec S A) (f : A → Exec S B)
      → Never m
      → ((a : A) → Never (f a))
      → Never (m >>= f)
  bind-Never m f k l s = continue-Never (m s).0 f (m s).1 (k s) l

  check-Never : {A : Type 0} (r : Returned A) → r ≢ failed sentinel → Never {S = S} (check r)
  check-Never (value a) k s h = cc
  check-Never (failed e) k s h = k (ground arith)

  must-Never : {A : Type 0} (c : Call S A) → Foreign c → Never (must c)
  must-Never c k s = check-Never (c s).0 (k s) (c s).1

  pure-Never : {A : Type 0} (a : A) → Never {S = S} (pure a)
  pure-Never a s h = cc

  deref-Never : {A : Type 0} (o : Option A) → Never {S = S} (deref o)
  deref-Never none s h = cc
  deref-Never (some a) s h = cc

  check_logged-Never :
      {A : Type 0} (p : RevisionPointer) (r : Returned A)
      → r ≢ failed sentinel
      → Never {S = S} (check_logged p r)
  unfolding check_logged
  check_logged-Never p r k s h = ground (arith, k)

module _ {T : Types} {libs : Libraries T} (own : IsOwn libs) where
  open libs use {files, kube, git, helm as helm_lib, helm_debug}

  open_cloned-Never :
      (path : String) (r : Returned T.Repository)
      → r ≢ failed sentinel
      → Never (open_cloned libs path r)
  unfolding open_cloned
  open_cloned-Never path r k s h = ground (arith, k, own.plain_open path s)

  new_git_repository-Never : (path : _) (c : _) (o : _) → Never (new_git_repository libs path c o)
  unfolding new_git_repository
  new_git_repository-Never path c o w =
      bind-Never (λ v. open_cloned libs path (git.plain_clone path false c w).0 v) _
        (open_cloned-Never path _ (own.plain_clone path false c w))
        (λ repo. bind-Never (must (git.worktree repo)) _ (must-Never _ (own.worktree repo)) (λ t.
          bind-Never (must (git.checkout t o)) _ (must-Never _ (own.checkout t o))
            (λ _. pure-Never repo)))
        (git.plain_clone path false c w).1

  new_helm_settings-Never : (ns : String) → Never (new_helm_settings files helm_lib helm_debug ns)
  unfolding new_helm_settings
  new_helm_settings-Never ns w h = ground arith

  new_helm_chart-Never :
      (m : _) (path : String) → Never (new_helm_chart files helm_lib helm_debug m path)
  unfolding new_helm_chart
  new_helm_chart-Never m path =
      bind-Never (must (helm_lib.update m)) _ (must-Never _ (own.update m))
        (λ _. must-Never (helm_lib.load path) (own.load path))

  new_helm_provider-Never :
      (name path ns : String) (helm : HelmProvider T) (rest : RestConfig)
      → Never (new_helm_provider files helm_lib helm_debug name path ns helm rest)
  unfolding new_helm_provider new_helm_manager prepared
  new_helm_provider-Never name path ns helm rest =
      bind-Never (new_helm_settings files helm_lib helm_debug ns) _ (new_helm_settings-Never ns)
        (λ settings w.
          let updated =
            helm_lib.update
              (new_manager files helm_lib helm_debug path (record settings { namespace = ns })) w in
          bind-Never (check_logged helm.app_revision updated.0) _
            (check_logged-Never helm.app_revision updated.0 (own.update _ w))
            (λ _ v.
              let configured =
                helm_lib.init_configuration (new_helm_kubernetes_config rest ns) ns v in
              bind-Never (check_logged helm.app_revision configured.0) _
                (check_logged-Never helm.app_revision configured.0 (own.init_configuration _ ns v))
                (λ cfg.
                  bind-Never (new_helm_chart files helm_lib helm_debug _ path) _
                    (new_helm_chart-Never _ path) (λ _. pure-Never _))
                configured.1)
            updated.1)

  find_files_with_regex-Never : (root rx : String) → Never (find_files_with_regex files root rx)
  unfolding find_files_with_regex
  find_files_with_regex-Never root rx w h = ground arith

  new_unstructured_resource-Never :
      (path : String) → Never (new_unstructured_resource files kube path)
  unfolding new_unstructured_resource
  new_unstructured_resource-Never path w h = ground arith

  new_unstructured_resources-Never :
      (paths : List String) → Never (new_unstructured_resources files kube paths)
  unfolding new_unstructured_resources
  new_unstructured_resources-Never [] = pure-Never []
  new_unstructured_resources-Never (path ∷ paths) =
      bind-Never (new_unstructured_resource files kube path) _
        (new_unstructured_resource-Never path)
        (λ r.
          bind-Never (new_unstructured_resources files kube paths) _
            (new_unstructured_resources-Never paths) (λ _. pure-Never _))

  get_resource_files-Never : (path : String) → Never (get_resource_files files kube path)
  unfolding get_resource_files
  get_resource_files-Never path =
      bind-Never (find_files_with_regex files path _) _ (find_files_with_regex-Never path _)
        (λ _. pure-Never _)

  build_raw_provider-Never :
      (name path ns : String) (rest : RestConfig)
      → Never (build_raw_provider files kube name path ns rest)
  unfolding build_raw_provider
  build_raw_provider-Never name path ns rest =
      bind-Never (get_resource_files files kube path) _ (get_resource_files-Never path) (λ names.
        bind-Never (if is_nil names then raise no_one_resource_file_found else pure tt) _
          (some_file (is_nil names))
          (λ _.
            bind-Never (new_unstructured_resources files kube names) _
              (new_unstructured_resources-Never names) (λ _. pure-Never _)))
    where
      some_file :
          (b : Bool) → Never {S = T.World} (if b then raise no_one_resource_file_found else pure tt)
      some_file true w h = cc
      some_file false w h = cc

  ensure_namespace-Never :
      (ns : String) (r : Returned (Unit {0}))
      → r ≢ failed sentinel
      → Never (ensure_namespace files kube ns r)
  unfolding ensure_namespace
  ensure_namespace-Never ns r k w h = ground (arith, k, own.create_namespace ns w)

  new_raw_provider-Never :
      (name path ns : String) (rest : RestConfig)
      → Never (new_raw_provider files kube name path ns rest)
  unfolding new_raw_provider namespace_or_default
  new_raw_provider-Never name path ns rest =
      let space = namespace_or_default ns in
      bind-Never (check (kube.new_client_set rest)) _ (check-Never _ (own.new_client_set rest))
        (λ _ w.
          bind-Never (ensure_namespace files kube space (kube.get_namespace space w).0) _
            (ensure_namespace-Never space _ (own.get_namespace space w))
            (λ _.
              bind-Never (check (kube.new_dynamic_client rest)) _
                (check-Never _ (own.new_dynamic_client rest))
                (λ _. build_raw_provider-Never name path space rest))
            (kube.get_namespace space w).1)

  new_delivery_provider-Never :
      (app : ApplicationSpec T) (path : String) (rest : RestConfig) (chart : Returned Bool)
      → Never (new_delivery_provider libs app path rest chart)
  unfolding new_delivery_provider
  new_delivery_provider-Never app path rest (failed e) =
      bind-Never (new_raw_provider files kube app.name path app.namespace rest) _
        (new_raw_provider-Never app.name path app.namespace rest) (λ _. pure-Never _)
  new_delivery_provider-Never app path rest (value b) =
      bind-Never
        (new_helm_provider files helm_lib helm_debug app.name path app.namespace app.helm rest) _
        (new_helm_provider-Never app.name path app.namespace app.helm rest) (λ _. pure-Never _)

  -- An application that is not made is not answered with the sentinel.
  pub new_application-Never :
      (app : ApplicationSpec T) (rest : RestConfig) → Never (new_application libs app rest)
  unfolding new_application
  new_application-Never app rest =
      bind-Never (new_git_repository libs _ _ _) _ (new_git_repository-Never _ _ _) (λ repo w.
        bind-Never (new_delivery_provider libs app _ rest (helm_lib.is_chart_dir _ w).0) _
          (new_delivery_provider-Never app _ rest _) (λ _. pure-Never _)
          (helm_lib.is_chart_dir _ w).1)
