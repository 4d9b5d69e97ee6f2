-- ===== src/Helm/Setup/Construction.antt =====
-- server/pkg/provider/helm.go, NewHelmProvider: what it makes, and how it fails.
use dummy_cd.Base.{String, Bool, [], ◌∷◌, ◌≡◌, true, some, arith}
use dummy_cd.Go.{Error, panic, failed}
use dummy_cd.Util.{get_user_home}
use dummy_cd.Libs.{Types}
use dummy_cd.Libs.Files.{FilesLibrary}
use dummy_cd.Libs.Charts.{RestConfig, HelmLibrary}
use dummy_cd.Helm.Setup.{
  HelmProvider, nil, new_helm_settings, new_manager, new_helm_manager, new_helm_provider,
}

module _ {T : Types} (files : FilesLibrary T) (helm_lib : HelmLibrary T) (helm_debug : Bool) where
  -- For a provider fresh from a request, on a machine with a home folder: where the dependencies
  -- cannot be updated, NewHelmProvider ends in a panic and not with that error, for the log reads the
  -- revision through a pointer that is still nil.
  pub new_helm_provider-panics :
      (release_name chart_path namespace home : String) (helm : HelmProvider T) (rest : RestConfig)
      (w : T.World) (e : Error)
      → helm.app_revision ≡ nil
      → get_user_home files ≡ some home
      → let settings = record (helm_lib.new_settings) {
        debug = true;
        namespace = namespace;
        repository_cache = files.join (home ∷ ".cache" ∷ "helm" ∷ "repository" ∷ []);
      } in
        (helm_lib.update (new_manager files helm_lib helm_debug chart_path settings) w).0 ≡ failed e
        → (new_helm_provider files helm_lib helm_debug release_name chart_path namespace helm rest
            w).0
          ≡ panic
  unfolding new_helm_provider new_helm_settings new_helm_manager
  new_helm_provider-panics release_name chart_path namespace home helm rest w e fresh at_home
        fails =
      ground arith
