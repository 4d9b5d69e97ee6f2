-- ===== src/Server/Messages.antt =====
-- server/pkg/server/server.go: how the handlers read a message and reach a repository.
use dummy_cd.Base.{String, false, none, List, [], ◌∷◌, ◌==◌, if◌then◌else◌}
use dummy_cd.Go.{no_err_already_up_todate, Returned, value, failed, Result, ok, err, Exec}
use dummy_cd.Libs.{Types}
use dummy_cd.Helm.Setup.{HelmProvider, nil}
use dummy_cd.Instance.Remote.{Remote, RepositorySettings}
use dummy_cd.Instance.Application.{ApplicationSpec}
use dummy_cd.Instance.Repository.{RepositoryConfig, RepoState}
use dummy_cd.Instance.Handler.{HandlerState}
use dummy_cd.Pb
use dummy_cd.Pb.{get_helm}

unfoldable pub settings_of : Pb.Repository → RepositorySettings
settings_of repo = record {
  url = repo.url;
  private_key_secret = repo.private_key_secret;
  insecure_ignore_host_key = repo.insecure_ignore_host_key;
}

-- An application that is up to date is no error of the handler.
unfoldable pub up_to_date_is_ok {ℓ} : {S : Type ℓ} → Returned (Unit {0}) → S → Result (Unit {0}) × S
up_to_date_is_ok (value _) s = (ok tt, s)
up_to_date_is_ok (failed no_err_already_up_todate) s = (ok tt, s)
up_to_date_is_ok (failed e) s = (err e, s)

module _ {T : Types} where
  -- Code on the first repository of a URL, whose pointer the caller has found. Where there is none
  -- it does nothing.
  unfoldable pub replace_first :
      String → RepositoryConfig T → List (RepositoryConfig T) → List (RepositoryConfig T)
  replace_first url r' [] = []
  replace_first url r' (r ∷ rest) =
      if r.settings.url == url then r' ∷ rest else r ∷ replace_first url r' rest

  unfoldable pub on_repository :
      {A : Type 0} → String → RepositoryConfig T → Exec (RepoState T) A → Exec (HandlerState T) A
  on_repository url r m s =
      let done = m (record { repository = r; world = s.world }) in
      (
        done.0,
        record {
          handler = record (s.handler) {
            repos = replace_first url done.1.repository s.handler.repos;
          };
          world = done.1.world;
        },
      )

  unfoldable pub helm_provider_of : Pb.HelmProvider → HelmProvider T
  helm_provider_of h = record {
    cfg = none;
    chart = none;
    settings = record { debug = false; namespace = ""; repository_cache = "" };
    manager = record { chart_path = ""; debug = false; repository_cache = "" };
    action_options = record {
      check_values_equal = h.check_values_equal;
      re_install_release = h.re_install_release;
      create_namespace = h.create_namespace;
      atomic = h.atomic;
      include_crds = h.include_crds;
      action_timeout = 0;
    };
    app_revision = nil;
    release_name = "";
    chart_path = "";
    value_files = h.values_files;
    chart_values = none;
    namespace = "";
  }

  unfoldable pub spec_of : Pb.Application → Remote T → ApplicationSpec T
  unfolding helm_provider_of get_helm
  spec_of app remote = record {
    name = app.name;
    namespace = app.namespace;
    url = app.url;
    reference = app.reference;
    sparse_path = app.sparse_path;
    remote = remote;
    helm = helm_provider_of (get_helm app.helm);
  }
