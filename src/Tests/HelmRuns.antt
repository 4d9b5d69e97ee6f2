-- ===== src/Tests/HelmRuns.antt =====
-- Runs of the helm provider in the small world.
use dummy_cd.Base.{String, ◌≡◌, refl, true, false, none, some, List, [], ◌∷◌, eq_refl, Holds}
use dummy_cd.Go.{Returned, panic, value, failed, other}
use dummy_cd.Util.{get_user_home}
use dummy_cd.Libs.Charts.{Configuration, HelmLibrary, Release}
use dummy_cd.Helm.Setup.{HelmProvider, nil, current_revision, new_helm_provider}
use dummy_cd.Helm.Setup.Construction.{new_helm_provider-panics}
use dummy_cd.Helm.Actions.{HelmState, find_release, delivery}
use dummy_cd.Helm.Delivery.{HelmLaws, IsDelivered, delivery-IsDelivered}
use dummy_cd.Helm.Delivery.Settled.{delivery-settled}
use dummy_cd.Tests.Toy.{toy, toy_files, toy_helm, toy_releases, toy_rest}

abbrev pub toy_cfg : Configuration
toy_cfg = record {
  flags = record {
    api_server = "";
    bearer_token = "";
    ca_file = "";
    cert_file = "";
    key_file = "";
    namespace = "web";
    insecure = false;
  };
  namespace = "web";
}

-- The small world behaves as the laws say; `lib` differs from it in what it loads.
module _ (loads : Returned String) where
  abbrev pub loading : HelmLibrary toy
  loading = record toy_helm { load = λ p w. (loads, w) }

  install_found :
      (n c : String) (w : List (String × String))
      → Holds
          (λ r. (r.chart ≡ c) × (r.is_deployed ≡ true))
          (find_release {T = toy} n (toy_releases ((n, c) ∷ w)))
  unfolding find_release
  install_found n c w = rw (eq_refl n) (refl, refl)

  read_back :
      (w : List (String × String)) {rs : List (Release toy)}
      → value (toy_releases w) ≡ value rs
      → rs ≡ toy_releases w
  read_back w h = cc

  pub loading_laws : HelmLaws loading toy_cfg
  loading_laws = record {
    releases = toy_releases;
    list_reads = λ w h. read_back w h;
    list_keeps = λ w. refl;
    update_keeps = λ w m. refl;
    load_keeps = λ w p. refl;
    merge_keeps = λ w e fs. refl;
    install_deploys = λ w a c v h. install_found a.release_name c w;
    upgrade_deploys = λ w a name c v h. install_found name c w;
    description_set = λ d c. refl;
  }

abbrev pub requested : HelmProvider toy
requested = record {
  cfg = none;
  chart = none;
  settings = record { debug = false; namespace = ""; repository_cache = "" };
  manager = record { chart_path = ""; debug = false; repository_cache = "" };
  action_options = record {
    check_values_equal = false;
    re_install_release = false;
    create_namespace = true;
    atomic = true;
    include_crds = false;
    action_timeout = 0;
  };
  app_revision = nil;
  release_name = "";
  chart_path = "";
  value_files = "values.yaml" ∷ [];
  chart_values = none;
  namespace = "";
}

abbrev pub ready : HelmProvider toy
ready = record requested {
  cfg = some toy_cfg;
  app_revision = current_revision;
  release_name = "web";
  namespace = "web";
}

-- The release of an older revision is upgraded to the one whose hash is 7.
abbrev outdated : HelmState toy
outdated = record { provider = ready; world = ("web", "older") ∷ [] }

abbrev delivered : HelmState toy
delivered = record { provider = ready; world = ("web", "seven") ∷ [] }

delivery_upgrades :
    (delivery toy_helm 7 outdated).1.world ≡ ("web", "seven") ∷ ("web", "older") ∷ []
unfolding delivery find_release
delivery_upgrades = refl

delivery-IsDelivered_example :
    IsDelivered
      (loading_laws (value "loaded"))
      7
      outdated
      (delivery (loading (value "loaded")) 7 outdated).1
unfolding delivery find_release
delivery-IsDelivered_example =
    delivery-IsDelivered (loading_laws (value "loaded")) 7 outdated refl refl

delivery-settled_example :
    toy_releases (delivery (loading (value "loaded")) 7 delivered).1.world
    ≡ toy_releases (("web", "seven") ∷ [])
unfolding loading_laws find_release
delivery-settled_example = delivery-settled (loading_laws (value "loaded")) 7 delivered refl refl

abbrev unloaded : Returned String
unloaded = failed (other "no chart")

abbrev offline : HelmLibrary toy
offline = record toy_helm { update = λ m w. (failed (other "offline"), w) }

new_helm_provider-panics_example :
    (new_helm_provider toy_files offline true "web" "/storage/web" "web" requested toy_rest []).0
    ≡ panic
unfolding get_user_home
new_helm_provider-panics_example =
    new_helm_provider-panics toy_files offline true "web" "/storage/web" "web" "/root" requested
      toy_rest [] (other "offline") refl refl refl
