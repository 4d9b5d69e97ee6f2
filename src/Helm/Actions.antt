-- ===== src/Helm/Actions.antt =====
-- server/pkg/provider/helm.go, the methods of HelmProvider that act on the cluster. The state is
-- the provider and the world; `revision` is what appRevision points to.
use dummy_cd.Base.{
  String, true, false, not, ◌&&◌, Option, none, some, List, [], ◌∷◌, ◌==◌, if◌then◌else◌,
}
use dummy_cd.Go.{Exec, Hash, pure, deref, gets, check, call, must, zoom, ◌>>=◌, ◌>>◌, modify}
use dummy_cd.Util.{pointer}
use dummy_cd.Libs.{Types}
use dummy_cd.Libs.Charts.{Release, InstallAction, UpgradeAction, UninstallAction, HelmLibrary}
use dummy_cd.Helm.Setup.{HelmProvider}

pub record HelmState (T : Types) : Type 0 where
  pub provider : HelmProvider T
  pub world : T.World

-- Code on the world alone, and a call of the library whose error is returned.
abbrev pub on_world : {T : Types} {A : Type 0} → Exec T.World A → Exec (HelmState T) A
on_world = zoom (λ s. s.world) (λ w s. record s { world = w })

-- The first release of the name, whatever its status is.
unfoldable pub find_release : {T : Types} → String → List (Release T) → Option (Release T)
find_release name [] = none
find_release name (r ∷ rest) = if r.name == name then some r else find_release name rest

module _ {T : Types} (helm_lib : HelmLibrary T) where
  unfoldable pub uninstall_action : HelmProvider T → UninstallAction
  uninstall_action h = record {
    timeout = h.action_options.action_timeout;
    wait = true;
    keep_history = false;
  }

  unfoldable pub uninstall : Exec (HelmState T) (Unit {0})
  unfolding uninstall_action
  uninstall = do
    h ← gets (λ s. s.provider)
    cfg ← deref h.cfg
    on_world (must (helm_lib.run_uninstall cfg (uninstall_action h) h.release_name))

  unfoldable pub get_current_release : Exec (HelmState T) (Option (Release T))
  unfolding find_release
  get_current_release = do
    h ← gets (λ s. s.provider)
    cfg ← deref h.cfg
    releases ← on_world (must (helm_lib.list_releases cfg))
    pure (find_release h.release_name releases)

  -- `h.chartValues, err = NewHelmChartValues(h.settings, &h.ValueFiles)`
  unfoldable pub refresh_values : Exec (HelmState T) (Unit {0})
  refresh_values = do
    h ← gets (λ s. s.provider)
    values ← on_world (call (helm_lib.merge_values h.settings h.value_files))
    modify (λ s. record s { provider = record (s.provider) { chart_values = pointer values } })
    check values
    pure tt

module _ {T : Types} (helm_lib : HelmLibrary T) (revision : Hash) where
  unfoldable pub install_action : HelmProvider T → InstallAction
  install_action h = record {
    release_name = h.release_name;
    namespace = h.namespace;
    wait = true;
    timeout = h.action_options.action_timeout;
    dependency_update = true;
    create_namespace = h.action_options.create_namespace;
    include_crds = h.action_options.include_crds;
    atomic = h.action_options.atomic;
    description = helm_lib.hash_string revision;
  }

  unfoldable pub upgrade_action : HelmProvider T → UpgradeAction
  upgrade_action h = record {
    namespace = h.namespace;
    install = true;
    cleanup_on_fail = true;
    timeout = h.action_options.action_timeout;
    skip_crds = not h.action_options.include_crds;
    wait = true;
    atomic = h.action_options.atomic;
    dependency_update = true;
    recreate = false;
    description = helm_lib.hash_string revision;
  }

  unfoldable pub install : Exec (HelmState T) (Unit {0})
  unfolding install_action
  install = do
    h ← gets (λ s. s.provider)
    cfg ← deref h.cfg
    on_world (must (helm_lib.run_install cfg (install_action h) h.chart h.chart_values))

  unfoldable pub upgrade : Exec (HelmState T) (Unit {0})
  unfolding upgrade_action
  upgrade = do
    h ← gets (λ s. s.provider)
    cfg ← deref h.cfg
    on_world
        (must (helm_lib.run_upgrade cfg (upgrade_action h) h.release_name h.chart h.chart_values))

  unfoldable pub load_helm_chart_with_values : Exec (HelmState T) (Unit {0})
  unfolding refresh_values
  load_helm_chart_with_values = do
    h ← gets (λ s. s.provider)
    on_world (must (helm_lib.update h.manager))
    loaded ← on_world (call (helm_lib.load h.chart_path))
    modify (λ s. record s { provider = record (s.provider) { chart = pointer loaded } })
    chart ← check loaded
    refresh_values helm_lib
    modify (λ s. record s {
      provider = record (s.provider) {
        chart = some (helm_lib.set_description (helm_lib.hash_string revision) chart);
      };
    })

  -- What follows `NewHelmChartValues` where a release exists.
  unfoldable pub deliver_over : Release T → Exec (HelmState T) (Unit {0})
  unfolding install upgrade uninstall
  deliver_over current = do
    h ← gets (λ s. s.provider)
    if helm_lib.description current.chart == helm_lib.hash_string revision
        then pure tt
        else if h.action_options.check_values_equal
            && helm_lib.deep_equal (helm_lib.default_values current.chart) h.chart_values
        then pure tt
        else if h.action_options.re_install_release
        then uninstall helm_lib >> install
        else upgrade

  unfoldable pub deliver : Option (Release T) → Exec (HelmState T) (Unit {0})
  unfolding install refresh_values deliver_over
  deliver none = install
  deliver (some current) = do refresh_values helm_lib; deliver_over current

  unfoldable pub delivery : Exec (HelmState T) (Unit {0})
  unfolding get_current_release load_helm_chart_with_values deliver
  delivery = do current ← get_current_release helm_lib; load_helm_chart_with_values; deliver current
