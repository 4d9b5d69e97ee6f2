-- ===== src/Helm/Delivery.antt =====
-- server/pkg/provider/helm.go, Delivery: what it leaves in the cluster. The helm library is known
-- by its documented behaviour, stated over the releases that it lists.
pub mod Settled
use dummy_cd.Base.{
  sym, ap, ◌∙◌, subst, String, ◌≡◌, ◌⊎◌, inl, inr, true, Option, none, some, List, arith, eq_iff,
  Option-cases, Holds,
}
use dummy_cd.Go.{Error, Returned, Returned-cases, Hash, ◌>>◌, value, ok, err}
use dummy_cd.Libs.{Types}
use dummy_cd.Libs.Charts.{Configuration, Release, InstallAction, UpgradeAction, HelmLibrary}
use dummy_cd.Helm.Setup.{HelmProvider}
use dummy_cd.Helm.Actions.{
  HelmState, install_action, upgrade_action, install, upgrade, uninstall, find_release,
  get_current_release, refresh_values, load_helm_chart_with_values, deliver_over, deliver, delivery,
}

-- The documented behaviour of the library for one configuration. `releases` is what List answers, of
-- every status; an install or an upgrade that succeeds leaves a release with the status `deployed`.
pub record HelmLaws {T : Types} (helm_lib : HelmLibrary T) (cfg : Configuration) : Type 0 where
  pub releases : T.World → List (Release T)
  pub list_reads :
      (w : T.World) {rs : List (Release T)}
      → (helm_lib.list_releases cfg w).0 ≡ value rs
      → rs ≡ releases w
  pub list_keeps : (w : T.World) → releases (helm_lib.list_releases cfg w).1 ≡ releases w
  pub update_keeps : (w : T.World) (m : _) → releases (helm_lib.update m w).1 ≡ releases w
  pub load_keeps : (w : T.World) (p : String) → releases (helm_lib.load p w).1 ≡ releases w
  pub merge_keeps :
      (w : T.World) (e : _) (fs : List String)
      → releases (helm_lib.merge_values e fs w).1 ≡ releases w
  pub install_deploys :
      (w : T.World) (a : InstallAction) (c : T.Chart) (v : Option T.Values)
      → (helm_lib.run_install cfg a (some c) v w).0 ≡ value tt
      → Holds
          (λ r. (r.chart ≡ c) × (r.is_deployed ≡ true))
          (find_release a.release_name (releases (helm_lib.run_install cfg a (some c) v w).1))
  pub upgrade_deploys :
      (w : T.World) (a : UpgradeAction) (name : String) (c : T.Chart) (v : Option T.Values)
      → (helm_lib.run_upgrade cfg a name (some c) v w).0 ≡ value tt
      → Holds
          (λ r. (r.chart ≡ c) × (r.is_deployed ≡ true))
          (find_release name (releases (helm_lib.run_upgrade cfg a name (some c) v w).1))
  pub description_set :
      (d : String) (c : T.Chart) → helm_lib.description (helm_lib.set_description d c) ≡ d

module _ {T : Types} {helm_lib : HelmLibrary T} {cfg : Configuration}
    (laws : HelmLaws helm_lib cfg) where
  open laws use {releases}

  -- The reads of Delivery leave the releases alone.
  load_keeps_releases :
      (rev : Hash) (s : HelmState T)
      → releases (load_helm_chart_with_values helm_lib rev s).1.world ≡ releases s.world
  unfolding load_helm_chart_with_values
  load_keeps_releases rev s = grind (arith, laws.update_keeps, laws.load_keeps, laws.merge_keeps)

  -- What Load answers for the chart's path, once the list of the releases has been read and the
  -- chart's dependencies have been updated.
  abbrev pub load_answer : HelmState T → Returned T.Chart
  load_answer s =
      let listed = (helm_lib.list_releases cfg s.world).1 in
      (helm_lib.load s.provider.chart_path (helm_lib.update s.provider.manager listed).1).0

  -- After the reads the provider holds the chart that was loaded, marked with the revision.
  load_marks :
      (rev : Hash) (s : HelmState T)
      → (load_helm_chart_with_values helm_lib rev s).0 ≡ ok tt
      → (c : T.Chart) × ((helm_lib.load s.provider.chart_path
            (helm_lib.update s.provider.manager s.world).1).0
          ≡ value c)
        × ((load_helm_chart_with_values helm_lib rev s).1.provider.chart
            ≡ some (helm_lib.set_description (helm_lib.hash_string rev) c))
  unfolding load_helm_chart_with_values
  load_marks rev s h =
      elim (Returned-cases
        (helm_lib.load s.provider.chart_path (helm_lib.update s.provider.manager s.world).1).0) [
          | inl (c, e) ↦ (c, e, ground arith)
          | inr (x, e) ↦ ground arith
        ]

  load_static :
      (rev : Hash) (s : HelmState T)
      → let t = (load_helm_chart_with_values helm_lib rev s).1 in
        (t.provider.cfg ≡ s.provider.cfg)
        × (t.provider.release_name ≡ s.provider.release_name)
        × (t.provider.action_options ≡ s.provider.action_options)
  unfolding load_helm_chart_with_values
  load_static rev s = ground arith

  -- The release of the application's name.
  abbrev pub current : HelmState T → Option (Release T)
  current s = find_release s.provider.release_name (releases s.world)

  -- The lookup of the release fails, or finds the release of the name.
  get_cases :
      (s : HelmState T)
      → s.provider.cfg ≡ some cfg
      → ((get_current_release helm_lib s).0 ≡ ok (current s))
        ⊎ ((e : Error) × ((get_current_release helm_lib s).0 ≡ err e))
  unfolding get_current_release
  get_cases s c = elim (Returned-cases (helm_lib.list_releases cfg s.world).0) [
    | inl (rs, e) ↦ inl (ground (arith, laws.list_reads s.world e))
    | inr (x, e) ↦ inr (x, ground arith)
  ]

  get_keeps :
      (s : HelmState T)
      → s.provider.cfg ≡ some cfg
      → (releases (get_current_release helm_lib s).1.world ≡ releases s.world)
        × ((get_current_release helm_lib s).1.provider ≡ s.provider)
        × ((get_current_release helm_lib s).1.world ≡ (helm_lib.list_releases cfg s.world).1)
  unfolding get_current_release
  get_keeps s c = grind (arith, laws.list_keeps)

  -- The release of the name has the status `deployed` and holds the chart.
  abbrev pub Holding : T.Chart → HelmState T → Type 0
  Holding c s = Holds (λ r. (r.chart ≡ c) × (r.is_deployed ≡ true)) (current s)

  -- The release is to be left: it is marked with the revision, or, with the option checkValuesEqual,
  -- its chart has the values.
  abbrev pub IsLeft : Hash → Release T → HelmProvider T → Type 0
  IsLeft rev r p =
      (helm_lib.description r.chart ≡ helm_lib.hash_string rev)
      ⊎ ((p.action_options.check_values_equal ≡ true)
          × (helm_lib.deep_equal (helm_lib.default_values r.chart) p.chart_values ≡ true))

  -- From `s` a Delivery has come to `t`: there the release holds the chart that was loaded, marked with
  -- the revision; or the releases are those of `s`, of which the application's is to be left.
  abbrev pub IsDelivered : Hash → HelmState T → HelmState T → Type 0
  IsDelivered rev s t =
      ((c : T.Chart) × (load_answer s ≡ value c)
        × Holding (helm_lib.set_description (helm_lib.hash_string rev) c) t)
      ⊎ ((releases t.world ≡ releases s.world) × Holds (λ r. IsLeft rev r t.provider) (current s))

  module _ (rev : Hash) (s : HelmState T) (configured : s.provider.cfg ≡ some cfg) (c : T.Chart)
      (loaded : s.provider.chart ≡ some c) where
    install_delivers : (install helm_lib rev s).0 ≡ ok tt → Holding c (install helm_lib rev s).1
    unfolding install install_action
    install_delivers h = grind (arith, laws.install_deploys)

    upgrade_delivers : (upgrade helm_lib rev s).0 ≡ ok tt → Holding c (upgrade helm_lib rev s).1
    unfolding upgrade upgrade_action
    upgrade_delivers h = grind (arith, laws.upgrade_deploys)

  uninstall_static : (s : HelmState T) → (uninstall helm_lib s).1.provider ≡ s.provider
  unfolding uninstall
  uninstall_static s = ground arith

  reinstall_delivers :
      (rev : Hash) (s : HelmState T) (c : T.Chart)
      → s.provider.cfg ≡ some cfg
      → s.provider.chart ≡ some c
      → ((uninstall helm_lib >> install helm_lib rev) s).0 ≡ ok tt
      → Holding c ((uninstall helm_lib >> install helm_lib rev) s).1
  reinstall_delivers rev s c e f h =
      grind (arith, uninstall_static s, install_delivers rev (uninstall helm_lib s).1)

  deliver_over_delivers :
      (rev : Hash) (s : HelmState T) (r : Release T) (c : T.Chart)
      → s.provider.cfg ≡ some cfg
      → s.provider.chart ≡ some c
      → (deliver_over helm_lib rev r s).0 ≡ ok tt
      → Holding c (deliver_over helm_lib rev r s).1
        ⊎ (((deliver_over helm_lib rev r s).1 ≡ s) × IsLeft rev r s.provider)
  unfolding deliver_over
  deliver_over_delivers rev s r c e f h = ground (
    arith,
    eq_iff (helm_lib.description r.chart) (helm_lib.hash_string rev),
    reinstall_delivers rev s c e f,
    upgrade_delivers rev s e c f,
  )

  refresh_static :
      (s : HelmState T)
      → let t = (refresh_values helm_lib s).1 in
        (t.provider.cfg ≡ s.provider.cfg)
        × (t.provider.release_name ≡ s.provider.release_name)
        × (t.provider.chart ≡ s.provider.chart)
        × (releases t.world ≡ releases s.world)
  unfolding refresh_values
  refresh_static s = grind (arith, laws.merge_keeps)

  -- What a delivery over the release that was found has come to.
  abbrev Left : Hash → Option (Release T) → HelmState T → HelmState T → Type 0
  Left rev o s t = (releases t.world ≡ releases s.world) × Holds (λ r. IsLeft rev r t.provider) o

  deliver_delivers :
      (rev : Hash) (s : HelmState T) (o : Option (Release T)) (c : T.Chart)
      → s.provider.cfg ≡ some cfg
      → s.provider.chart ≡ some c
      → (deliver helm_lib rev o s).0 ≡ ok tt
      → Holding c (deliver helm_lib rev o s).1 ⊎ Left rev o s (deliver helm_lib rev o s).1
  unfolding deliver
  deliver_delivers rev s none c e f h = inl (install_delivers rev s e c f h)
  deliver_delivers rev s (some r) c e f h =
      ground (arith, refresh_static s, deliver_over_delivers rev (refresh_values helm_lib s).1 r c)

  delivery-parts :
      (rev : Hash) (s : HelmState T)
      → s.provider.cfg ≡ some cfg
      → (delivery helm_lib rev s).0 ≡ ok tt
      → let g = (get_current_release helm_lib s).1 in
        let l = load_helm_chart_with_values helm_lib rev g in
        (l.0 ≡ ok tt)
        × ((deliver helm_lib rev (current s) l.1).0 ≡ ok tt)
        × ((delivery helm_lib rev s).1 ≡ (deliver helm_lib rev (current s) l.1).1)
  unfolding delivery
  delivery-parts rev s c h = ground (arith, get_cases s c)

  -- With a helm library as HelmLaws says, for the provider's configuration: a Delivery that succeeds
  -- leaves a release of the application's name with the status `deployed`, whose chart is the one that
  -- was loaded in it from the chart's path, marked with the revision. Or it leaves every release as it
  -- is, whatever its status, and the release of the name is marked with the revision already, or, with
  -- the option checkValuesEqual, its chart has the requested values.
  pub delivery-IsDelivered :
      (rev : Hash) (s : HelmState T)
      → s.provider.cfg ≡ some cfg
      → (delivery helm_lib rev s).0 ≡ ok tt
      → IsDelivered rev s (delivery helm_lib rev s).1
  delivery-IsDelivered rev s configured h =
      let g = (get_current_release helm_lib s).1 in
      let l = (load_helm_chart_with_values helm_lib rev g).1 in
      let (loads, delivers, same) = delivery-parts rev s configured h in
      let (c, read, marked) = load_marks rev g loads in
      let (kept, provider_kept, world_kept) = get_keeps s configured in
      let reads =
        ap (λ v. (helm_lib.load s.provider.chart_path (helm_lib.update s.provider.manager v).1).0)
          (sym world_kept)
        ∙ ap (λ p. (helm_lib.load p.chart_path (helm_lib.update p.manager g.world).1).0)
            (sym provider_kept) in
      let cfg_kept = (load_static rev g).0 ∙ ap (λ p. p.cfg) provider_kept ∙ configured in
      let at_load = load_keeps_releases rev g ∙ kept in
      subst (IsDelivered rev s) (sym same)
        (elim (deliver_delivers rev l (current s)
          (helm_lib.set_description (helm_lib.hash_string rev) c) cfg_kept marked delivers) [
            | inl new ↦ inl (c, reads ∙ read, new)
            | inr (left, settled) ↦ inr (left ∙ at_load, settled)
          ])
