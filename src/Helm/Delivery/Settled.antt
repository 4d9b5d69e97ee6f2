-- ===== src/Helm/Delivery/Settled.antt =====
-- server/pkg/provider/helm.go, Delivery: when the releases of the cluster stay as they are.
use dummy_cd.Base.{◌≡◌, some, arith, eq_iff, Option-cases, inl, inr, Holds}
use dummy_cd.Go.{Error, Hash, ok, err}
use dummy_cd.Libs.{Types}
use dummy_cd.Libs.Charts.{Configuration, Release, HelmLibrary}
use dummy_cd.Helm.Actions.{
  HelmState, get_current_release, refresh_values, load_helm_chart_with_values, deliver_over,
  deliver, delivery,
}
use dummy_cd.Helm.Delivery.{
  HelmLaws, current, get_keeps, get_cases, load_keeps_releases, refresh_static,
}

module _ {T : Types} {helm_lib : HelmLibrary T} {cfg : Configuration}
    (laws : HelmLaws helm_lib cfg) where
  open laws use {releases}

  over-settled :
      (rev : Hash) (s : HelmState T) (r : Release T)
      → helm_lib.description r.chart ≡ helm_lib.hash_string rev
      → deliver_over helm_lib rev r s ≡ (ok tt, s)
  unfolding deliver_over
  over-settled rev s r e =
      ground (arith, eq_iff (helm_lib.description r.chart) (helm_lib.hash_string rev))

  deliver-settled :
      (rev : Hash) (s : HelmState T) (r : Release T)
      → helm_lib.description r.chart ≡ helm_lib.hash_string rev
      → releases (deliver helm_lib rev (some r) s).1.world ≡ releases s.world
  unfolding deliver
  deliver-settled rev s r e =
      ground (arith, refresh_static laws s, over-settled rev (refresh_values helm_lib s).1 r e)

  -- With a helm library as HelmLaws says, for the provider's configuration: where the application's
  -- release holds the chart of the revision, Delivery leaves every release as it is, whether it
  -- succeeds or fails.
  pub delivery-settled :
      (rev : Hash) (s : HelmState T)
      → s.provider.cfg ≡ some cfg
      → Holds (λ r. helm_lib.description r.chart ≡ helm_lib.hash_string rev) (current laws s)
      → releases (delivery helm_lib rev s).1.world ≡ releases s.world
  unfolding delivery
  delivery-settled rev s c h = elim (Option-cases (current laws s)) [
    | inl e ↦ ground arith
    | inr (r, e) ↦
        let g = get_current_release helm_lib s in
        let l = load_helm_chart_with_values helm_lib rev g.1 in
        ground (
          arith,
          get_keeps laws s c,
          get_cases laws s c,
          load_keeps_releases laws rev g.1,
          deliver-settled rev l.1 r,
        )
  ]

  -- With a helm library as HelmLaws says, for the provider's configuration: where the releases can be
  -- listed and the chart or its values cannot be read, Delivery ends with that error and leaves every
  -- release as it is.
  pub delivery_unread :
      (rev : Hash) (s : HelmState T) (e : Error)
      → s.provider.cfg ≡ some cfg
      → (get_current_release helm_lib s).0 ≡ ok (current laws s)
      → let g = (get_current_release helm_lib s).1 in
        (load_helm_chart_with_values helm_lib rev g).0 ≡ err e
        → ((delivery helm_lib rev s).0 ≡ err e)
          × (releases (delivery helm_lib rev s).1.world ≡ releases s.world)
  unfolding delivery
  delivery_unread rev s e c listed unread =
      ground
        (arith, get_keeps laws s c, load_keeps_releases laws rev (get_current_release helm_lib s).1)
