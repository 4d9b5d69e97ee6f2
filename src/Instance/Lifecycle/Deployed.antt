-- ===== src/Instance/Lifecycle/Deployed.antt =====
-- server/pkg/instance/application.go with provider/helm.go: what is deployed when a run of the life
-- cycle has moved the revision.
use dummy_cd.Base.{◌≡◌, ◌≢◌, ◌⊎◌, refl, ap, sym, ◌∙◌, subst, true, inl, inr, some}
use dummy_cd.Go.{is_zero, ok}
use dummy_cd.Libs.{Types}
use dummy_cd.Libs.Charts.{Configuration}
use dummy_cd.Helm.Setup.{HelmProvider}
use dummy_cd.Helm.Actions.{HelmState, delivery}
use dummy_cd.Helm.Delivery.{HelmLaws, IsDelivered, delivery-IsDelivered}
use dummy_cd.Instance.{Libraries}
use dummy_cd.Instance.Application.{AppState, helm_provider, provider_delivery, deliver}
use dummy_cd.Instance.Lifecycle.{run_life_cycle}
use dummy_cd.Instance.Lifecycle.Revision.{deliver-keeps}
use dummy_cd.Instance.Lifecycle.Refs.{GitLaws, newest, remote_tip, IsOnBranch, IsInStep}
use dummy_cd.Instance.Lifecycle.InStep.{run_life_cycle-EndsAt}

module _ {T : Types} (libs : Libraries T) {cfg : Configuration}
    (helm_laws : HelmLaws libs.helm cfg) where
  -- From `s`, whose helm provider is `p`, a Delivery of the application's revision has come to `t`.
  abbrev pub IsDeployed : HelmProvider T → AppState T → AppState T → Type 0
  IsDeployed p s t =
      (q : HelmProvider T) × (t.app.delivery_provider ≡ helm_provider q)
      × IsDelivered helm_laws t.app.current_revision (record { provider = p; world = s.world })
          (record { provider = q; world = t.world })

  provider_delivery-IsDeployed :
      (s : AppState T) (p : HelmProvider T)
      → p.cfg ≡ some cfg
      → (provider_delivery libs (helm_provider p) s).0 ≡ ok tt
      → IsDeployed p s (provider_delivery libs (helm_provider p) s).1
  unfolding provider_delivery
  provider_delivery-IsDeployed s p c h =
      let start : HelmState T = record { provider = p; world = s.world } in
      (
        (delivery libs.helm s.app.current_revision start).1.provider,
        refl,
        delivery-IsDelivered helm_laws s.app.current_revision start c h,
      )

  deliver-IsDeployed :
      (s : AppState T) (p : HelmProvider T)
      → s.app.delivery_provider ≡ helm_provider p
      → p.cfg ≡ some cfg
      → (deliver libs s).0 ≡ ok tt
      → IsDeployed p s (deliver libs s).1
  unfolding deliver
  deliver-IsDeployed s p e c =
      subst
        (λ q.
          (provider_delivery libs q s).0 ≡ ok tt → IsDeployed p s (provider_delivery libs q s).1)
        (sym e) (provider_delivery-IsDeployed s p c)

  -- With git as GitLaws says, for the application's repository, with the branch of its reference
  -- checked out, and a helm library as HelmLaws says, for the configuration of its helm provider.
  -- Before the run there is no revision, or the local branch is where the remote branch was last seen
  -- and the revision is its newest commit that touches a file whose path begins with the application's.
  -- A run that succeeds and has moved the revision has delivered it: the revision is the newest such
  -- commit of the remote branch as it was seen when the delivery began; and after it the application's
  -- release has the status `deployed` and holds the chart that the delivery has loaded, marked with the
  -- revision, or the delivery has left every release as it is, the application's being marked with the
  -- revision already or, with the option checkValuesEqual, having the requested values.
  pub run_life_cycle-IsDeployed :
      {repo : T.Repository} (laws : GitLaws libs.git repo) (s : AppState T) (p : HelmProvider T)
      → IsOnBranch laws s
      → (is_zero s.app.current_revision ≡ true) ⊎ IsInStep laws s
      → s.app.delivery_provider ≡ helm_provider p
      → p.cfg ≡ some cfg
      → let (r, u) = run_life_cycle libs s in
        r ≡ ok tt
        → u.app.current_revision ≢ s.app.current_revision
        → (t : AppState T) × ((r, u) ≡ deliver libs t)
          × (u.app.current_revision ≡ newest laws s.app (remote_tip laws t))
          × IsDeployed p t u
  run_life_cycle-IsDeployed laws s p on at e c h moved =
      let (t, (in_step, same_app, ends)) = run_life_cycle-EndsAt libs laws s on at h in
      elim ends [
        | inl (stopped, same) ↦ absurd (moved (ap (λ x. x.1.app.current_revision) stopped ∙ same))
        | inr went ↦
            let tip = remote_tip laws t in
            let revision =
              ap (λ x. x.1.app.current_revision) went
              ∙ (deliver-keeps libs t).1
              ∙ in_step.2
              ∙ ap (λ a. newest laws a tip) same_app in
            let delivered = ap (λ x. x.0) (sym went) ∙ h in
            let provider = ap (λ a. a.delivery_provider) same_app ∙ e in
            (
              t,
              went,
              revision,
              subst (λ x. IsDeployed p t x.1) (sym went)
                  (deliver-IsDeployed t p provider c delivered),
            )
      ]
