-- ===== src/Instance/Lifecycle/InStep.antt =====
-- server/pkg/instance/application.go, RunLifeCycle over a git repository: the revision that a run
-- which succeeds has come to.
use dummy_cd.Base.{◌≡◌, refl, subst, ap, sym, ◌∙◌, inl, inr, ◌⊎◌, true, Bool-cases, arith}
use dummy_cd.Go.{git_already_up_to_date, Returned, value, failed, is_zero, ok}
use dummy_cd.Libs.{Types}
use dummy_cd.Instance.{Libraries}
use dummy_cd.Instance.Application.{AppState, remote_reference_name}
use dummy_cd.Instance.Lifecycle.{update_repository, after_fetch, run_life_cycle}
use dummy_cd.Instance.Lifecycle.Refs.{GitLaws, newest, local_tip, IsOnBranch, IsInStep}
use dummy_cd.Instance.Lifecycle.Newest.{EndsAt, IsLevel-keeps}
use dummy_cd.Instance.Lifecycle.Branches.{
  Follows, carry, IsOnBranch-keeps, update_repository-EndsAt,
}

module _ {T : Types} (libs : Libraries T) {repo : T.Repository} (laws : GitLaws libs.git repo) where
  open laws use {refs}

  -- A fetch leaves the application on its branch, and finds the local branch as it was.
  abbrev pub fetched : AppState T → AppState T
  fetched s = record s { world = (libs.git.fetch s.app.repo s.app.fetch_options s.world).1 }

  pub fetched-IsOnBranch : (s : AppState T) → IsOnBranch laws s → IsOnBranch laws (fetched s)
  fetched-IsOnBranch s on =
      IsOnBranch-keeps libs laws s (fetched s).world
        (rw on.0 (laws.fetch_keeps_head s.world s.app.fetch_options)) on

  pub fetched-local :
      (s : AppState T) → IsOnBranch laws s → local_tip laws (fetched s) ≡ local_tip laws s
  fetched-local s on = rw on.0 (laws.fetch_keeps_branch s.world s.app.fetch_options s.app.reference)

  -- A fetch that finds nothing.
  pub found-nothing :
      (s : AppState T)
      → s.app.repo ≡ repo
      → (libs.git.fetch s.app.repo s.app.fetch_options s.world).0 ≡ failed git_already_up_to_date
      → refs (fetched s).world ≡ refs s.world
  found-nothing s own e =
      let mine =
        subst
          (λ r. (libs.git.fetch r s.app.fetch_options s.world).0 ≡ failed git_already_up_to_date)
          own e in
      rw own (laws.fetch_finds_nothing s.world s.app.fetch_options mine)

  IsInStep-keeps :
      (s : AppState T) (w : T.World)
      → refs w ≡ refs s.world
      → IsInStep laws s
      → IsInStep laws (record s { world = w })
  IsInStep-keeps s w e (on, level, same) =
      let kept = IsLevel-keeps libs laws s w e (on, level) in
      let tip_kept =
        ap (λ r. newest laws s.app (r.tip (remote_reference_name s.app.reference))) (sym e) in
      (kept.0, kept.1, same ∙ tip_kept)

  Follows-fetched :
      (s : AppState T)
      → IsOnBranch laws s
      → (is_zero s.app.current_revision ≡ true) ⊎ IsInStep laws s
      → Follows libs laws (fetched s)
  Follows-fetched s on (inl zero) = inl zero
  Follows-fetched s on (inr (on_it, level, same)) =
      inr (same ∙ ap (newest laws s.app) (sym level ∙ sym (fetched-local s on)))

  -- What a fetch has come to.
  fetched-EndsAt :
      (r : Returned (Unit {0})) (s : AppState T)
      → IsOnBranch laws s
      → (is_zero s.app.current_revision ≡ true) ⊎ IsInStep laws s
      → let f = libs.git.fetch s.app.repo s.app.fetch_options s.world in
        let s1 : AppState T = record s { world = f.1 } in
        f.0 ≡ r
        → (after_fetch libs r s1).0 ≡ ok tt
        → (t : AppState T) × EndsAt libs laws s (after_fetch libs r s1) t
  unfolding after_fetch
  fetched-EndsAt (value u) s on at e h =
      update_repository-EndsAt libs laws (fetched s) (fetched-IsOnBranch s on)
        (Follows-fetched s on at) h
  fetched-EndsAt (failed git_already_up_to_date) s on at e h =
      elim (Bool-cases (is_zero s.app.current_revision)) [
        | inl zero ↦
            let rest : after_fetch libs (failed git_already_up_to_date) (fetched s)
                ≡ update_repository libs (fetched s) =
              ground arith in
            carry libs laws s rest (
              update_repository-EndsAt libs laws (fetched s) (fetched-IsOnBranch s on)
                (Follows-fetched s on at) (ground arith))
        | inr nonzero ↦ elim at [
          | inl zero ↦ ground arith
          | inr in_step ↦ (
            fetched s,
            (
              IsInStep-keeps s (fetched s).world (found-nothing s on.0 e) in_step,
              refl,
              inr (ground arith),
            ),
          )
        ]
      ]
  fetched-EndsAt (failed x) s on at e h = ground arith

  -- With git as GitLaws says, for the application's repository, with the branch of its reference
  -- checked out. Before the run there is no revision, or the local branch is where the remote branch
  -- was last seen and the revision is its newest commit that touches a file whose path begins
  -- with the application's. A run that succeeds comes to a state in which this holds again, for the remote branch as it is then
  -- seen; nothing but the revision is changed in the application. The run ends there, if it has kept
  -- the revision, or its end is that of a delivery from there.
  pub run_life_cycle-EndsAt :
      (s : AppState T)
      → IsOnBranch laws s
      → (is_zero s.app.current_revision ≡ true) ⊎ IsInStep laws s
      → (run_life_cycle libs s).0 ≡ ok tt
      → (t : AppState T) × EndsAt libs laws s (run_life_cycle libs s) t
  unfolding run_life_cycle
  run_life_cycle-EndsAt s on at h =
      fetched-EndsAt (libs.git.fetch s.app.repo s.app.fetch_options s.world).0 s on at refl h
