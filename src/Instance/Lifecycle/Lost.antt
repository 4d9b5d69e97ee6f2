-- ===== src/Instance/Lifecycle/Lost.antt =====
-- server/pkg/instance/application.go, RunLifeCycle over a git repository: an update whose commits have
-- been fetched by a run that then fails.
use dummy_cd.Base.{◌≡◌, ◌≢◌, ap, sym, ◌∙◌, true, false, [], ◌∷◌, nat_eq_iff, arith}
use dummy_cd.Go.{Error, git_already_up_to_date, value, failed, Returned, Hash, is_zero, err}
use dummy_cd.Libs.{Types}
use dummy_cd.Instance.{Libraries}
use dummy_cd.Instance.Application.{AppState, local_reference_name, remote_reference_name, deliver}
use dummy_cd.Instance.Lifecycle.{
  reset_to, reconcile, update_repository, after_fetch, run_life_cycle,
}
use dummy_cd.Instance.Lifecycle.Refs.{GitLaws, newest, remote_tip}
use dummy_cd.Instance.Lifecycle.Newest.{worktree-keeps}
use dummy_cd.Instance.Lifecycle.Branches.{reference-keeps, reference-reads}
use dummy_cd.Instance.Lifecycle.InStep.{fetched, found-nothing}

module _ {T : Types} (libs : Libraries T) where
  -- The reads of the two references, the worktree, and the reset, one after another.
  abbrev pub local_read : AppState T → Returned Hash × T.World
  local_read s =
      libs.git.reference s.app.repo (local_reference_name s.app.reference) true
        (libs.git.fetch s.app.repo s.app.fetch_options s.world).1

  abbrev pub remote_read : AppState T → Returned Hash × T.World
  remote_read s =
      libs.git.reference s.app.repo (remote_reference_name s.app.reference) true (local_read s).1

  abbrev pub worktree_read : AppState T → Returned T.Worktree × T.World
  worktree_read s = libs.git.worktree s.app.repo (remote_read s).1

  abbrev pub resetting : AppState T → T.Worktree → Hash → Returned (Unit {0}) × T.World
  resetting s tree remote =
      libs.git.hard_reset_sparsely tree remote (s.app.sparse_path ∷ []) (worktree_read s).1

  -- A run that fails in the reset.
  reset-fails :
      (s : AppState T) (local remote : Hash) (tree : T.Worktree) (e : Error)
      → (libs.git.fetch s.app.repo s.app.fetch_options s.world).0 ≡ value tt
      → (local_read s).0 ≡ value local
      → (remote_read s).0 ≡ value remote
      → local ≢ remote
      → (worktree_read s).0 ≡ value tree
      → (resetting s tree remote).0 ≡ failed e
      → run_life_cycle libs s ≡ (err e, record s { world = (resetting s tree remote).1 })
  unfolding run_life_cycle after_fetch update_repository reconcile reset_to
  reset-fails s local remote tree e f g h other k l = ground (arith, nat_eq_iff local remote)

module _ {T : Types} (libs : Libraries T) {repo : T.Repository} (laws : GitLaws libs.git repo) where
  open laws use {refs}

  nothing-deliver :
      (s : AppState T)
      → is_zero s.app.current_revision ≡ false
      → (libs.git.fetch s.app.repo s.app.fetch_options s.world).0 ≡ failed git_already_up_to_date
      → run_life_cycle libs s ≡ deliver libs (fetched libs laws s)
  unfolding run_life_cycle after_fetch
  nothing-deliver s nonzero nothing = ground arith

  -- The remote branch as it is read after the fetch is the one that is found after the reset.
  remote-kept :
      (s : AppState T) (remote : Hash) (tree : T.Worktree)
      → s.app.repo ≡ repo
      → (remote_read libs s).0 ≡ value remote
      → let n = remote_reference_name s.app.reference in
        (refs (resetting libs s tree remote).1).tip n ≡ (refs (worktree_read libs s).1).tip n
        → (refs (resetting libs s tree remote).1).tip n ≡ remote
  remote-kept s remote tree own g kept =
      let n = remote_reference_name s.app.reference in
      let s1 : AppState T = record s { world = (local_read libs s).1 } in
      let s2 : AppState T = record s { world = (remote_read libs s).1 } in
      let same = worktree-keeps libs laws s2 own ∙ reference-keeps libs laws s1 n own in
      kept ∙ ap (λ r. r.tip n) same ∙ sym (reference-reads libs laws s1 n remote own g)

  -- With git as GitLaws says, for the application's repository. A run has fetched: the remote branch
  -- is read at another commit than the local one, and its newest commit that touches the
  -- application's path is not the current revision, which is not zero. Then the reset of the worktree
  -- fails, and leaves the remote branch. The run ends with that error. Where the next run finds
  -- nothing to fetch, it is a delivery of the old revision, and ends as the delivery does; the newest
  -- commit is not taken over.
  pub update_lost :
      (s : AppState T) (local remote : Hash) (tree : T.Worktree) (e : Error)
      → s.app.repo ≡ repo
      → is_zero s.app.current_revision ≡ false
      → (libs.git.fetch s.app.repo s.app.fetch_options s.world).0 ≡ value tt
      → (local_read libs s).0 ≡ value local
      → (remote_read libs s).0 ≡ value remote
      → local ≢ remote
      → newest laws s.app remote ≢ s.app.current_revision
      → (worktree_read libs s).0 ≡ value tree
      → (resetting libs s tree remote).0 ≡ failed e
      → let n = remote_reference_name s.app.reference in
        let t = (run_life_cycle libs s).1 in
        (refs (resetting libs s tree remote).1).tip n ≡ (refs (worktree_read libs s).1).tip n
        → (libs.git.fetch t.app.repo t.app.fetch_options t.world).0 ≡ failed git_already_up_to_date
        → ((run_life_cycle libs s).0 ≡ err e)
          × (run_life_cycle libs t ≡ deliver libs (fetched libs laws t))
          × ((fetched libs laws t).app ≡ s.app)
          × (newest laws s.app (remote_tip laws (fetched libs laws t)) ≢ s.app.current_revision)
  update_lost s local remote tree e own nonzero f g h other new k l kept nothing =
      let failing = reset-fails libs s local remote tree e f g h other k l in
      let t = (run_life_cycle libs s).1 in
      let app_kept : t.app ≡ s.app = ap (λ x. x.1.app) failing in
      let tip_kept : remote_tip laws (fetched libs laws t) ≡ remote =
        ap (λ r. r.tip (remote_reference_name t.app.reference))
          (found-nothing libs laws t (ap (λ a. a.repo) app_kept ∙ own) nothing)
        ∙ ap (λ x. remote_tip laws x.1) failing
        ∙ remote-kept s remote tree own h kept in
      (
        ap (λ x. x.0) failing,
        nothing-deliver t (ap (λ a. is_zero a.current_revision) app_kept ∙ nonzero) nothing,
        app_kept,
        λ same. new (ap (newest laws s.app) (sym tip_kept) ∙ same),
      )
