-- ===== src/Instance/Lifecycle/Branches.antt =====
-- server/pkg/instance/application.go, RunLifeCycle over a git repository: the two ways to bring the
-- local branch to where the remote branch was last seen.
use dummy_cd.Base.{
  ◌≡◌, refl, subst, ap, sym, ◌∙◌, inl, inr, ◌⊎◌, String, true, Bool-cases, [], ◌∷◌, eq_iff, nat_eq,
  nat_eq_iff, arith,
}
use dummy_cd.Go.{
  git_already_up_to_date, Returned, value, failed, Returned-cases, Result, Hash, is_zero, ok,
}
use dummy_cd.Libs.{Types}
use dummy_cd.Instance.{Libraries}
use dummy_cd.Instance.Application.{AppState, local_reference_name, remote_reference_name}
use dummy_cd.Instance.Lifecycle.{
  take_head, after_pull, reset_to, pull_updates, reconcile, update_repository,
}
use dummy_cd.Instance.Lifecycle.Refs.{
  Refs, GitLaws, newest, local_tip, remote_tip, IsOnBranch, move_head,
}
use dummy_cd.Instance.Lifecycle.Newest.{
  EndsAt, IsLevel, IsLevel-keeps, worktree-keeps, worktree-IsOwn, checkout-keeps, take_head-EndsAt,
}

module _ {T : Types} (libs : Libraries T) {repo : T.Repository} (laws : GitLaws libs.git repo) where
  open laws use {refs}

  -- No revision has been taken over, or it is the newest commit of the local branch.
  abbrev pub Follows : AppState T → Type 0
  Follows s =
      (is_zero s.app.current_revision ≡ true)
      ⊎ (s.app.current_revision ≡ newest laws s.app (local_tip laws s))

  pub Follows-keeps :
      (s : AppState T) (w : T.World)
      → refs w ≡ refs s.world
      → Follows s
      → Follows (record s { world = w })
  Follows-keeps s w e (inl zero) = inl zero
  Follows-keeps s w e (inr same) =
      inr
        (same ∙ ap (λ r. newest laws s.app (r.tip (local_reference_name s.app.reference))) (sym e))

  -- A run that is the rest of a run, from a later state.
  pub carry :
      (s : AppState T) {r r' : Result (Unit {0}) × AppState T}
      → r ≡ r'
      → (t : AppState T) × EndsAt libs laws s r' t
      → (t : AppState T) × EndsAt libs laws s r t
  carry s e (t, ends) = (t, subst (λ x. EndsAt libs laws s x t) (sym e) ends)

  after_pull-EndsAt :
      (r : Returned (Unit {0})) (s : AppState T)
      → IsLevel libs laws s
      → ((r ≡ value tt) ⊎ Follows s)
      → (after_pull libs r s).0 ≡ ok tt
      → (t : AppState T) × EndsAt libs laws s (after_pull libs r s) t
  unfolding after_pull
  after_pull-EndsAt (value u) s level f h = take_head-EndsAt libs laws s level h
  after_pull-EndsAt (failed git_already_up_to_date) s level f h =
      elim (Bool-cases (is_zero s.app.current_revision)) [
        | inl zero ↦
            let rest : after_pull libs (failed git_already_up_to_date) s ≡ take_head libs s =
              ground arith in
            carry s rest (take_head-EndsAt libs laws s level (ground arith))
        | inr nonzero ↦ elim f [
          | inl other ↦ absurd cc
          | inr (inl zero) ↦ ground arith
          | inr (inr same) ↦ (
            s,
            (
              (level.0, level.1, same ∙ ap (newest laws s.app) level.1),
              refl,
              inl (ground arith, refl),
            ),
          )
        ]
      ]
  after_pull-EndsAt (failed e) s level f h = ground arith

  pub IsOnBranch-keeps :
      (s : AppState T) (w : T.World)
      → (refs w).head ≡ (refs s.world).head
      → IsOnBranch laws s
      → IsOnBranch laws (record s { world = w })
  IsOnBranch-keeps s w e (own, branch, pulls, head) = (own, branch, pulls, e ∙ head)

  -- What a pull has come to.
  pulled-EndsAt :
      (tree : T.Worktree) (s : AppState T) (r : Returned (Unit {0}))
      → IsLevel libs laws s
      → laws.IsOwn tree
      → Follows s
      → let p = libs.git.pull tree s.app.pull_options s.world in
        let s2 : AppState T = record s { world = p.1 } in
        p.0 ≡ r
        → (after_pull libs r s2).0 ≡ ok tt
        → (t : AppState T) × EndsAt libs laws s (after_pull libs r s2) t
  unfolding after_pull
  pulled-EndsAt tree s (value u) level mine f e h =
      let p = libs.git.pull tree s.app.pull_options s.world in
      let s2 : AppState T = record s { world = p.1 } in
      let on =
        IsOnBranch-keeps s p.1 (laws.pull_keeps_head s.world tree s.app.pull_options) level.0 in
      let moved =
        laws.pull_moves s.world tree s.app.pull_options s.app.reference mine level.0.2 e in
      after_pull-EndsAt (value u) s2 (on, ap (refs p.1).tip (sym on.3) ∙ moved) (inl refl) h
  pulled-EndsAt tree s (failed git_already_up_to_date) level mine f e h =
      let p = libs.git.pull tree s.app.pull_options s.world in
      let s2 : AppState T = record s { world = p.1 } in
      let kept = laws.pull_finds_nothing s.world tree s.app.pull_options mine e in
      after_pull-EndsAt (failed git_already_up_to_date) s2
        (IsLevel-keeps libs laws s p.1 kept level) (inr (Follows-keeps s p.1 kept f)) h
  pulled-EndsAt tree s (failed x) level mine f e h = ground arith

  pull_updates-EndsAt :
      (tree : T.Worktree) (s : AppState T)
      → IsLevel libs laws s
      → laws.IsOwn tree
      → Follows s
      → (pull_updates libs tree s).0 ≡ ok tt
      → (t : AppState T) × EndsAt libs laws s (pull_updates libs tree s) t
  unfolding pull_updates
  pull_updates-EndsAt tree s level mine f h =
      let c = libs.git.checkout tree s.app.checkout_options s.world in
      elim (Returned-cases c.0) [
        | inr (x, e) ↦ ground arith
        | inl (u, e) ↦
            let s1 : AppState T = record s { world = c.1 } in
            let kept = checkout-keeps libs laws s tree level.0 mine e in
            let level1 = IsLevel-keeps libs laws s c.1 kept level in
            let p = libs.git.pull tree s.app.pull_options c.1 in
            let s2 : AppState T = record s { world = p.1 } in
            let rest : pull_updates libs tree s ≡ after_pull libs p.0 s2 = ground arith in
            carry s rest (
              pulled-EndsAt tree s1 p.0 level1 mine (Follows-keeps s c.1 kept f) refl
                (ground arith))
      ]

  -- After a move of the branch that HEAD names.
  moved-tip :
      (h : Hash) (r : Refs) (n : String) → (n ≡ r.head) ⊎ (r.tip n ≡ h) → (move_head h r).tip n ≡ h
  moved-tip h r n (inl e) = ground (arith, eq_iff n r.head)
  moved-tip h r n (inr e) = ground arith

  reset_to-EndsAt :
      (tree : T.Worktree) (h : Hash) (s : AppState T)
      → IsOnBranch laws s
      → laws.IsOwn tree
      → h ≡ remote_tip laws s
      → (reset_to libs tree h s).0 ≡ ok tt
      → (t : AppState T) × EndsAt libs laws s (reset_to libs tree h s) t
  unfolding reset_to
  reset_to-EndsAt tree h s on mine e done =
      let dirs = s.app.sparse_path ∷ [] in
      let c = libs.git.hard_reset_sparsely tree h dirs s.world in
      elim (Returned-cases c.0) [
        | inr (x, f) ↦ ground arith
        | inl (u, f) ↦
            let s1 : AppState T = record s { world = c.1 } in
            let moved = laws.reset_moves s.world tree h dirs mine f in
            let rest : reset_to libs tree h s ≡ take_head libs s1 = ground arith in
            let on1 = IsOnBranch-keeps s c.1 (ap (λ r. r.head) moved) on in
            let tips : (n : String)
                → ((n ≡ (refs s.world).head) ⊎ ((refs s.world).tip n ≡ h))
                → (refs c.1).tip n ≡ h =
              λ n at. ap (λ r. r.tip n) moved ∙ moved-tip h (refs s.world) n at in
            let level1 =
              tips (local_reference_name s.app.reference) (inl (sym on.3))
              ∙ sym (tips (remote_reference_name s.app.reference) (inr (sym e))) in
            carry s rest (take_head-EndsAt libs laws s1 (on1, level1) (ground arith))
      ]

  reconcile-EndsAt :
      (tree : T.Worktree) (local remote : Hash) (s : AppState T)
      → IsOnBranch laws s
      → laws.IsOwn tree
      → Follows s
      → local ≡ local_tip laws s
      → remote ≡ remote_tip laws s
      → (reconcile libs tree local remote s).0 ≡ ok tt
      → (t : AppState T) × EndsAt libs laws s (reconcile libs tree local remote s) t
  unfolding reconcile
  reconcile-EndsAt tree local remote s on mine f e g h = elim (Bool-cases (nat_eq local remote)) [
    | inl same ↦
        let level = sym e ∙ (nat_eq_iff local remote).0 same ∙ g in
        let rest : reconcile libs tree local remote s ≡ pull_updates libs tree s = ground arith in
        carry s rest (pull_updates-EndsAt tree s (on, level) mine f (ground arith))
    | inr other ↦
        let rest : reconcile libs tree local remote s ≡ reset_to libs tree remote s =
          ground arith in
        carry s rest (reset_to-EndsAt tree remote s on mine g (ground arith))
  ]

  pub reference-keeps :
      (s : AppState T) (n : String)
      → s.app.repo ≡ repo
      → refs (libs.git.reference s.app.repo n true s.world).1 ≡ refs s.world
  reference-keeps s n own = rw own (laws.reference_keeps s.world n)

  pub reference-reads :
      (s : AppState T) (n : String) (h : Hash)
      → s.app.repo ≡ repo
      → (libs.git.reference s.app.repo n true s.world).0 ≡ value h
      → h ≡ (refs s.world).tip n
  reference-reads s n h own e =
      laws.reference_reads s.world n
        (subst (λ r. (libs.git.reference r n true s.world).0 ≡ value h) own e)

  pub update_repository-EndsAt :
      (s : AppState T)
      → IsOnBranch laws s
      → Follows s
      → (update_repository libs s).0 ≡ ok tt
      → (t : AppState T) × EndsAt libs laws s (update_repository libs s) t
  unfolding update_repository
  update_repository-EndsAt s on f h =
      let l = libs.git.reference s.app.repo (local_reference_name s.app.reference) true s.world in
      let r = libs.git.reference s.app.repo (remote_reference_name s.app.reference) true l.1 in
      let w = libs.git.worktree s.app.repo r.1 in
      let s1 : AppState T = record s { world = l.1 } in
      let s2 : AppState T = record s { world = r.1 } in
      let s3 : AppState T = record s { world = w.1 } in
      let kept1 = reference-keeps s (local_reference_name s.app.reference) on.0 in
      let kept2 = reference-keeps s1 (remote_reference_name s.app.reference) on.0 ∙ kept1 in
      let kept3 = worktree-keeps libs laws s2 on.0 ∙ kept2 in
      elim (Returned-cases l.0) [
        | inr (x, e) ↦ ground arith
        | inl (local, e) ↦ elim (Returned-cases r.0) [
          | inr (x, g) ↦ ground arith
          | inl (remote, g) ↦ elim (Returned-cases w.0) [
            | inr (x, k) ↦ ground arith
            | inl (tree, k) ↦
                let rest : update_repository libs s ≡ reconcile libs tree local remote s3 =
                  ground arith in
                let at_local =
                  reference-reads s (local_reference_name s.app.reference) local on.0 e
                  ∙ ap (λ q. q.tip (local_reference_name s.app.reference)) (sym kept3) in
                let at_remote =
                  reference-reads s1 (remote_reference_name s.app.reference) remote on.0 g
                  ∙ ap (λ q. q.tip (remote_reference_name s.app.reference)) (kept1 ∙ sym kept3) in
                carry s rest (
                  reconcile-EndsAt tree local remote s3
                    (IsOnBranch-keeps s w.1 (ap (λ q. q.head) kept3) on)
                    (worktree-IsOwn libs laws s2 tree on.0 k) (Follows-keeps s w.1 kept3 f) at_local
                    at_remote (ground arith))
          ]
        ]
      ]
