-- ===== src/Instance/Lifecycle/Newest.antt =====
-- server/pkg/instance/application.go, RunLifeCycle over a git repository: what its last part does, on
-- a branch that is where the remote branch was last seen.
use mathlib.Core.Path.{fun_ext}
use dummy_cd.Base.{
  String, ◌≡◌, refl, subst, ap, sym, ◌∙◌, inl, inr, ◌⊎◌, false, Bool-cases, List, map,
  if◌then◌else◌, nat_eq, nat_eq_iff, arith,
}
use dummy_cd.Go.{Returned, value, failed, Returned-cases, Result, Hash, zero_hash, is_zero, ok}
use dummy_cd.Libs.{Types}
use dummy_cd.Libs.Git.{Commit}
use dummy_cd.Instance.{Libraries}
use dummy_cd.Instance.Application.{AppState, remote_reference_name, path_filter, deliver}
use dummy_cd.Instance.Lifecycle.{first_revision, get_application_head_revision, take_head}
use dummy_cd.Instance.Lifecycle.Refs.{
  GitLaws, newest, begins, local_tip, remote_tip, IsOnBranch, IsInStep,
}

-- The first of the commits, where there is no error.
abbrev first_commit : Returned (List Commit) → Hash
first_commit (failed e) = zero_hash
first_commit (value cs) = first_revision (value (map (λ c. c.hash) cs))

module _ {T : Types} (libs : Libraries T) where
  head_computes :
      (s : AppState T)
      → let l = libs.git.log s.app.repo (path_filter s.app.sparse_path) s.world in
        get_application_head_revision libs s ≡ (ok (first_commit l.0), record s { world = l.1 })
  unfolding get_application_head_revision first_revision
  head_computes s =
      elim (Returned-cases (libs.git.log s.app.repo (path_filter s.app.sparse_path) s.world).0) [
        | inl (cs, e) ↦ ground arith
        | inr (x, e) ↦ ground arith
      ]

module _ {T : Types} (libs : Libraries T) {repo : T.Repository} (laws : GitLaws libs.git repo) where
  open laws use {refs}

  -- A run from `s` on that gives `r` has come to the state `t`, where the revision is the newest one
  -- and nothing else of the application is changed: it has ended there, with the revision that it had
  -- before, or it has gone on to deliver.
  abbrev pub EndsAt : AppState T → Result (Unit {0}) × AppState T → AppState T → Type 0
  EndsAt s r t =
      IsInStep laws t
      × (t.app ≡ record (s.app) { current_revision = t.app.current_revision })
      × (((r ≡ (ok tt, t)) × (t.app.current_revision ≡ s.app.current_revision))
          ⊎ (r ≡ deliver libs t))

  -- The branch is checked out, and it is where the remote branch was last seen.
  abbrev pub IsLevel : AppState T → Type 0
  IsLevel s = IsOnBranch laws s × (local_tip laws s ≡ remote_tip laws s)

  -- The filter of the log lets those paths through that begin with the application's path.
  path_filter-begins : (path : String) → path_filter path ≡ begins path
  unfolding path_filter
  path_filter-begins path = fun_ext (λ file. ground arith)

  log-newest :
      (s : AppState T) (cs : List Commit)
      → IsLevel s
      → (libs.git.log s.app.repo (path_filter s.app.sparse_path) s.world).0 ≡ value cs
      → first_commit (value cs) ≡ newest laws s.app (remote_tip laws s)
  log-newest s cs ((own, branch, pulls, head), level) e =
      let filter = path_filter s.app.sparse_path in
      let mine = subst (λ r. (libs.git.log r filter s.world).0 ≡ value cs) own e in
      let all = laws.log_reads s.world filter mine in
      ap (λ l. first_commit (value l)) all
      ∙ ap (λ f. first_commit (value (laws.history ((refs s.world).tip (refs s.world).head) f)))
          (path_filter-begins s.app.sparse_path)
      ∙ ap (newest laws s.app) (ap (refs s.world).tip head ∙ level)

  head-newest :
      (s : AppState T)
      → IsLevel s
      → let l = libs.git.log s.app.repo (path_filter s.app.sparse_path) s.world in
        is_zero (first_commit l.0) ≡ false
        → first_commit l.0 ≡ newest laws s.app (remote_tip laws s)
  head-newest s level nonzero =
      let log = libs.git.log s.app.repo (path_filter s.app.sparse_path) s.world in
      elim (Returned-cases log.0) [
        | inl (cs, e) ↦ ap first_commit e ∙ log-newest s cs level e
        | inr (x, e) ↦ ground arith
      ]

  -- A world with the same references.
  pub IsLevel-keeps :
      (s : AppState T) (w : T.World)
      → refs w ≡ refs s.world
      → IsLevel s
      → IsLevel (record s { world = w })
  IsLevel-keeps s w e ((own, branch, pulls, head), level) =
      ((own, branch, pulls, ap (λ r. r.head) e ∙ head), cc (e, level))

  pub worktree-keeps :
      (s : AppState T)
      → s.app.repo ≡ repo
      → refs (libs.git.worktree s.app.repo s.world).1 ≡ refs s.world
  worktree-keeps s own = rw own (laws.worktree_keeps s.world)

  pub worktree-IsOwn :
      (s : AppState T) (t : T.Worktree)
      → s.app.repo ≡ repo
      → (libs.git.worktree s.app.repo s.world).0 ≡ value t
      → laws.IsOwn t
  worktree-IsOwn s t own e =
      laws.worktree_own s.world (subst (λ r. (libs.git.worktree r s.world).0 ≡ value t) own e)

  log-keeps :
      (s : AppState T)
      → s.app.repo ≡ repo
      → refs (libs.git.log s.app.repo (path_filter s.app.sparse_path) s.world).1 ≡ refs s.world
  log-keeps s own = rw own (laws.log_keeps s.world (path_filter s.app.sparse_path))

  -- The checkout of the branch that is checked out already.
  pub checkout-keeps :
      (s : AppState T) (t : T.Worktree)
      → IsOnBranch laws s
      → laws.IsOwn t
      → (libs.git.checkout t s.app.checkout_options s.world).0 ≡ value tt
      → refs (libs.git.checkout t s.app.checkout_options s.world).1 ≡ refs s.world
  checkout-keeps s t (own, branch, pulls, head) mine e =
      laws.checkout_moves s.world t s.app.checkout_options mine e
      ∙ ap (λ b. record (refs s.world) { head = b }) (branch ∙ sym head)

  -- From the list of revisions on, at a state whose references have been read.
  take-EndsAt :
      (s : AppState T) (r : Result (Unit {0}) × AppState T)
      → IsLevel s
      → let l = libs.git.log s.app.repo (path_filter s.app.sparse_path) s.world in
        let h = first_commit l.0 in
        let t : AppState T = record {
          app = record (s.app) { current_revision = h };
          world = l.1;
        } in
        is_zero h ≡ false
        → (r ≡ (
            if nat_eq s.app.current_revision h
            then (ok tt, record s { world = l.1 })
            else deliver libs t))
        → EndsAt s r t
  take-EndsAt s r level nonzero e =
      let l = libs.git.log s.app.repo (path_filter s.app.sparse_path) s.world in
      let h = first_commit l.0 in
      let t : AppState T = record { app = record (s.app) { current_revision = h }; world = l.1 } in
      let kept = IsLevel-keeps s l.1 (log-keeps s level.0.0) level in
      let newest_now : h ≡ newest laws s.app (remote_tip laws t) =
        head-newest s level nonzero
        ∙ ap (λ q. newest laws s.app (q.tip (remote_reference_name s.app.reference)))
            (sym (log-keeps s level.0.0)) in
      (
        (kept.0, kept.1, newest_now),
        refl,
        elim (Bool-cases (nat_eq s.app.current_revision h)) [
          | inl same ↦
              let now : AppState T = record s { world = l.1 } in
              let kept_revision : now ≡ t =
                ap (λ x. record { app = record (s.app) { current_revision = x }; world = l.1 })
                  ((nat_eq_iff s.app.current_revision h).0 same) in
              inl (
                ground arith ∙ ap (λ x. (ok tt, x)) kept_revision,
                sym ((nat_eq_iff s.app.current_revision h).0 same),
              )
          | inr other ↦ inr (ground arith)
        ],
      )

  pub take_head-EndsAt :
      (s : AppState T)
      → IsLevel s
      → (take_head libs s).0 ≡ ok tt
      → (t : AppState T) × EndsAt s (take_head libs s) t
  unfolding take_head
  take_head-EndsAt s level h =
      let w = libs.git.worktree s.app.repo s.world in
      elim (Returned-cases w.0) [
        | inr (x, e) ↦ ground arith
        | inl (tree, e) ↦
            let s1 : AppState T = record s { world = w.1 } in
            let c = libs.git.checkout tree s.app.checkout_options w.1 in
            elim (Returned-cases c.0) [
              | inr (x, f) ↦ ground arith
              | inl (u, f) ↦
                  let s2 : AppState T = record s { world = c.1 } in
                  let level1 = IsLevel-keeps s w.1 (worktree-keeps s level.0.0) level in
                  let level2 =
                    IsLevel-keeps s1 c.1
                      (checkout-keeps s1 tree level1.0 (worktree-IsOwn s tree level.0.0 e) f)
                      level1 in
                  let l = libs.git.log s.app.repo (path_filter s.app.sparse_path) c.1 in
                  elim (Bool-cases (is_zero (first_commit l.0))) [
                    | inl zero ↦ ground (arith, head_computes libs s2)
                    | inr nonzero ↦ (
                      _,
                      take-EndsAt s2 (take_head libs s) level2 nonzero
                          (ground (arith, head_computes libs s2)),
                    )
                  ]
            ]
      ]
