-- ===== src/Instance/Lifecycle/Refs.antt =====
-- server/pkg/instance/application.go, RunLifeCycle over a git repository: its references, and what
-- the calls of go-git make of them.
use Prim.Native.String.{◌++◌ as append}
use dummy_cd.Base.{◌≡◌, String, Bool, true, List, map, ◌==◌, ◌||◌, if◌then◌else◌}
use text.Mathlib.Text.{starts_with}
use dummy_cd.Go.{git_already_up_to_date, value, failed, Hash}
use dummy_cd.Libs.{Types}
use dummy_cd.Libs.Git.{FetchOptions, PullOptions, CheckoutOptions, Commit, GitLibrary}
use dummy_cd.Instance.Application.{Application, AppState}
use dummy_cd.Instance.Lifecycle.{first_revision}

-- Where git keeps the local branch of a name, and the remote branch as it was last seen.
abbrev pub branch_name : String → String
branch_name b = append "refs/heads/" b

abbrev pub tracking_name : String → String
tracking_name b = append "refs/remotes/origin/" b

-- The text of a file's path begins with the application's path; each does where that is empty.
abbrev pub begins : String → String → Bool
begins path file = path == "" || starts_with file path

-- The references of a repository: the branch that HEAD names, and the commit of each reference.
pub record Refs : Type 0 where
  pub head : String
  pub tip : String → Hash

-- The branch that HEAD names is moved to a commit.
abbrev pub move_head : Hash → Refs → Refs
move_head h r = record r { tip = λ n. if n == r.head then h else r.tip n }

-- The documented behaviour of go-git for one repository. `refs` is what is stored in it, `IsOwn` that
-- a worktree is of it, and `history` gives the commits that are reached from a commit and touch a
-- path that passes the filter, newest first.
pub record GitLaws {T : Types} (git : GitLibrary T) (repo : T.Repository) : Type 1 where
  pub refs : T.World → Refs
  pub history : Hash → (String → Bool) → List Commit
  pub IsOwn : T.Worktree → Type 0
  pub worktree_own : (w : T.World) {t : T.Worktree} → (git.worktree repo w).0 ≡ value t → IsOwn t
  pub worktree_keeps : (w : T.World) → refs (git.worktree repo w).1 ≡ refs w
  pub reference_reads :
      (w : T.World) (n : String) {h : Hash}
      → (git.reference repo n true w).0 ≡ value h
      → h ≡ (refs w).tip n
  pub reference_keeps : (w : T.World) (n : String) → refs (git.reference repo n true w).1 ≡ refs w
  pub checkout_moves :
      (w : T.World) (t : T.Worktree) (o : CheckoutOptions)
      → IsOwn t
      → (git.checkout t o w).0 ≡ value tt
      → refs (git.checkout t o w).1 ≡ record (refs w) { head = o.branch }
  pub reset_moves :
      (w : T.World) (t : T.Worktree) (h : Hash) (dirs : List String)
      → IsOwn t
      → (git.hard_reset_sparsely t h dirs w).0 ≡ value tt
      → refs (git.hard_reset_sparsely t h dirs w).1 ≡ move_head h (refs w)
  -- a fetch leaves HEAD and the local branches
  pub fetch_keeps_head :
      (w : T.World) (o : FetchOptions T) → (refs (git.fetch repo o w).1).head ≡ (refs w).head
  pub fetch_keeps_branch :
      (w : T.World) (o : FetchOptions T) (b : String)
      → let n = branch_name b in (refs (git.fetch repo o w).1).tip n ≡ (refs w).tip n
  pub fetch_finds_nothing :
      (w : T.World) (o : FetchOptions T)
      → (git.fetch repo o w).0 ≡ failed git_already_up_to_date
      → refs (git.fetch repo o w).1 ≡ refs w
  -- a pull fetches, and moves the branch of HEAD to the remote branch
  pub pull_keeps_head :
      (w : T.World) (t : T.Worktree) (o : PullOptions T)
      → (refs (git.pull t o w).1).head ≡ (refs w).head
  pub pull_moves :
      (w : T.World) (t : T.Worktree) (o : PullOptions T) (b : String)
      → IsOwn t
      → o.reference_name ≡ branch_name b
      → (git.pull t o w).0 ≡ value tt
      → let r = refs (git.pull t o w).1 in r.tip r.head ≡ r.tip (tracking_name b)
  pub pull_finds_nothing :
      (w : T.World) (t : T.Worktree) (o : PullOptions T)
      → IsOwn t
      → (git.pull t o w).0 ≡ failed git_already_up_to_date
      → refs (git.pull t o w).1 ≡ refs w
  pub log_reads :
      (w : T.World) (filter : String → Bool) {cs : List Commit}
      → (git.log repo filter w).0 ≡ value cs
      → cs ≡ history ((refs w).tip (refs w).head) filter
  pub log_keeps : (w : T.World) (filter : String → Bool) → refs (git.log repo filter w).1 ≡ refs w

module _ {T : Types} {git : GitLibrary T} {repo : T.Repository} (laws : GitLaws git repo) where
  open laws use {refs}

  -- The newest commit of a history that touches a file whose path begins with the application's path;
  -- zero where there is none.
  abbrev pub newest : Application T → Hash → Hash
  newest a h = first_revision (value (map (λ c. c.hash) (laws.history h (begins a.sparse_path))))

  abbrev pub local_tip : AppState T → Hash
  local_tip s = (refs s.world).tip (branch_name s.app.reference)

  abbrev pub remote_tip : AppState T → Hash
  remote_tip s = (refs s.world).tip (tracking_name s.app.reference)

  -- An application of the repository, with the branch of its reference checked out.
  abbrev pub IsOnBranch : AppState T → Type 0
  IsOnBranch s =
      let branch = branch_name s.app.reference in
      (s.app.repo ≡ repo)
      × (s.app.checkout_options.branch ≡ branch)
      × (s.app.pull_options.reference_name ≡ branch)
      × ((refs s.world).head ≡ branch)

  -- The local branch is where the remote branch was last seen, and the current revision is the newest
  -- commit of it that touches a file whose path begins with the application's.
  abbrev pub IsInStep : AppState T → Type 0
  IsInStep s =
      IsOnBranch s
      × (local_tip s ≡ remote_tip s)
      × (s.app.current_revision ≡ newest s.app (remote_tip s))
