-- ===== src/Instance/Lifecycle.antt =====
-- server/pkg/instance/application.go, RunLifeCycle and the lists of revisions.
pub mod Revision
pub mod Refs
pub mod Newest
pub mod Branches
pub mod InStep
pub mod Lost
pub mod Deployed
use dummy_cd.Base.{
  String, Bool, true, false, not, Option, none, List, [], ◌∷◌, map, nat_eq, if◌then◌else◌,
}
use dummy_cd.Go.{
  Error, git_already_up_to_date, head_revision_is_zero, Returned, value, failed, Exec, Hash,
  zero_hash, is_zero, pure, raise, call, must, attempt, gets, modify, ◌>>=◌, ◌>>◌,
}
use dummy_cd.Libs.{Types}
use dummy_cd.Libs.Git.{Commit}
use dummy_cd.Instance.{Libraries}
use dummy_cd.Instance.Application.{
  Application, AppState, on_world, local_reference_name, remote_reference_name, path_filter,
  deliver,
}

-- revisions[0], and the zero hash where there is an error or no revision.
unfoldable pub first_revision : Returned (List Hash) → Hash
first_revision (failed e) = zero_hash
first_revision (value []) = zero_hash
first_revision (value (h ∷ rest)) = h

module _ {T : Types} (libs : Libraries T) where
  open libs use {helm as helm_lib, git}

  unfoldable pub get_revisions_with_path_filter : Exec (AppState T) (List Commit)
  get_revisions_with_path_filter = do
    a ← gets (λ s. s.app)
    on_world (must (git.log a.repo (path_filter a.sparse_path)))

  unfoldable pub get_revision_hash_list : Exec (AppState T) (List Hash)
  unfolding get_revisions_with_path_filter
  get_revision_hash_list = do
    commits ← get_revisions_with_path_filter
    pure (map (λ c. c.hash) commits)

  -- The maps of GetRevisionStringsMap: the texts of the hash and of the message.
  unfoldable pub get_revision_strings_map : Exec (AppState T) (List (String × String))
  unfolding get_revisions_with_path_filter
  get_revision_strings_map = do
    commits ← get_revisions_with_path_filter
    pure (map (λ c. (helm_lib.hash_string c.hash, c.message)) commits)

  unfoldable pub get_application_head_revision : Exec (AppState T) Hash
  unfolding get_revision_hash_list first_revision
  get_application_head_revision = do
    revisions ← attempt get_revision_hash_list
    pure (first_revision revisions)

  abbrev set_revision : Hash → AppState T → AppState T
  set_revision h s = record s { app = record (s.app) { current_revision = h } }

  -- RunLifeCycle from the second worktree on: take over the head revision and deliver it.
  unfoldable pub take_head : Exec (AppState T) (Unit {0})
  take_head = do
    a ← gets (λ s. s.app)
    worktree ← on_world (must (git.worktree a.repo))
    on_world (must (git.checkout worktree a.checkout_options))
    head ← get_application_head_revision
    if is_zero head
        then raise head_revision_is_zero
        else if nat_eq a.current_revision head
        then pure tt
        else do modify (set_revision head); deliver libs

  -- What follows worktree.Pull.
  unfoldable pub after_pull : Returned (Unit {0}) → Exec (AppState T) (Unit {0})
  after_pull (value _) = take_head
  after_pull (failed git_already_up_to_date) = do
    a ← gets (λ s. s.app)
    if not (is_zero a.current_revision) then pure tt else take_head
  after_pull (failed e) = raise e

  -- Where the remote branch has moved away from the local one.
  unfoldable pub reset_to : T.Worktree → Hash → Exec (AppState T) (Unit {0})
  reset_to worktree remote = do
    a ← gets (λ s. s.app)
    on_world (must (git.hard_reset_sparsely worktree remote (a.sparse_path ∷ [])))
    take_head

  -- Where the local branch is the remote one.
  unfoldable pub pull_updates : T.Worktree → Exec (AppState T) (Unit {0})
  pull_updates worktree = do
    a ← gets (λ s. s.app)
    on_world (must (git.checkout worktree a.checkout_options))
    pulled ← on_world (call (git.pull worktree a.pull_options))
    after_pull pulled

  -- The two ways to bring the worktree up to date.
  unfoldable pub reconcile : T.Worktree → Hash → Hash → Exec (AppState T) (Unit {0})
  reconcile worktree local remote =
      if not (nat_eq local remote) then reset_to worktree remote else pull_updates worktree

  -- RunLifeCycle from "updates fetched" on.
  unfoldable pub update_repository : Exec (AppState T) (Unit {0})
  update_repository = do
    a ← gets (λ s. s.app)
    local ← on_world (must (git.reference a.repo (local_reference_name a.reference) true))
    remote ← on_world (must (git.reference a.repo (remote_reference_name a.reference) true))
    worktree ← on_world (must (git.worktree a.repo))
    reconcile worktree local remote

  -- What follows repo.Fetch.
  unfoldable pub after_fetch : Returned (Unit {0}) → Exec (AppState T) (Unit {0})
  after_fetch (value _) = update_repository
  after_fetch (failed git_already_up_to_date) = do
    a ← gets (λ s. s.app)
    if not (is_zero a.current_revision) then deliver libs else update_repository
  after_fetch (failed e) = raise e

  unfoldable pub run_life_cycle : Exec (AppState T) (Unit {0})
  run_life_cycle = do
    a ← gets (λ s. s.app)
    fetched ← on_world (call (git.fetch a.repo a.fetch_options))
    after_fetch fetched
