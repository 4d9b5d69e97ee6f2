-- ===== src/Instance/Repository.antt =====
-- server/pkg/instance/repository.go, RepositoryConfig: its applications and its mutex. An entry of
-- `apps` that is `none` is a nil pointer.
pub mod Keeps
pub mod Deletion
pub mod Replacement
pub mod Placement
pub mod Names
pub mod Outcomes
pub mod Orderly
pub mod Synced
pub mod Removed
use dummy_cd.Base.{
  ℕ, zero, suc, String, Bool, true, false, ◌&&◌, Option, none, some, List, [], ◌∷◌, ◌++◌, ◌==◌,
  if◌then◌else◌,
}
use dummy_cd.Go.{
  Error, no_err_already_up_todate, Returned, value, failed, Result, ok, err, panic, blocked, Exec,
  pure, raise, panics, deref, call, must, check, attempt, zoom, gets, modify, lock, deferred, ◌>>=◌,
  ◌>>◌,
}
use dummy_cd.Util.{pointer}
use dummy_cd.Slice.{get_elem?, set, swap_remove}
use dummy_cd.Libs.{Types}
use dummy_cd.Libs.Charts.{RestConfig}
use dummy_cd.Instance.{Libraries}
use dummy_cd.Instance.Remote.{Remote, RepositorySettings, new_remote}
use dummy_cd.Instance.Application.{
  Application, ApplicationSpec, AppState, new_application, uninstall_provider,
}

pub record RepositoryConfig (T : Types) : Type 0 where
  pub remote : Remote T
  pub open remote use *
  pub held : Bool
  pub apps : List (Option (Application T))

pub record RepoState (T : Types) : Type 0 where
  pub repository : RepositoryConfig T
  pub world : T.World

module _ {T : Types} where
  abbrev pub on_world : {A : Type 0} → Exec T.World A → Exec (RepoState T) A
  on_world = zoom (λ s. s.world) (λ w s. record s { world = w })

  abbrev pub set_held : Bool → RepoState T → RepoState T
  set_held b s = record s { repository = record (s.repository) { held = b } }

  abbrev pub set_apps : List (Option (Application T)) → RepoState T → RepoState T
  set_apps apps s = record s { repository = record (s.repository) { apps = apps } }

  -- The flag of a mutex of an application in the list.
  abbrev pub hold : Bool → Option (Application T) → Option (Application T)
  hold b none = none
  hold b (some a) = some (record a { held = b })

  -- The loop of AddOrUpdateApplication: the first index of the name. A nil pointer that is met
  -- before is dereferenced.
  unfoldable pub find_first :
      {S : Type 0} → String → List (Option (Application T)) → ℕ → Exec S (Option ℕ)
  find_first name [] i = pure none
  find_first name (none ∷ rest) i = panics
  find_first name (some a ∷ rest) i =
      if a.name == name then pure (some i) else find_first name rest (suc i)

  -- The loop of DeleteApplication, which has no break: the last index of the name.
  unfoldable pub find_last :
      {S : Type 0} → String → List (Option (Application T)) → ℕ → Option ℕ → Exec S (Option ℕ)
  find_last name [] i last = pure last
  find_last name (none ∷ rest) i last = panics
  find_last name (some a ∷ rest) i last =
      find_last name rest (suc i) (if a.name == name then some i else last)

  -- cmp.Equal with its options: unexported fields, the repository, the revision and what the helm
  -- provider holds are not compared.
  unfoldable pub cmp_equal : ApplicationSpec T → ApplicationSpec T → Bool
  cmp_equal a b =
      a.name == b.name
      && a.namespace == b.namespace
      && a.url == b.url
      && a.reference == b.reference
      && a.sparse_path == b.sparse_path

  abbrev finish_app :
      Result (Returned (Unit {0}))
      → AppState T
      → Result (Returned (Unit {0}) × Application T) × T.World
  finish_app (ok r) s = (ok (r, s.app), s.world)
  finish_app (err e) s = (err e, s.world)
  finish_app panic s = (panic, s.world)
  finish_app blocked s = (blocked, s.world)

  -- Code on one application whose error is looked at, beside the application as it leaves it.
  abbrev pub run_app :
      Application T
      → Exec (AppState T) (Unit {0})
      → Exec T.World (Returned (Unit {0}) × Application T)
  run_app a m w =
      let s : AppState T = record { app = a; world = w } in
      finish_app (attempt m s).0 (attempt m s).1

module _ {T : Types} (libs : Libraries T) (rest : RestConfig) where
  open libs use {files}

  -- Where no application has the name.
  unfoldable pub add_application : ApplicationSpec T → Exec (RepoState T) (Unit {0})
  add_application app = do
    a ← on_world (new_application libs app rest)
    lock (λ s. s.repository.held) set_held
    deferred (set_held false) (modify (λ s. set_apps (s.repository.apps ++ some a ∷ []) s))

  -- `r.Apps[appIndex], err = NewApplication(...)`: on an error the entry becomes nil.
  unfoldable pub replace_application : ℕ → ApplicationSpec T → Exec (RepoState T) (Unit {0})
  replace_application i app = do
    made ← on_world (attempt (new_application libs app rest))
    modify (λ s. set_apps (set s.repository.apps i (pointer made)) s)
    check made
    pure tt

  -- The mutex of the application at an index.
  abbrev pub lock_app : ℕ → Application T → Exec (RepoState T) (Unit {0})
  lock_app i a =
      lock (λ _. a.held)
        (λ b s. set_apps (set s.repository.apps i (some (record a { held = b }))) s)

  abbrev pub release_app : ℕ → RepoState T → RepoState T
  release_app i s = elim (get_elem? s.repository.apps i) [
    | none ↦ s
    | some a ↦ set_apps (set s.repository.apps i (hold false a)) s
  ]

  -- Where the application at index `i` has the name.
  unfoldable pub update_application :
      ℕ → Application T → ApplicationSpec T → Exec (RepoState T) (Unit {0})
  update_application i a app = if cmp_equal a.spec app then raise no_err_already_up_todate else do
    lock (λ s. s.repository.held) set_held
    deferred (set_held false) do
      lock_app i a
      deferred (release_app i)
          do on_world (must (files.remove_all a.storage_path)); replace_application i app

  unfoldable pub place : ApplicationSpec T → Option ℕ → Exec (RepoState T) (Unit {0})
  place app none = add_application app
  place app (some i) = do
    apps ← gets (λ s. s.repository.apps)
    entry ← deref (get_elem? apps i)
    a ← deref entry
    update_application i a app

  unfoldable pub add_or_update_application : ApplicationSpec T → Exec (RepoState T) (Unit {0})
  add_or_update_application app = do
    apps ← gets (λ s. s.repository.apps)
    found ← find_first app.name apps zero
    place app found

  -- Both deferred calls of DeleteApplication are TryLock: the mutexes stay held. A failed uninstall
  -- is logged.
  unfoldable pub remove_application : ℕ → Application T → Exec (RepoState T) (Unit {0})
  remove_application i a = do
    lock (λ s. s.repository.held) set_held
    deferred (set_held true) do
      lock_app i a
      on_world (run_app a (uninstall_provider libs))
      modify (λ s. set_apps (swap_remove s.repository.apps i) s)

  unfoldable pub remove_found : Option ℕ → Exec (RepoState T) (Unit {0})
  remove_found none = pure tt
  remove_found (some i) = do
    apps ← gets (λ s. s.repository.apps)
    entry ← deref (get_elem? apps i)
    a ← deref entry
    remove_application i a

  unfoldable pub delete_application : String → Exec (RepoState T) (Unit {0})
  delete_application name = do
    apps ← gets (λ s. s.repository.apps)
    found ← find_last name apps zero none
    remove_found found

  unfoldable pub new_repository_config :
      String → RepositorySettings → String → Exec T.World (RepositoryConfig T)
  new_repository_config name settings current_namespace = do
    remote ← new_remote libs name settings rest current_namespace
    pure (record { remote = remote; held = false; apps = [] })
