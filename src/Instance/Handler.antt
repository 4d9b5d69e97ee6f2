-- ===== src/Instance/Handler.antt =====
-- server/pkg/instance/handler.go, RepositoryHandler: the repositories and the loop over them.
pub mod Deletion
pub mod Busy
pub mod Tick
pub mod Cleanups
use dummy_cd.Base.{
  ℕ, zero, suc, String, Bool, false, ◌&&◌, Option, none, some, List, [], ◌∷◌, ◌++◌, ◌==◌,
  if◌then◌else◌,
}
use dummy_cd.Go.{
  err_repository_already_exist, err_repository_config_not_found, Exec, pure, raise, panics, deref,
  zoom, gets, modify, lock, deferred, ◌>>=◌, ◌>>◌,
}
use dummy_cd.Slice.{get_elem?, swap_remove}
use dummy_cd.Libs.{Types}
use dummy_cd.Instance.{Libraries}
use dummy_cd.Instance.Application.{Application, uninstall}
use dummy_cd.Instance.Lifecycle.{run_life_cycle}
use dummy_cd.Instance.Repository.{RepositoryConfig, run_app}

pub record RepositoryHandler (T : Types) : Type 0 where
  pub repos : List (RepositoryConfig T)
  pub held : Bool
  pub current_namespace : String

pub record HandlerState (T : Types) : Type 0 where
  pub handler : RepositoryHandler T
  pub world : T.World

module _ {T : Types} where
  abbrev pub on_world : {A : Type 0} → Exec T.World A → Exec (HandlerState T) A
  on_world = zoom (λ s. s.world) (λ w s. record s { world = w })

  abbrev pub set_repos : List (RepositoryConfig T) → HandlerState T → HandlerState T
  set_repos repos s = record s { handler = record (s.handler) { repos = repos } }

  abbrev pub set_held : Bool → HandlerState T → HandlerState T
  set_held b s = record s { handler = record (s.handler) { held = b } }

  abbrev pub lock_handler : Exec (HandlerState T) (Unit {0})
  lock_handler = lock (λ s. s.handler.held) set_held

  -- `for !h.Mutex.TryLock() {}` and `defer h.Mutex.Unlock()` before the rest of a handler
  unfoldable pub with_handler : {A : Type 0} → Exec (HandlerState T) A → Exec (HandlerState T) A
  with_handler m = do lock_handler; deferred (set_held false) m

  unfoldable pub get_repository_config :
      String → List (RepositoryConfig T) → Option (RepositoryConfig T)
  get_repository_config url [] = none
  get_repository_config url (r ∷ rest) =
      if r.settings.url == url then some r else get_repository_config url rest

  -- The loop of AddRepository has found a repository of the URL, or none. The new repository's own
  -- mutex is free: nothing else has it yet.
  unfoldable pub append_unless :
      RepositoryConfig T → Option (RepositoryConfig T) → Exec (HandlerState T) (Unit {0})
  append_unless new (some _) = raise err_repository_already_exist
  append_unless new none = modify (λ s. set_repos (s.handler.repos ++ new ∷ []) s)

  unfoldable pub add_repository : RepositoryConfig T → Exec (HandlerState T) (Unit {0})
  add_repository new = do
    repos ← gets (λ s. s.handler.repos)
    append_unless new (get_repository_config new.settings.url repos)

  -- The loop of DeleteRepository, which has no break: the last index of the name.
  unfoldable pub find_last : String → List (RepositoryConfig T) → ℕ → Option ℕ → Option ℕ
  find_last name [] i last = last
  find_last name (r ∷ rest) i last =
      find_last name rest (suc i) (if r.name == name then some i else last)

  unfoldable pub get_in_apps :
      {S : Type 0}
      → String
      → String
      → List (Option (Application T))
      → Exec S (Option (Application T))
  get_in_apps name url [] = pure none
  get_in_apps name url (none ∷ rest) = panics
  get_in_apps name url (some a ∷ rest) =
      if a.name == name && a.url == url then pure (some a) else get_in_apps name url rest

  -- What is found in one repository, or what the later ones give.
  abbrev or_else :
      {S : Type 0}
      → Option (Application T)
      → Exec S (Option (Application T))
      → Exec S (Option (Application T))
  or_else none m = m
  or_else (some a) m = pure (some a)

  unfoldable pub get_application :
      {S : Type 0} → String → String → List (RepositoryConfig T) → Exec S (Option (Application T))
  get_application name url [] = pure none
  get_application name url (r ∷ rest) = do
    found ← get_in_apps name url r.apps
    or_else found (get_application name url rest)

module _ {T : Types} (libs : Libraries T) where
  -- The goroutines of DeleteRepository, one for each application, run one after another. Each waits
  -- for its application's mutex; its error is logged.
  unfoldable pub uninstall_all : List (Option (Application T)) → Exec T.World (Unit {0})
  uninstall_all [] = pure tt
  uninstall_all (none ∷ rest) = panics
  uninstall_all (some a ∷ rest) = do
    lock {S = T.World} (λ _. a.held) (λ _ w. w)
    run_app a (uninstall libs)
    uninstall_all rest

  unfoldable pub delete_at : ℕ → RepositoryConfig T → Exec (HandlerState T) (Unit {0})
  delete_at i r = do
    lock {S = HandlerState T} (λ _. r.held) (λ _ s. s)
    on_world (uninstall_all r.apps)
    modify (λ s. set_repos (swap_remove s.handler.repos i) s)

  unfoldable pub delete_found : Option ℕ → Exec (HandlerState T) (Unit {0})
  delete_found none = raise err_repository_config_not_found
  delete_found (some i) = do
    repos ← gets (λ s. s.handler.repos)
    r ← deref (get_elem? repos i)
    delete_at i r

  unfoldable pub delete_repository : String → Exec (HandlerState T) (Unit {0})
  delete_repository name = do
    repos ← gets (λ s. s.handler.repos)
    delete_found (find_last name repos zero none)

  -- The goroutines of Handle, run one after another, each from where it is started. A mutex that is
  -- held is met by wg.Done() with no goroutine running: the counter falls below zero, a panic.
  unfoldable pub run_apps :
      List (Option (Application T)) → Exec T.World (List (Option (Application T)))
  run_apps [] = pure []
  run_apps (none ∷ rest) = panics
  run_apps (some a ∷ rest) = if a.held then panics else do
    done ← run_app a (run_life_cycle libs)
    rest' ← run_apps rest
    pure (some done.1 ∷ rest')

  -- A repository whose mutex is held is passed over.
  unfoldable pub run_repository : RepositoryConfig T → Exec T.World (RepositoryConfig T)
  run_repository r =
      if r.held then pure r else do apps ← run_apps r.apps; pure (record r { apps = apps })

  unfoldable pub run_repositories :
      List (RepositoryConfig T) → Exec T.World (List (RepositoryConfig T))
  run_repositories [] = pure []
  run_repositories (r ∷ rest) = do
    r' ← run_repository r
    rest' ← run_repositories rest
    pure (r' ∷ rest')

  unfoldable pub run_all : Exec (HandlerState T) (Unit {0})
  run_all = do
    repos ← gets (λ s. s.handler.repos)
    done ← on_world (run_repositories repos)
    modify (set_repos done)

  -- One tick of Handle.
  unfoldable pub tick : Exec (HandlerState T) (Unit {0})
  tick = do busy ← gets (λ s. s.handler.held); if busy then pure tt else run_all

  -- Handle over the ticks that come before `done`.
  unfoldable pub handle : ℕ → Exec (HandlerState T) (Unit {0})
  handle zero = pure tt
  handle (suc n) = do tick; handle n
