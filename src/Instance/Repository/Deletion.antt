-- ===== src/Instance/Repository/Deletion.antt =====
-- server/pkg/instance/repository.go, DeleteApplication: its deferred calls are TryLock. What becomes
-- of the mutex of the repository.
use dummy_cd.Base.{ℕ, zero, String, ◌≡◌, refl, true, none, some, arith}
use dummy_cd.Go.{ok, blocked}
use dummy_cd.Libs.{Types}
use dummy_cd.Libs.Charts.{RestConfig}
use dummy_cd.Instance.{Libraries}
use dummy_cd.Instance.Application.{Application, ApplicationSpec, new_application}
use dummy_cd.Instance.Repository.{
  RepoState, find_first, find_last, add_application, place, add_or_update_application,
  remove_application, remove_found, delete_application,
}
use dummy_cd.Instance.Repository.Keeps.{find_first-state, find_last-state}
use dummy_cd.Instance.Handler.{run_repository}

module _ {T : Types} (libs : Libraries T) (rest : RestConfig) where
  remove-holds :
      (i : ℕ) (a : Application T) (s : RepoState T)
      → (remove_application libs rest i a s).0 ≡ ok tt
      → (remove_application libs rest i a s).1.repository.held ≡ true
  unfolding remove_application
  remove-holds i a s h = ground arith

  remove_found-holds :
      (i : ℕ) (s : RepoState T)
      → (remove_found libs rest (some i) s).0 ≡ ok tt
      → (remove_found libs rest (some i) s).1.repository.held ≡ true
  unfolding remove_found
  remove_found-holds i s h = grind (arith, remove-holds)

  delete-holds :
      (name : String) (i : ℕ) (s : RepoState T)
      → (find_last name s.repository.apps zero none s).0 ≡ ok (some i)
      → (delete_application libs rest name s).0 ≡ ok tt
      → (delete_application libs rest name s).1.repository.held ≡ true
  unfolding delete_application
  delete-holds name i s found h =
      ground (arith, find_last-state name s.repository.apps zero none s, remove_found-holds i s)

  -- While the mutex is held, an application of a new name waits, once it has been made.
  add-blocks :
      (app : ApplicationSpec T) (a : Application T) (s : RepoState T)
      → s.repository.held ≡ true
      → (find_first app.name s.repository.apps zero s).0 ≡ ok none
      → (new_application libs app rest s.world).0 ≡ ok a
      → (add_or_update_application libs rest app s).0 ≡ blocked
  unfolding add_or_update_application place add_application
  add-blocks app a s held new made =
      ground (arith, find_first-state app.name s.repository.apps zero s)

  -- After DeleteApplication has removed an application, the repository's mutex is held: an
  -- application of a new name that could be made waits for ever, and Handle passes the repository
  -- over, so none of its applications is delivered again.
  pub delete_application-locks_out :
      (name : String) (i : ℕ) (s : RepoState T) (app : ApplicationSpec T) (a : Application T)
      (w : T.World)
      → (find_last name s.repository.apps zero none s).0 ≡ ok (some i)
      → (delete_application libs rest name s).0 ≡ ok tt
      → let t = (delete_application libs rest name s).1 in
        (find_first app.name t.repository.apps zero t).0 ≡ ok none
        → (new_application libs app rest t.world).0 ≡ ok a
        → ((add_or_update_application libs rest app t).0 ≡ blocked)
          × (run_repository libs t.repository w ≡ (ok t.repository, w))
  unfolding run_repository
  delete_application-locks_out name i s app a w found done new made =
      let held = delete-holds name i s found done in
      (add-blocks app a (delete_application libs rest name s).1 held new made, rw held refl)
