-- ===== src/Instance/Repository/Keeps.antt =====
-- server/pkg/instance/repository.go: what the operations on applications leave alone.
use dummy_cd.Base.{ℕ, zero, String, ◌≡◌, refl, Option, none, some, List, [], ◌∷◌, arith}
use dummy_cd.Go.{ok}
use dummy_cd.Libs.{Types}
use dummy_cd.Libs.Charts.{RestConfig}
use dummy_cd.Instance.{Libraries}
use dummy_cd.Instance.Application.{Application, ApplicationSpec}
use dummy_cd.Instance.Repository.{
  RepoState, find_first, find_last, add_application, replace_application, update_application, place,
  add_or_update_application, remove_application, remove_found, delete_application,
}

module _ {T : Types} where
  -- The searches read the state and leave it alone.
  pub find_first-state :
      {S : Type 0} (name : String) (apps : List (Option (Application T))) (i : ℕ) (s : S)
      → (find_first name apps i s).1 ≡ s
  unfolding find_first
  find_first-state name [] i s = refl
  find_first-state name (none ∷ rest) i s = refl
  find_first-state name (some a ∷ rest) i s = ground (arith, find_first-state name rest (ℕ.suc i) s)

  pub find_last-state :
      {S : Type 0} (name : String) (apps : List (Option (Application T))) (i : ℕ) (l : Option ℕ)
      (s : S)
      → (find_last name apps i l s).1 ≡ s
  unfolding find_last
  find_last-state name [] i l s = refl
  find_last-state name (none ∷ rest) i l s = refl
  find_last-state name (some a ∷ rest) i l s = find_last-state name rest (ℕ.suc i) _ s

module _ {T : Types} (libs : Libraries T) (rest : RestConfig) where
  abbrev Keeps : RepoState T → RepoState T → Type 0
  Keeps s t = t.repository.remote ≡ s.repository.remote

  add-Keeps :
      (app : ApplicationSpec T) (s : RepoState T) → Keeps s (add_application libs rest app s).1
  unfolding add_application
  add-Keeps app s = ground arith

  replace-Keeps :
      (i : ℕ) (app : ApplicationSpec T) (s : RepoState T)
      → Keeps s (replace_application libs rest i app s).1
  unfolding replace_application
  replace-Keeps i app s = ground arith

  update-Keeps :
      (i : ℕ) (a : Application T) (app : ApplicationSpec T) (s : RepoState T)
      → Keeps s (update_application libs rest i a app s).1
  unfolding update_application
  update-Keeps i a app s = grind (arith, replace-Keeps)

  place-Keeps :
      (app : ApplicationSpec T) (o : Option ℕ) (s : RepoState T)
      → Keeps s (place libs rest app o s).1
  unfolding place
  place-Keeps app none s = add-Keeps app s
  place-Keeps app (some i) s = grind (arith, update-Keeps)

  pub add_or_update_application-remote :
      (app : ApplicationSpec T) (s : RepoState T)
      → Keeps s (add_or_update_application libs rest app s).1
  unfolding add_or_update_application
  add_or_update_application-remote app s =
      grind (arith, place-Keeps, find_first-state app.name s.repository.apps zero s)

  remove-Keeps :
      (i : ℕ) (a : Application T) (s : RepoState T) → Keeps s (remove_application libs rest i a s).1
  unfolding remove_application
  remove-Keeps i a s = ground arith

  remove_found-Keeps : (o : Option ℕ) (s : RepoState T) → Keeps s (remove_found libs rest o s).1
  unfolding remove_found
  remove_found-Keeps none s = refl
  remove_found-Keeps (some i) s = grind (arith, remove-Keeps)

  pub delete_application-remote :
      (name : String) (s : RepoState T) → Keeps s (delete_application libs rest name s).1
  unfolding delete_application
  delete_application-remote name s =
      grind (arith, remove_found-Keeps, find_last-state name s.repository.apps zero none s)

  -- What AddOrUpdateApplication does once its search has ended.
  pub add_or_update-place :
      (app : ApplicationSpec T) (o : Option ℕ) (s : RepoState T)
      → (find_first app.name s.repository.apps zero s).0 ≡ ok o
      → add_or_update_application libs rest app s ≡ place libs rest app o s
  unfolding add_or_update_application
  add_or_update-place app o s found =
      rw (found, find_first-state app.name s.repository.apps zero s) refl
