-- ===== src/Server/Urls/Repos.antt =====
-- server/pkg/instance/handler.go: what the handler's own operations do to the URLs.
use mathlib.Core.List.{
  Mem, Nodup, Nodup-cons, mem-cons, not-mem-nil, perm_append_singleton, map-append,
}
use mathlib.Core.List.Perm
use mathlib.Core.Logic.Or
use dummy_cd.Base.{
  ℕ, String, ◌≡◌, refl, sym, subst, none, some, List, [], ◌∷◌, ◌++◌, map, arith, eq_iff,
}
use dummy_cd.Go.{OnOk}
use dummy_cd.Slice.{get_elem?, swap_remove}
use dummy_cd.Slice.Removal.{swap_remove-perm}
use dummy_cd.Libs.{Types}
use dummy_cd.Instance.{Libraries}
use dummy_cd.Instance.Repository.{RepositoryConfig}
use dummy_cd.Instance.Handler.{get_repository_config, run_repository, run_repositories}
use dummy_cd.Server.Messages.{replace_first}

append-Nodup : (url : String) (xs : List String) → ¬ Mem url xs → Nodup xs → Nodup (xs ++ url ∷ [])
append-Nodup url xs new h =
    Perm.nodup (Perm.symm (perm_append_singleton url xs)) (Nodup-cons.1 (new, h))

module _ {T : Types} where
  abbrev pub urls : List (RepositoryConfig T) → List String
  urls = map (λ r. r.settings.url)

  -- What is not found is not there.
  get-none-not-mem :
      (url : String) (repos : List (RepositoryConfig T))
      → get_repository_config url repos ≡ none
      → ¬ Mem url (urls repos)
  unfolding get_repository_config
  get-none-not-mem url [] h = not-mem-nil
  get-none-not-mem url (r ∷ rest) h = λ m.
      Or.elim (λ x. absurd x) (mem-cons.0 m) (λ e. ground (arith, eq_iff r.settings.url url, e))
        (λ m'. get-none-not-mem url rest (ground arith) m')

  pub get-some-url :
      (url : String) (repos : List (RepositoryConfig T)) {r : RepositoryConfig T}
      → get_repository_config url repos ≡ some r
      → r.settings.url ≡ url
  unfolding get_repository_config
  get-some-url url [] h = cc
  get-some-url url (r ∷ rest) {r = x} h =
      ground (arith, eq_iff r.settings.url url, get-some-url url rest {r = x})

  pub urls-replace_first :
      (url : String) (r' : RepositoryConfig T) (repos : List (RepositoryConfig T))
      → r'.settings.url ≡ url
      → urls (replace_first url r' repos) ≡ urls repos
  unfolding replace_first
  urls-replace_first url r' [] h = refl
  urls-replace_first url r' (r ∷ rest) h =
      ground (arith, eq_iff r.settings.url url, urls-replace_first url r' rest h)

  pub append_url-Nodup :
      (new : RepositoryConfig T) (repos : List (RepositoryConfig T))
      → get_repository_config new.settings.url repos ≡ none
      → Nodup (urls repos)
      → Nodup (urls (repos ++ new ∷ []))
  append_url-Nodup new repos e h =
      subst Nodup (sym (map-append _ repos (new ∷ [])))
        (append-Nodup new.settings.url (urls repos) (get-none-not-mem new.settings.url repos e) h)

  pub swap_remove-Nodup :
      (repos : List (RepositoryConfig T)) (i : ℕ) {r : RepositoryConfig T}
      → get_elem? repos i ≡ some r
      → Nodup (urls repos)
      → Nodup (urls (swap_remove repos i))
  swap_remove-Nodup repos i e h =
      (Nodup-cons.0 (Perm.nodup (Perm.map _ (swap_remove-perm repos i e)) h)).1

module _ {T : Types} (libs : Libraries T) where
  run_repository-url :
      (r : RepositoryConfig T) (w : T.World)
      → OnOk (λ r'. r'.settings.url ≡ r.settings.url) (run_repository libs r w).0
  unfolding run_repository
  run_repository-url r w = ground arith

  pub run_repositories-urls :
      (repos : List (RepositoryConfig T)) (w : T.World)
      → OnOk (λ repos'. urls repos' ≡ urls repos) (run_repositories libs repos w).0
  unfolding run_repositories
  run_repositories-urls [] w = refl
  run_repositories-urls (r ∷ rest) w =
      ground (arith, run_repository-url r w, run_repositories-urls rest (run_repository libs r w).1)
