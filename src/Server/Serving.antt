-- ===== src/Server/Serving.antt =====
-- server/pkg/server/server.go, AddRepository: an answer without an error means that the handler has
-- the repository.
use dummy_cd.Base.{
  String, ◌≡◌, refl, subst, true, none, some, is_some, List, [], ◌∷◌, ◌++◌, arith, Option-cases,
  eq_iff, inl, inr,
}
use dummy_cd.Go.{OnOk, Result, ok, err, panic, blocked, continue}
use dummy_cd.Libs.{Types}
use dummy_cd.Libs.Charts.{RestConfig}
use dummy_cd.Instance.{Libraries}
use dummy_cd.Instance.Remote.{RepositorySettings, new_remote}
use dummy_cd.Instance.Repository.{RepositoryConfig, new_repository_config}
use dummy_cd.Instance.Handler.{
  HandlerState, get_repository_config, append_unless, add_repository, with_handler,
}
use dummy_cd.Pb
use dummy_cd.Server.Messages.{settings_of}
use dummy_cd.Server.Requests.{create_repository, create_unless, add_repository_request}

module _ {T : Types} where
  abbrev pub Serves : String → List (RepositoryConfig T) → Type 0
  Serves url repos = is_some (get_repository_config url repos) ≡ true

  Serves-append :
      (url : String) (new : RepositoryConfig T) (repos : List (RepositoryConfig T))
      → new.settings.url ≡ url
      → Serves url (repos ++ new ∷ [])
  unfolding get_repository_config
  Serves-append url new [] e = ground (arith, eq_iff new.settings.url url)
  Serves-append url new (x ∷ rest) e = ground (arith, Serves-append url new rest e)

  add_repository-Serves :
      (url : String) (new : RepositoryConfig T) (s : HandlerState T)
      → new.settings.url ≡ url
      → (add_repository new s).0 ≡ ok tt
      → Serves url (add_repository new s).1.handler.repos
  unfolding add_repository append_unless
  add_repository-Serves url new s e h =
      elim (Option-cases (get_repository_config new.settings.url s.handler.repos)) [
        | inl f ↦ ground (arith, Serves-append url new s.handler.repos e)
        | inr (r, f) ↦ ground arith
      ]

  then_add-Serves :
      (url : String) (r : Result (RepositoryConfig T)) (s : HandlerState T)
      → OnOk (λ new. new.settings.url ≡ url) r
      → (continue r add_repository s).0 ≡ ok tt
      → Serves url (continue r add_repository s).1.handler.repos
  then_add-Serves url (ok new) s e h = add_repository-Serves url new s e h
  then_add-Serves url (err x) s e h = cc
  then_add-Serves url panic s e h = cc
  then_add-Serves url blocked s e h = cc

module _ {T : Types} (libs : Libraries T) (cfg : RestConfig) where
  new_remote-settings :
      (name : String) (settings : RepositorySettings) (namespace : String) (w : T.World)
      → OnOk
          (λ remote. remote.settings ≡ settings)
          (new_remote libs name settings cfg namespace w).0
  unfolding new_remote
  new_remote-settings name settings namespace w = ground arith

  new_repository_config-url :
      (m : Pb.Repository) (namespace : _) (w : T.World)
      → OnOk
          (λ new. new.settings.url ≡ m.url)
          (new_repository_config libs cfg m.name (settings_of m) namespace w).0
  unfolding new_repository_config settings_of
  new_repository_config-url m namespace w =
      ground (arith, new_remote-settings m.name (settings_of m) namespace w)

  create_repository-Serves :
      (m : Pb.Repository) (s : HandlerState T)
      → (create_repository libs cfg m s).0 ≡ ok tt
      → Serves m.url (create_repository libs cfg m s).1.handler.repos
  unfolding create_repository
  create_repository-Serves m s h =
      then_add-Serves m.url _ _ (new_repository_config-url m s.handler.current_namespace s.world) h

  create_unless-Serves :
      (m : Pb.Repository) (s : HandlerState T)
      → (create_unless libs cfg m none s).0 ≡ ok tt
      → Serves m.url (create_unless libs cfg m none s).1.handler.repos
  unfolding create_unless with_handler
  create_unless-Serves m s h = ground (
    arith,
    create_repository-Serves m (record s { handler = record (s.handler) { held = true } }),
  )

  create_unless-kept :
      (m : Pb.Repository) (r : RepositoryConfig T) (s : HandlerState T)
      → (create_unless libs cfg m (some r) s).1 ≡ s
  unfolding create_unless
  create_unless-kept m r s = refl

  -- A request to add a repository that is answered with no error leaves a repository of its URL in
  -- the handler.
  pub add_repository_request-Serves :
      (m : Pb.Repository) (s : HandlerState T)
      → (add_repository_request libs cfg m s).0 ≡ ok tt
      → Serves m.url (add_repository_request libs cfg m s).1.handler.repos
  unfolding add_repository_request
  add_repository_request-Serves m s h =
      elim (Option-cases (get_repository_config m.url s.handler.repos)) [
        | inl e ↦
            rw e
              (create_unless-Serves m s (subst (λ o. (create_unless libs cfg m o s).0 ≡ ok tt) e h))
        | inr (r, e) ↦ rw (e, create_unless-kept m r s, e) refl
      ]
