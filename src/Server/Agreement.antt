-- ===== src/Server/Agreement.antt =====
-- server/pkg/server/server.go: what an answer without an error says of the handler's applications.
use mathlib.Core.List.{Mem}
use dummy_cd.Base.{
  String, ◌≡◌, ◌≢◌, refl, sym, ap, ◌∙◌, subst, ◌⊎◌, Option, none, some, List, [], ◌∷◌, All, arith,
  Option-cases, Holds, eq_iff, inl, inr,
}
use dummy_cd.Go.{no_err_already_up_todate, Result-cases, ok, err, Returned, value, failed}
use dummy_cd.Libs.{Types}
use dummy_cd.Libs.Charts.{RestConfig}
use dummy_cd.Instance.{Libraries}
use dummy_cd.Instance.Remote.{Remote}
use dummy_cd.Instance.Repository.{
  RepositoryConfig, RepoState, add_or_update_application, delete_application,
}
use dummy_cd.Instance.Repository.Keeps.{add_or_update_application-remote, delete_application-remote}
use dummy_cd.Instance.Repository.Names.{names}
use dummy_cd.Instance.Sentinel.{IsOwn}
use dummy_cd.Instance.Repository.Synced.{Has, add_or_update-Has}
use dummy_cd.Instance.Repository.Removed.{delete_application-absent}
use dummy_cd.Instance.Handler.{HandlerState, get_repository_config}
use dummy_cd.Pb
use dummy_cd.Server.Messages.{on_repository, replace_first, spec_of, up_to_date_is_ok}
use dummy_cd.Server.Requests.{
  add_or_update_in, add_or_update_application_request, delete_in, delete_application_request,
}
use dummy_cd.Server.Urls.Repos.{get-some-url}
use dummy_cd.Server.Orderly.{InOrder, All-found}

-- An answer without an error stands for success or for the sentinel.
answered :
    {S : Type 0} (r : Returned (Unit {0})) (s : S)
    → (up_to_date_is_ok r s).0 ≡ ok tt
    → (r ≡ value tt) ⊎ (r ≡ failed no_err_already_up_todate)
unfolding up_to_date_is_ok
answered (value u) s h = inl refl
answered (failed no_err_already_up_todate) s h = inr refl
answered (failed e) s h = ground arith

module _ {T : Types} where
  -- The first repository of the message's URL has an application that is as the message asks.
  abbrev pub Agrees : Pb.Application → List (RepositoryConfig T) → Type 0
  Agrees m repos = Holds (λ r. Has (spec_of m r.remote) r.apps) (get_repository_config m.url repos)

  -- The first repository of the message's URL, if there is one, has no application of its name.
  abbrev pub LacksName : Pb.Application → Option (RepositoryConfig T) → Type 0
  LacksName m none = Unit
  LacksName m (some r) = ¬ Mem m.name (names r.apps)

  abbrev pub Lacks : Pb.Application → List (RepositoryConfig T) → Type 0
  Lacks m repos = LacksName m (get_repository_config m.url repos)

  -- What is written back is found.
  get-replace_first :
      (url : String) (r' : RepositoryConfig T) (repos : List (RepositoryConfig T))
      {r : RepositoryConfig T}
      → r'.settings.url ≡ url
      → get_repository_config url repos ≡ some r
      → get_repository_config url (replace_first url r' repos) ≡ some r'
  unfolding get_repository_config replace_first
  get-replace_first url r' [] e h = cc
  get-replace_first url r' (x ∷ rest) {r} e h =
      ground (arith, eq_iff r'.settings.url url, get-replace_first url r' rest {r = r} e)

module _ {T : Types} (libs : Libraries T) (cfg : RestConfig) where
  add_or_update_in-cases :
      (m : Pb.Application) (r : RepositoryConfig T) (s : HandlerState T)
      → (add_or_update_in libs cfg m (some r) s).0 ≡ ok tt
      → let done =
          (add_or_update_application libs cfg
            (spec_of m r.remote)
            (record { repository = r; world = s.world })).0 in
        (done ≡ ok tt) ⊎ (done ≡ err no_err_already_up_todate)
  unfolding add_or_update_in on_repository
  add_or_update_in-cases m r s h =
      elim (Result-cases
        (add_or_update_application libs cfg (spec_of m r.remote)
          (record { repository = r; world = s.world })).0) [
            | inl (u, e) ↦ inl e
            | inr (inl (x, e)) ↦ elim (answered (failed x) s (ground arith)) [
              | inl never ↦ cc
              | inr same ↦ inr (ground arith)
            ]
            | inr (inr (inl e)) ↦ ground arith
            | inr (inr (inr e)) ↦ ground arith
          ]

  add_or_update_in-found :
      (m : Pb.Application) (r : RepositoryConfig T) (s : HandlerState T)
      → get_repository_config m.url s.handler.repos ≡ some r
      → get_repository_config m.url (add_or_update_in libs cfg m (some r) s).1.handler.repos
        ≡ some
            (add_or_update_application libs cfg
              (spec_of m r.remote)
              (record { repository = r; world = s.world })).1.repository
  unfolding add_or_update_in on_repository
  add_or_update_in-found m r s e =
      let start : RepoState T = record { repository = r; world = s.world } in
      let r' = (add_or_update_application libs cfg (spec_of m r.remote) start).1.repository in
      let lives =
        ap (λ (x : Remote T). x.settings.url)
          (add_or_update_application-remote libs cfg (spec_of m r.remote) start)
        ∙ get-some-url m.url s.handler.repos e in
      ground (arith, get-replace_first m.url r' s.handler.repos {r = r} lives e)

  refused :
      (m : Pb.Application) (s : HandlerState T) → (add_or_update_in libs cfg m none s).0 ≢ ok tt
  unfolding add_or_update_in
  refused m s h = cc

  -- With libraries that do not give the sentinel back: a request on an application that is
  -- answered with no error leaves an application as the message asks, in the message's repository.
  pub add_or_update_application_request-Agrees :
      IsOwn libs
      → (m : Pb.Application) (s : HandlerState T)
      → (add_or_update_application_request libs cfg m s).0 ≡ ok tt
      → Agrees m (add_or_update_application_request libs cfg m s).1.handler.repos
  unfolding add_or_update_application_request
  add_or_update_application_request-Agrees own m s h =
      elim (Option-cases (get_repository_config m.url s.handler.repos)) [
        | inl e ↦
            absurd (refused m s (subst (λ o. (add_or_update_in libs cfg m o s).0 ≡ ok tt) e h))
        | inr (r, e) ↦
            let start : RepoState T = record { repository = r; world = s.world } in
            let h' = subst (λ o. (add_or_update_in libs cfg m o s).0 ≡ ok tt) e h in
            let kept = add_or_update_application-remote libs cfg (spec_of m r.remote) start in
            let t = (add_or_update_application libs cfg (spec_of m r.remote) start).1.repository in
            let has =
              add_or_update-Has own cfg (spec_of m r.remote) start
                (add_or_update_in-cases m r s h') in
            subst (λ o. Agrees m (add_or_update_in libs cfg m o s).1.handler.repos) (sym e)
              (subst (Holds (λ x. Has (spec_of m x.remote) x.apps))
                (sym (add_or_update_in-found m r s e))
                (subst (λ (x : Remote T). Has (spec_of m x) t.apps) (sym kept) has))
      ]

  delete_in-found :
      (m : Pb.Application) (r : RepositoryConfig T) (s : HandlerState T)
      → get_repository_config m.url s.handler.repos ≡ some r
      → get_repository_config m.url (delete_in libs cfg m (some r) s).1.handler.repos
        ≡ some
            (delete_application libs cfg m.name
              (record { repository = r; world = s.world })).1.repository
  unfolding delete_in on_repository
  delete_in-found m r s e =
      let start : RepoState T = record { repository = r; world = s.world } in
      let r' = (delete_application libs cfg m.name start).1.repository in
      let lives =
        ap (λ (x : Remote T). x.settings.url) (delete_application-remote libs cfg m.name start)
        ∙ get-some-url m.url s.handler.repos e in
      get-replace_first m.url r' s.handler.repos {r = r} lives e

  delete_in-done :
      (m : Pb.Application) (r : RepositoryConfig T) (s : HandlerState T)
      → (delete_in libs cfg m (some r) s).0 ≡ ok tt
      → (delete_application libs cfg m.name (record { repository = r; world = s.world })).0 ≡ ok tt
  unfolding delete_in on_repository
  delete_in-done m r s h = h

  delete_in-none :
      (m : Pb.Application) (s : HandlerState T)
      → (delete_in libs cfg m none s).1.handler.repos ≡ s.handler.repos
  unfolding delete_in
  delete_in-none m s = refl

  -- Where the applications of each repository have distinct names and its URL, a deletion that is
  -- answered with no error leaves no application of the name in the repository of the message's
  -- URL, if there is one.
  pub delete_application_request-Lacks :
      (m : Pb.Application) (s : HandlerState T)
      → All InOrder s.handler.repos
      → (delete_application_request libs cfg m s).0 ≡ ok tt
      → Lacks m (delete_application_request libs cfg m s).1.handler.repos
  unfolding delete_application_request
  delete_application_request-Lacks m s all h =
      elim (Option-cases (get_repository_config m.url s.handler.repos)) [
        | inl e ↦
            subst (λ o. Lacks m (delete_in libs cfg m o s).1.handler.repos) (sym e)
              (subst (Lacks m) (sym (delete_in-none m s)) (subst (LacksName m) (sym e) tt))
        | inr (r, e) ↦
            let start : RepoState T = record { repository = r; world = s.world } in
            let h' = subst (λ o. (delete_in libs cfg m o s).0 ≡ ok tt) e h in
            let absent =
              delete_application-absent libs cfg m.name start
                (All-found m.url s.handler.repos e all).0 (delete_in-done m r s h') in
            subst (λ o. Lacks m (delete_in libs cfg m o s).1.handler.repos) (sym e)
              (subst (LacksName m) (sym (delete_in-found m r s e)) absent)
      ]
