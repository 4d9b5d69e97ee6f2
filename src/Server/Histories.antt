-- ===== src/Server/Histories.antt =====
-- server/pkg/server/server.go over server/pkg/instance: what a history of requests and ticks can do
-- to the repositories of the handler. A predicate that the five ways keep is an invariant.
use dummy_cd.Base.{
  ℕ, zero, ◌≡◌, refl, sym, subst, ◌⊎◌, Option, none, some, List, [], ◌∷◌, ◌++◌, arith, Option-cases,
  inl, inr, true,
}
use dummy_cd.Go.{OnOk, Result, ok, err, panic, blocked, Exec, continue}
use dummy_cd.Slice.{get_elem?, swap_remove}
use dummy_cd.Libs.{Types}
use dummy_cd.Libs.Charts.{RestConfig}
use dummy_cd.Instance.{Libraries}
use dummy_cd.Instance.Repository.{
  RepositoryConfig, new_repository_config, add_or_update_application, delete_application,
}
use dummy_cd.Instance.Handler.{
  HandlerState, get_repository_config, append_unless, add_repository, delete_at, delete_found,
  delete_repository, run_repositories, run_all, tick, find_last, with_handler, set_repos,
}
use dummy_cd.Pb
use dummy_cd.Server.Messages.{replace_first, on_repository, spec_of, settings_of}
use dummy_cd.Server.Requests.{
  create_repository, create_unless, add_repository_request, delete_repository_request,
  add_or_update_in, add_or_update_application_request, delete_in, delete_application_request, Event,
  adds_repository, deletes_repository, adds_or_updates_application, deletes_application, ticks,
  respond, run,
}

module _ {T : Types} (libs : Libraries T) (cfg : RestConfig) where
  -- The ways in which the list of repositories changes.
  pub record Keeps (Inv : List (RepositoryConfig T) → Type 0) : Type 0 where
    pub adds :
        (new : RepositoryConfig T) (repos : List (RepositoryConfig T))
        → get_repository_config new.settings.url repos ≡ none
        → new.apps ≡ []
        → Inv repos
        → Inv (repos ++ new ∷ [])
    pub removes :
        (repos : List (RepositoryConfig T)) (i : ℕ) {r : RepositoryConfig T}
        → get_elem? repos i ≡ some r
        → Inv repos
        → Inv (swap_remove repos i)
    pub updates :
        (m : Pb.Application) (r : RepositoryConfig T) (repos : List (RepositoryConfig T))
        (w : T.World)
        → get_repository_config m.url repos ≡ some r
        → Inv repos
        → Inv (
            replace_first m.url
              (add_or_update_application libs cfg
                (spec_of m r.remote)
                (record { repository = r; world = w })).1.repository
              repos)
    pub deletes :
        (m : Pb.Application) (r : RepositoryConfig T) (repos : List (RepositoryConfig T))
        (w : T.World)
        → get_repository_config m.url repos ≡ some r
        → Inv repos
        → Inv (
            replace_first m.url
              (delete_application libs cfg m.name
                (record { repository = r; world = w })).1.repository
              repos)
    pub runs :
        (repos : List (RepositoryConfig T)) (w : T.World)
        → Inv repos
        → OnOk Inv (run_repositories libs repos w).0

  module _ {Inv : List (RepositoryConfig T) → Type 0} (keeps : Keeps Inv) where
    abbrev Safe : HandlerState T → Type 0
    Safe s = Inv s.handler.repos

    append_unless-Safe :
        (new : RepositoryConfig T) (o : Option (RepositoryConfig T)) (s : HandlerState T)
        → get_repository_config new.settings.url s.handler.repos ≡ o
        → new.apps ≡ []
        → Safe s
        → Safe (append_unless new o s).1
    unfolding append_unless
    append_unless-Safe new (some r) s e fresh h = h
    append_unless-Safe new none s e fresh h = keeps.adds new s.handler.repos e fresh h

    then_add-Safe :
        (r : Result (RepositoryConfig T)) (s : HandlerState T)
        → OnOk (λ new. new.apps ≡ []) r
        → Safe s
        → Safe (continue r add_repository s).1
    unfolding add_repository
    then_add-Safe (ok new) s fresh h = append_unless-Safe new _ s refl fresh h
    then_add-Safe (err e) s fresh h = h
    then_add-Safe panic s fresh h = h
    then_add-Safe blocked s fresh h = h

    new_repository_config-fresh :
        (m : Pb.Repository) (namespace : _) (w : T.World)
        → OnOk
            (λ new. new.apps ≡ [])
            (new_repository_config libs cfg m.name (settings_of m) namespace w).0
    unfolding new_repository_config
    new_repository_config-fresh m namespace w = ground arith

    create_repository-Safe :
        (m : Pb.Repository) (s : HandlerState T) → Safe s → Safe (create_repository libs cfg m s).1
    unfolding create_repository
    create_repository-Safe m s h =
        then_add-Safe _ _ (new_repository_config-fresh m s.handler.current_namespace s.world) h

    with_handler-repos :
        {A : Type 0} (m : Exec (HandlerState T) A) (s : HandlerState T)
        → let repos = (with_handler m s).1.handler.repos in
          (repos ≡ s.handler.repos)
          ⊎ (repos
              ≡ (m (record s { handler = record (s.handler) { held = true } })).1.handler.repos)
    unfolding with_handler
    with_handler-repos m s = ground arith

    with_handler-Safe :
        {A : Type 0} (m : Exec (HandlerState T) A)
        → ((s : HandlerState T) → Safe s → Safe (m s).1)
        → (s : HandlerState T) → Safe s
        → Safe (with_handler m s).1
    with_handler-Safe m keep s h = elim (with_handler-repos m s) [
      | inl same ↦ subst Inv (sym same) h
      | inr done ↦ subst Inv (sym done) (keep _ h)
    ]

    create_unless-Safe :
        (m : Pb.Repository) (o : Option (RepositoryConfig T)) (s : HandlerState T)
        → Safe s
        → Safe (create_unless libs cfg m o s).1
    unfolding create_unless
    create_unless-Safe m (some r) s h = h
    create_unless-Safe m none s h =
        with_handler-Safe (create_repository libs cfg m) (create_repository-Safe m) s h

    delete_at-repos :
        (i : ℕ) (r : RepositoryConfig T) (s : HandlerState T)
        → let repos = (delete_at libs i r s).1.handler.repos in
          (repos ≡ s.handler.repos) ⊎ (repos ≡ swap_remove s.handler.repos i)
    unfolding delete_at
    delete_at-repos i r s = ground arith

    delete_at-Safe :
        (i : ℕ) (r : RepositoryConfig T) (s : HandlerState T)
        → get_elem? s.handler.repos i ≡ some r
        → Safe s
        → Safe (delete_at libs i r s).1
    delete_at-Safe i r s e h = elim (delete_at-repos i r s) [
      | inl same ↦ subst Inv (sym same) h
      | inr gone ↦ subst Inv (sym gone) (keeps.removes s.handler.repos i e h)
    ]

    delete_found-Safe :
        (o : Option ℕ) (s : HandlerState T) → Safe s → Safe (delete_found libs o s).1
    unfolding delete_found
    delete_found-Safe none s h = h
    delete_found-Safe (some i) s h = elim (Option-cases (get_elem? s.handler.repos i)) [
      | inl e ↦ rw (delete_found, e) h
      | inr (r, e) ↦ rw (delete_found, e) (delete_at-Safe i r s e h)
    ]

    delete_repository-Safe :
        (m : Pb.Repository) (s : HandlerState T) → Safe s → Safe (delete_repository libs m.name s).1
    unfolding delete_repository
    delete_repository-Safe m s h =
        delete_found-Safe (find_last m.name s.handler.repos zero none) s h

    -- The repository that a request on an application has found is written back.
    add_or_update_in-repos :
        (m : Pb.Application) (r : RepositoryConfig T) (s : HandlerState T)
        → (add_or_update_in libs cfg m (some r) s).1.handler.repos
          ≡ replace_first m.url
              (add_or_update_application libs cfg
                (spec_of m r.remote)
                (record { repository = r; world = s.world })).1.repository
              s.handler.repos
    unfolding add_or_update_in on_repository
    add_or_update_in-repos m r s = ground arith

    add_or_update_in-Safe :
        (m : Pb.Application) (o : Option (RepositoryConfig T)) (s : HandlerState T)
        → get_repository_config m.url s.handler.repos ≡ o
        → Safe s
        → Safe (add_or_update_in libs cfg m o s).1
    unfolding add_or_update_in
    add_or_update_in-Safe m none s e h = h
    add_or_update_in-Safe m (some r) s e h =
        subst Inv (sym (add_or_update_in-repos m r s))
          (keeps.updates m r s.handler.repos s.world e h)

    delete_in-Safe :
        (m : Pb.Application) (o : Option (RepositoryConfig T)) (s : HandlerState T)
        → get_repository_config m.url s.handler.repos ≡ o
        → Safe s
        → Safe (delete_in libs cfg m o s).1
    unfolding delete_in on_repository
    delete_in-Safe m none s e h = h
    delete_in-Safe m (some r) s e h = keeps.deletes m r s.handler.repos s.world e h

    run_all-Safe : (s : HandlerState T) → Safe s → Safe (run_all libs s).1
    unfolding run_all
    run_all-Safe s h =
        ran (run_repositories libs s.handler.repos s.world).0 _
          (keeps.runs s.handler.repos s.world h)
      where
        ran :
            (r : Result (List (RepositoryConfig T))) (w : T.World)
            → OnOk Inv r
            → Inv
                (continue r
                  (λ done t. (ok tt, set_repos done t))
                  (record s { world = w })).1.handler.repos
        ran (ok repos) w i = i
        ran (err e) w i = h
        ran panic w i = h
        ran blocked w i = h

    tick-Safe : (s : HandlerState T) → Safe s → Safe (tick libs s).1
    unfolding tick
    tick-Safe s h = ground (arith, run_all-Safe s h)

    respond-Safe : (e : Event) (s : HandlerState T) → Safe s → Safe (respond libs cfg e s).1
    unfolding respond add_repository_request delete_repository_request
        add_or_update_application_request delete_application_request
    respond-Safe (adds_repository m) s h = create_unless-Safe m _ s h
    respond-Safe (deletes_repository m) s h =
        with_handler-Safe (delete_repository libs m.name) (delete_repository-Safe m) s h
    respond-Safe (adds_or_updates_application m) s h = add_or_update_in-Safe m _ s refl h
    respond-Safe (deletes_application m) s h = delete_in-Safe m _ s refl h
    respond-Safe ticks s h = tick-Safe s h

    -- What the ways keep, a history keeps.
    pub run-keeps :
        (es : List Event) (s : HandlerState T)
        → Inv s.handler.repos
        → Inv (run libs cfg es s).handler.repos
    unfolding run
    run-keeps [] s h = h
    run-keeps (e ∷ es) s h = run-keeps es (respond libs cfg e s).1 (respond-Safe e s h)
