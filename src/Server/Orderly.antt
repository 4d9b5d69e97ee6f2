-- ===== src/Server/Orderly.antt =====
-- server/pkg/server/server.go: the applications of the repositories over histories of requests and
-- ticks.
use mathlib.Core.List.{Nodup, Nodup-nil}
use dummy_cd.Base.{
  String, ◌≡◌, refl, sym, ap, subst, Option, none, some, List, [], ◌∷◌, All, All-append, arith,
  Bool, true, false, if◌then◌else◌, Bool-cases, inl, inr, ◌==◌,
}
use dummy_cd.Go.{OnOk, Result, ok, err, panic, blocked, continue, pure, Exec}
use dummy_cd.Slice.All.{All-swap_remove}
use dummy_cd.Libs.{Types}
use dummy_cd.Libs.Charts.{RestConfig}
use dummy_cd.Instance.{Libraries}
use dummy_cd.Instance.Remote.{Remote}
use dummy_cd.Instance.Application.{Application}
use dummy_cd.Instance.Lifecycle.{run_life_cycle}
use dummy_cd.Instance.Lifecycle.Revision.{run_life_cycle-Moves}
use dummy_cd.Instance.Repository.{
  RepositoryConfig, RepoState, run_app, add_or_update_application, delete_application,
}
use dummy_cd.Instance.Repository.Keeps.{add_or_update_application-remote, delete_application-remote}
use dummy_cd.Instance.Repository.Names.{names, OnApp}
use dummy_cd.Instance.Repository.Orderly.{
  HasUrl, IsOrderly, add_or_update-IsOrderly, delete-IsOrderly,
}
use dummy_cd.Instance.Handler.{
  HandlerState, get_repository_config, run_apps, run_repository, run_repositories,
}
use dummy_cd.Pb
use dummy_cd.Server.Messages.{spec_of, replace_first}
use dummy_cd.Server.Requests.{Event, run}
use dummy_cd.Server.Histories.{Keeps, run-keeps}
use dummy_cd.Server.Urls.Repos.{get-some-url}

module _ {T : Types} where
  -- In each repository the applications have distinct names, and its URL.
  abbrev pub InOrder : RepositoryConfig T → Type 0
  InOrder r = IsOrderly r.settings.url r.apps

  pub All-found :
      (url : String) (repos : List (RepositoryConfig T)) {r : RepositoryConfig T}
      → get_repository_config url repos ≡ some r
      → All InOrder repos
      → InOrder r
  unfolding get_repository_config
  All-found url [] h all = cc
  All-found url (x ∷ rest) {r} h all = elim (Bool-cases (x.settings.url == url)) [
    | inl e ↦ let same : x ≡ r = ground arith in subst InOrder same all.0
    | inr e ↦ All-found url rest {r = r} (ground arith) all.1
  ]

  All-replace_first :
      (url : String) (r' : RepositoryConfig T) (repos : List (RepositoryConfig T))
      → InOrder r'
      → All InOrder repos
      → All InOrder (replace_first url r' repos)
  unfolding replace_first
  All-replace_first url r' [] h all = tt
  All-replace_first url r' (x ∷ rest) h all = elim (Bool-cases (x.settings.url == url)) [
    | inl e ↦ rw (e) (h, all.1)
    | inr e ↦ rw (e) (all.0, All-replace_first url r' rest h all.1)
  ]

module _ {T : Types} (libs : Libraries T) where
  run_app-spec :
      (a : Application T) (w : T.World)
      → OnOk (λ done. done.1.spec ≡ a.spec) (run_app a (run_life_cycle libs) w).0
  run_app-spec a w = ground (arith, (run_life_cycle-Moves libs (record { app = a; world = w })).0)

  -- A tick changes neither the names nor the URLs of the applications.
  run_apps-names :
      (apps : List (Option (Application T))) (w : T.World)
      → OnOk (λ apps'. names apps' ≡ names apps) (run_apps libs apps w).0
  unfolding run_apps
  run_apps-names [] w = refl
  run_apps-names (none ∷ rest) w = tt
  run_apps-names (some a ∷ rest) w =
      ground (arith, run_app-spec a w, run_apps-names rest (run_app a (run_life_cycle libs) w).1)

  run_apps-urls :
      (url : String) (apps : List (Option (Application T))) (w : T.World)
      → All (OnApp (HasUrl url)) apps
      → OnOk (All (OnApp (HasUrl url))) (run_apps libs apps w).0
  unfolding run_apps
  run_apps-urls url [] w h = tt
  run_apps-urls url (none ∷ rest) w h = tt
  run_apps-urls url (some a ∷ rest) w h =
      ground
        (arith, run_app-spec a w, run_apps-urls url rest (run_app a (run_life_cycle libs) w).1 h.1)

  ran-IsOrderly :
      (url : String) (apps : List (Option (Application T)))
      (r : Result (List (Option (Application T))))
      → OnOk (λ apps'. names apps' ≡ names apps) r
      → OnOk (All (OnApp (HasUrl url))) r
      → IsOrderly url apps
      → OnOk (IsOrderly url) r
  ran-IsOrderly url apps (ok apps') e home h = (subst Nodup (sym e) h.0, home)
  ran-IsOrderly url apps (err x) e home h = tt
  ran-IsOrderly url apps panic e home h = tt
  ran-IsOrderly url apps blocked e home h = tt

  -- Of two runs one is taken, and both end in order.
  either :
      (b : Bool) (m n : Exec T.World (RepositoryConfig T)) (w : T.World)
      → OnOk InOrder (m w).0
      → OnOk InOrder (n w).0
      → OnOk InOrder ((if b then m else n) w).0
  either true m n w h k = h
  either false m n w h k = k

  run_repository-InOrder :
      (r : RepositoryConfig T) (w : T.World) → InOrder r → OnOk InOrder (run_repository libs r w).0
  unfolding run_repository
  run_repository-InOrder r w h = either r.held (pure r) _ w h (
      written (run_apps libs r.apps w).0 (run_apps libs r.apps w).1 (
        ran-IsOrderly r.settings.url r.apps (run_apps libs r.apps w).0 (run_apps-names r.apps w)
          (run_apps-urls r.settings.url r.apps w h.1) h))
    where
      written :
          (done : Result (List (Option (Application T)))) (v : T.World)
          → OnOk (IsOrderly r.settings.url) done
          → OnOk InOrder (continue done (λ apps. pure (record r { apps = apps })) v).0
      written (ok apps) v i = i
      written (err x) v i = tt
      written panic v i = tt
      written blocked v i = tt

  run_repositories-InOrder :
      (repos : List (RepositoryConfig T)) (w : T.World)
      → All InOrder repos
      → OnOk (All InOrder) (run_repositories libs repos w).0
  unfolding run_repositories
  run_repositories-InOrder [] w h = tt
  run_repositories-InOrder (r ∷ rest) w h = ground (
    arith,
    run_repository-InOrder r w h.0,
    run_repositories-InOrder rest (run_repository libs r w).1 h.1,
  )

module _ {T : Types} (libs : Libraries T) (cfg : RestConfig) where
  -- The repository that a request has found, as the request leaves it.
  updated-InOrder :
      (m : Pb.Application) (r : RepositoryConfig T) (w : T.World)
      → r.settings.url ≡ m.url
      → InOrder r
      → InOrder
          (add_or_update_application libs cfg
            (spec_of m r.remote)
            (record { repository = r; world = w })).1.repository
  unfolding spec_of
  updated-InOrder m r w e h =
      let s : RepoState T = record { repository = r; world = w } in
      let same =
        ap (λ (x : Remote T). x.settings.url)
          (add_or_update_application-remote libs cfg (spec_of m r.remote) s) in
      let t = (add_or_update_application libs cfg (spec_of m r.remote) s).1.repository in
      subst (λ url. IsOrderly url t.apps) (sym same)
        (add_or_update-IsOrderly libs cfg r.settings.url (spec_of m r.remote) s (sym e) h)

  deleted-InOrder :
      (name : String) (r : RepositoryConfig T) (w : T.World)
      → InOrder r
      → InOrder
          (delete_application libs cfg name (record { repository = r; world = w })).1.repository
  deleted-InOrder name r w h =
      let s : RepoState T = record { repository = r; world = w } in
      let same =
        ap (λ (x : Remote T). x.settings.url) (delete_application-remote libs cfg name s) in
      let t = (delete_application libs cfg name s).1.repository in
      subst (λ url. IsOrderly url t.apps) (sym same)
        (delete-IsOrderly libs cfg r.settings.url name s h)

  in_order : Keeps libs cfg (All InOrder)
  in_order = record {
    adds = λ new repos e fresh h.
        All-append InOrder repos (new ∷ []) h
          (subst (IsOrderly new.settings.url) (sym fresh) (Nodup-nil, tt), tt);
    removes = λ repos i e h. All-swap_remove InOrder repos i h;
    updates = λ m r repos w e h.
        All-replace_first m.url _ repos
          (updated-InOrder m r w (get-some-url m.url repos e) (All-found m.url repos e h)) h;
    deletes = λ m r repos w e h.
        All-replace_first m.url _ repos (deleted-InOrder m.name r w (All-found m.url repos e h)) h;
    runs = λ repos w h. run_repositories-InOrder libs repos w h;
  }

  -- After any history of requests and ticks, answered with errors or without, the applications of
  -- each repository have distinct names and the URL of the repository, if that was so at the start.
  pub run-InOrder :
      (es : List Event) (s : HandlerState T)
      → All InOrder s.handler.repos
      → All InOrder (run libs cfg es s).handler.repos
  run-InOrder es s h = run-keeps libs cfg in_order es s h
