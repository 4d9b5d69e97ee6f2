-- ===== src/System/Consistent.antt =====
-- operator/controllers and server/pkg/server together: what holds of the server whatever happens.
use mathlib.Core.List.{Nodup, Nodup-nil}
use dummy_cd.Base.{ℕ, ◌≡◌, refl, sym, subst, Option, none, some, List, [], ◌∷◌, All}
use dummy_cd.Go.{OnOk, Result, ok, err, panic, blocked}
use dummy_cd.Libs.{Types}
use dummy_cd.Instance.{Libraries}
use dummy_cd.Instance.Repository.{RepositoryConfig}
use dummy_cd.Instance.Handler.{HandlerState}
use dummy_cd.Instance.Handler.Cleanups.{end_in_repos-urls, end_in_repos-IsOrderly}
use dummy_cd.Server.Urls.{run-urls_distinct}
use dummy_cd.Server.Urls.Repos.{urls}
use dummy_cd.Server.Orderly.{InOrder, run-InOrder}
use dummy_cd.Server.Requests.{
  Event, adds_repository, deletes_repository, adds_or_updates_application, deletes_application,
  ticks, respond, run,
}
use dummy_cd.Server.Main.{Server, MainLibrary, start}
use dummy_cd.Server.Main.Started.{IsNew, start-IsNew}
use dummy_cd.Operator.Reconcile.Keeps.{
  Keeps, reconcile_application-keeps, reconcile_repository-keeps,
}
use dummy_cd.System.{
  ApiLibrary, Wire, System, answer, answer_of, rpc, joined, Happening, server_starts, server_ticks,
  application_reconciles, repository_reconciles, resources_change, up, happen, happen_all,
  cleanup_ends, cleaned,
}

module _ {T : Types} where
  -- No URL twice; in each repository no name twice, and every application at its URL.
  abbrev pub IsConsistent : List (RepositoryConfig T) → Type 0
  IsConsistent repos = Nodup (urls repos) × All InOrder repos

  abbrev pub IsSound : Option (Server T) → Type 0
  IsSound none = Unit
  IsSound (some server) = IsConsistent server.handler.repos

module _ {T : Types} (libs : Libraries T) where
  respond-IsConsistent :
      (cfg : _) (e : Event) (s : HandlerState T)
      → IsConsistent s.handler.repos
      → IsConsistent (respond libs cfg e s).1.handler.repos
  unfolding run
  respond-IsConsistent cfg e s h =
      (run-urls_distinct libs cfg (e ∷ []) s h.0, run-InOrder libs cfg (e ∷ []) s h.1)

module _ {A : Type 0} {T : Types} (libs : Libraries T) (wire : Wire) where
  answer-IsSound :
      (server : Server T) (r : Result (Unit {0})) (h : HandlerState T) (s : System A T)
      → IsConsistent h.handler.repos
      → IsSound (answer libs wire server r h s).1.server
  unfolding answer
  answer-IsSound server (ok u) h s c = c
  answer-IsSound server (err e) h s c = c
  answer-IsSound server panic h s c = tt
  answer-IsSound server blocked h s c = c

  answer_of-IsSound :
      (e : Event) (o : Option (Server T)) (s : System A T)
      → s.server ≡ o
      → IsSound o
      → IsSound (answer_of libs wire e o s).1.server
  unfolding answer_of
  answer_of-IsSound e none s same h = subst IsSound (sym same) h
  answer_of-IsSound e (some server) s same h =
      answer-IsSound server _ _ s (respond-IsConsistent libs server.kube_config e _ h)

  rpc-IsSound :
      (e : Event) (s : System A T) → IsSound s.server → IsSound (rpc libs wire e s).1.server
  unfolding rpc
  rpc-IsSound e s h = answer_of-IsSound e s.server s refl h

  joined-keeps : (api : ApiLibrary A) → Keeps (joined libs wire api) (λ s. IsSound s.server)
  unfolding joined
  joined-keeps api = record {
    get_application = λ n s h. h;
    update_application = λ n a s h. h;
    get_repository = λ n s h. h;
    update_repository = λ n r s h. h;
    rpc_add_repository = λ m. rpc-IsSound (adds_repository m);
    rpc_delete_repository = λ m. rpc-IsSound (deletes_repository m);
    rpc_add_or_update_application = λ m. rpc-IsSound (adds_or_updates_application m);
    rpc_delete_application = λ m. rpc-IsSound (deletes_application m);
  }

module _ {A : Type 0} {T : Types} (libs : Libraries T) (main_lib : MainLibrary T.World)
    (wire : Wire) (api : ApiLibrary A) where
  new-IsConsistent : (repos : List (RepositoryConfig T)) → repos ≡ [] → IsConsistent repos
  new-IsConsistent repos e = subst IsConsistent (sym e) (Nodup-nil, tt)

  up-IsSound :
      (r : Result (Server T)) (w : T.World) (s : System A T)
      → OnOk IsNew r
      → IsSound (up libs main_lib wire api (r, w) s).server
  unfolding up
  up-IsSound (ok server) w s new = new-IsConsistent server.handler.repos new.0
  up-IsSound (err e) w s new = tt
  up-IsSound panic w s new = tt
  up-IsSound blocked w s new = tt

  cleaned-IsSound :
      (i j : ℕ) (o : Option (Server T)) (s : System A T)
      → s.server ≡ o
      → IsSound o
      → IsSound (cleaned libs main_lib wire api i j o s).server
  unfolding cleaned
  cleaned-IsSound i j none s same h = subst IsSound (sym same) h
  cleaned-IsSound i j (some server) s same h = (
    subst Nodup (sym (end_in_repos-urls libs i j server.handler.repos s.world)) h.0,
    end_in_repos-IsOrderly libs i j server.handler.repos s.world h.1,
  )

  happen-IsSound :
      (x : Happening A) (s : System A T)
      → IsSound s.server
      → IsSound (happen libs main_lib wire api x s).server
  unfolding happen
  happen-IsSound (server_starts port) s h =
      up-IsSound (start libs main_lib port s.world).0 (start libs main_lib port s.world).1 s
        (start-IsNew libs main_lib port s.world)
  happen-IsSound server_ticks s h = rpc-IsSound libs wire ticks s h
  happen-IsSound (application_reconciles n) s h =
      reconcile_application-keeps (joined-keeps libs wire api) n s h
  happen-IsSound (repository_reconciles n) s h =
      reconcile_repository-keeps (joined-keeps libs wire api) n s h
  happen-IsSound (cleanup_ends i j) s h = cleaned-IsSound i j s.server s refl h
  happen-IsSound (resources_change a) s h = h

  kept :
      (xs : List (Happening A)) (s : System A T)
      → IsSound s.server
      → IsSound (happen_all libs main_lib wire api xs s).server
  unfolding happen_all
  kept [] s h = h
  kept (x ∷ rest) s h = kept rest (happen libs main_lib wire api x s) (happen-IsSound x s h)

  -- Whatever happens to a system whose server does not run at first, in any order: where the server
  -- runs, no two of its repositories have the same URL, and in each of them no two applications have
  -- the same name, and each application has the URL of the repository.
  pub happen_all-IsSound :
      (xs : List (Happening A)) (s : System A T)
      → s.server ≡ none
      → IsSound (happen_all libs main_lib wire api xs s).server
  happen_all-IsSound xs s off = kept xs s (subst IsSound (sym off) tt)
