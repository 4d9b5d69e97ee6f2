-- ===== src/System.antt =====
-- operator/controllers and server/pkg/server together: the operator's gRPC client, whose calls are
-- the handlers of the server. A server that panics ends, and main may start it anew.
pub mod Consistent
pub mod Agreement
use dummy_cd.Base.{ℕ, String, Bool, Option, none, some, List, [], ◌∷◌}
use dummy_cd.Go.{Error, Result, ok, err, panic, blocked, Call, Exec}
use dummy_cd.Libs.{Types}
use dummy_cd.Libs.Charts.{RestConfig}
use dummy_cd.Instance.{Libraries}
use dummy_cd.Instance.Handler.{HandlerState}
use dummy_cd.Instance.Handler.Cleanups.{end_in_repos}
use dummy_cd.Server.Main.{Server, MainLibrary, start}
use dummy_cd.Server.Requests.{
  Event, adds_repository, deletes_repository, adds_or_updates_application, deletes_application,
  ticks, respond,
}
use dummy_cd.Operator.Resources.{
  Application, Repository, ObjectMeta, NamespacedName, OperatorLibrary,
}
use dummy_cd.Operator.Reconcile.{reconcile_application, reconcile_repository}

-- The API server's client and controllerutil, on the resources that the API server stores.
pub record ApiLibrary (A : Type 0) : Type 0 where
  pub get_application : NamespacedName → Call A Application
  pub update_application : NamespacedName → Application → Call A (Unit {0})
  pub get_repository : NamespacedName → Call A Repository
  pub update_repository : NamespacedName → Repository → Call A (Unit {0})
  pub contains_finalizer : ObjectMeta → String → Bool
  pub add_finalizer : String → ObjectMeta → ObjectMeta
  pub remove_finalizer : String → ObjectMeta → ObjectMeta

-- What gRPC makes of an error of a handler, and its error where no server answers.
pub record Wire : Type 0 where
  pub status : Error → Error
  pub unavailable : Error

-- The resources, the server's process, if it runs, and the world outside both programs.
pub record System (A : Type 0) (T : Types) : Type 0 where
  pub api : A
  pub server : Option (Server T)
  pub world : T.World

module _ {A : Type 0} {T : Types} (libs : Libraries T) (wire : Wire) where
  abbrev pub on_api : {X : Type 0} → Call A X → Call (System A T) X
  on_api c s = ((c s.api).0, record s { api = (c s.api).1 })

  abbrev pub state_of : Server T → System A T → HandlerState T
  state_of server s = record { handler = server.handler; world = s.world }

  abbrev pub settle : Server T → HandlerState T → System A T → System A T
  settle server h s = record s {
    server = some (record server { handler = h.handler });
    world = h.world;
  }

  -- The client's side of a call that the server has run.
  unfoldable pub answer :
      Server T → Result (Unit {0}) → HandlerState T → System A T → Result (Unit {0}) × System A T
  answer server (ok _) h s = (ok tt, settle server h s)
  answer server (err e) h s = (err (wire.status e), settle server h s)
  answer server panic h s = (err wire.unavailable, record s { server = none; world = h.world })
  answer server blocked h s = (blocked, settle server h s)

  unfoldable pub answer_of : Event → Option (Server T) → Exec (System A T) (Unit {0})
  answer_of e none s = (err wire.unavailable, s)
  answer_of e (some server) s =
      let done = respond libs server.kube_config e (state_of server s) in
      answer server done.0 done.1 s

  unfoldable pub rpc : Event → Exec (System A T) (Unit {0})
  rpc e s = answer_of e s.server s

  -- What the reconcilers call.
  unfoldable pub joined : ApiLibrary A → OperatorLibrary (System A T)
  joined api = record {
    get_application = λ n. on_api (api.get_application n);
    update_application = λ n a. on_api (api.update_application n a);
    get_repository = λ n. on_api (api.get_repository n);
    update_repository = λ n r. on_api (api.update_repository n r);
    contains_finalizer = api.contains_finalizer;
    add_finalizer = api.add_finalizer;
    remove_finalizer = api.remove_finalizer;
    rpc_add_repository = λ m. rpc (adds_repository m);
    rpc_delete_repository = λ m. rpc (deletes_repository m);
    rpc_add_or_update_application = λ m. rpc (adds_or_updates_application m);
    rpc_delete_application = λ m. rpc (deletes_application m);
  }

-- What can happen to the system: main of the server runs on a port, its ticker ticks, the manager
-- calls a Reconcile, the cleanup that a raw delivery has started ends, for the application at an index
-- of the repository at an index, and someone changes the resources.
pub data Happening (A : Type 0) : Type 0 where
  server_starts : ℕ → Happening A
  server_ticks : Happening A
  application_reconciles : NamespacedName → Happening A
  repository_reconciles : NamespacedName → Happening A
  cleanup_ends : ℕ → ℕ → Happening A
  resources_change : A → Happening A

module _ {A : Type 0} {T : Types} (libs : Libraries T) (main_lib : MainLibrary T.World)
    (wire : Wire) (api : ApiLibrary A) where
  unfoldable pub up : Result (Server T) × T.World → System A T → System A T
  up (ok server, w) s = record s { server = some server; world = w }
  up (err e, w) s = record s { server = none; world = w }
  up (panic, w) s = record s { server = none; world = w }
  up (blocked, w) s = record s { server = none; world = w }

  unfoldable pub cleaned : ℕ → ℕ → Option (Server T) → System A T → System A T
  unfolding end_in_repos
  cleaned i j none s = s
  cleaned i j (some server) s =
      let done = end_in_repos libs i j server.handler.repos s.world in
      record s {
        server = some (record server { handler = record (server.handler) { repos = done.0 } });
        world = done.1;
      }

  unfoldable pub happen : Happening A → System A T → System A T
  happen (server_starts port) s = up (start libs main_lib port s.world) s
  happen server_ticks s = (rpc libs wire ticks s).1
  happen (application_reconciles n) s = (reconcile_application (joined libs wire api) n s).1
  happen (repository_reconciles n) s = (reconcile_repository (joined libs wire api) n s).1
  happen (cleanup_ends i j) s = cleaned i j s.server s
  happen (resources_change a) s = record s { api = a }

  unfoldable pub happen_all : List (Happening A) → System A T → System A T
  happen_all [] s = s
  happen_all (x ∷ rest) s = happen_all rest (happen x s)
