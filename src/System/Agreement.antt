-- ===== src/System/Agreement.antt =====
-- operator/controllers and server/pkg/server together: after a Reconcile without an error the server
-- is as the resource asks.
use mathlib.Core.List.{Mem}
use dummy_cd.Base.{
  String, arith, ℕ, eq_iff, Option, Option-cases, ◌≡◌, ◌≢◌, refl, sym, subst, true, false, none,
  some, List, Holds, inl, inr,
}
use dummy_cd.Go.{value, Result, ok, err, panic, blocked}
use dummy_cd.Libs.{Types}
use dummy_cd.Instance.{Libraries}
use dummy_cd.Instance.Repository.{RepositoryConfig, cmp_equal}
use dummy_cd.Instance.Repository.Names.{names}
use dummy_cd.Instance.Repository.Synced.{Has}
use dummy_cd.Server.Messages.{spec_of}
use dummy_cd.Server.Urls.Repos.{get-some-url}
use dummy_cd.Slice.{get_elem?}
use dummy_cd.Instance.Application
use dummy_cd.Instance.Sentinel.{IsOwn}
use dummy_cd.Instance.Handler.{HandlerState, get_repository_config}
use dummy_cd.Pb
use dummy_cd.Server.Agreement.{
  Agrees, Lacks, LacksName, add_or_update_application_request-Agrees,
  delete_application_request-Lacks,
}
use dummy_cd.Server.Requests.{Event, adds_or_updates_application, deletes_application, respond}
use dummy_cd.Server.Main.{Server, MainLibrary}
use dummy_cd.Operator.Resources.{Application, Repository, NamespacedName}
use dummy_cd.Operator.Reconcile.{
  app_finalizer, application_message, deletion_message, reconcile_application,
}
use dummy_cd.Operator.Reconcile.Told.{
  reconcile_application-told, reconcile_application-told_deletion,
}
use dummy_cd.System.{
  ApiLibrary, Wire, System, state_of, settle, answer, answer_of, rpc, joined, Happening, happen_all,
}
use dummy_cd.System.Consistent.{IsSound, happen_all-IsSound}

-- A predicate on the repositories of the server that runs, taken over to an equal system.
on_server :
    {A : Type 0} {T : Types} (P : List (RepositoryConfig T) → Type 0) {s t : System A T}
    → s ≡ t
    → Holds (λ x. P x.handler.repos) t.server
    → Holds (λ x. P x.handler.repos) s.server
on_server P e h = subst (λ u. Holds (λ x. P x.handler.repos) u.server) (sym e) h

-- What holds of a server's repositories gives what else holds of them.
on_repos :
    {T : Types} (P Q : List (RepositoryConfig T) → Type 0) (o : Option (Server T))
    → ((l : List (RepositoryConfig T)) → P l → Q l)
    → Holds (λ x. P x.handler.repos) o
    → Holds (λ x. Q x.handler.repos) o
on_repos P Q none f h = h
on_repos P Q (some x) f h = f x.handler.repos h

-- The repository, if there is one, has no application of the name.
abbrev pub NoneNamed : {T : Types} → String → Option (RepositoryConfig T) → Type 0
NoneNamed name none = Unit
NoneNamed name (some r) = ¬ Mem name (names r.apps)

module _ {T : Types} (n : NamespacedName) (a : Application) where
  -- The application has the resource's name, and the namespace, URL, reference and path of its
  -- specification.
  abbrev pub IsAsAsked : Application.Application T → Type 0
  IsAsAsked x =
      (x.spec.name ≡ n.name)
      × (x.spec.namespace ≡ a.spec.namespace)
      × (x.spec.url ≡ a.spec.url)
      × (x.spec.reference ≡ a.spec.reference)
      × (x.spec.sparse_path ≡ a.spec.sparse_path)

  -- A repository has such an application.
  abbrev pub HasAsked : RepositoryConfig T → Type 0
  HasAsked r =
      (i : ℕ) × (x : Application.Application T) × (get_elem? r.apps i ≡ some (some x)) × IsAsAsked x

  -- The first repository of the URL of the specification has it.
  abbrev pub AgreesWith : List (RepositoryConfig T) → Type 0
  AgreesWith repos =
      (r : RepositoryConfig T) × (get_repository_config a.spec.url repos ≡ some r)
      × (r.settings.url ≡ a.spec.url)
      × HasAsked r

  -- The first repository of the URL of the specification has no application of the resource's name.
  abbrev pub LacksAsked : List (RepositoryConfig T) → Type 0
  LacksAsked repos = NoneNamed n.name (get_repository_config a.spec.url repos)

  Has-HasAsked :
      (r : RepositoryConfig T)
      → Has (spec_of (application_message n.name a) r.remote) r.apps
      → HasAsked r
  unfolding cmp_equal spec_of application_message
  Has-HasAsked r (i, x, at, same) =
      let fields : IsAsAsked x = ground (
        arith,
        eq_iff x.spec.name n.name,
        eq_iff x.spec.namespace a.spec.namespace,
        eq_iff x.spec.url a.spec.url,
        eq_iff x.spec.reference a.spec.reference,
        eq_iff x.spec.sparse_path a.spec.sparse_path,
      ) in
      (i, x, at, fields)

  Agrees-AgreesWith :
      (repos : List (RepositoryConfig T))
      → Agrees (application_message n.name a) repos
      → AgreesWith repos
  unfolding application_message
  Agrees-AgreesWith repos h = elim (Option-cases (get_repository_config a.spec.url repos)) [
    | inl e ↦
        absurd
          (subst (Holds (λ r. Has (spec_of (application_message n.name a) r.remote) r.apps)) e h)
    | inr (r, e) ↦ (
      r,
      e,
      get-some-url a.spec.url repos e,
      Has-HasAsked r
          (subst (Holds (λ r. Has (spec_of (application_message n.name a) r.remote) r.apps)) e h),
    )
  ]

  Lacks-LacksAsked :
      (repos : List (RepositoryConfig T))
      → Lacks (deletion_message n.name a) repos
      → LacksAsked repos
  unfolding deletion_message
  Lacks-LacksAsked repos h = elim (Option-cases (get_repository_config a.spec.url repos)) [
    | inl e ↦ subst (NoneNamed n.name) (sym e) tt
    | inr (r, e) ↦
        subst (NoneNamed n.name) (sym e) (subst (LacksName (deletion_message n.name a)) e h)
  ]

module _ {A : Type 0} {T : Types} (libs : Libraries T) (wire : Wire) where
  -- The server that has answered a call with no error, and what it was asked.
  abbrev Answered : Event → System A T → Server T → Type 0
  Answered e s server =
      let done = respond libs server.kube_config e (state_of libs wire server s) in
      (s.server ≡ some server)
      × (done.0 ≡ ok tt)
      × ((rpc libs wire e s).1 ≡ settle libs wire server done.1 s)

  answer_ok :
      (server : Server T) (r : Result (Unit {0})) (h : HandlerState T) (s : System A T)
      → (answer libs wire server r h s).0 ≡ ok tt
      → (r ≡ ok tt) × ((answer libs wire server r h s).1 ≡ settle libs wire server h s)
  unfolding answer
  answer_ok server (ok u) h s done = (refl, refl)
  answer_ok server (err e) h s done = cc
  answer_ok server panic h s done = cc
  answer_ok server blocked h s done = cc

  off_err : (e : Event) (s : System A T) → (answer_of libs wire e none s).0 ≢ ok tt
  unfolding answer_of
  off_err e s h = cc

  on_ok :
      (e : Event) (server : Server T) (s : System A T)
      → (answer_of libs wire e (some server) s).0 ≡ ok tt
      → let done = respond libs server.kube_config e (state_of libs wire server s) in
        (done.0 ≡ ok tt)
        × ((answer_of libs wire e (some server) s).1 ≡ settle libs wire server done.1 s)
  unfolding answer_of
  on_ok e server s h = answer_ok server _ _ s h

  rpc-Answered :
      (e : Event) (s : System A T)
      → (rpc libs wire e s).0 ≡ ok tt
      → (server : Server T) × Answered e s server
  unfolding rpc
  rpc-Answered e s h = elim (Option-cases s.server) [
    | inl off ↦ absurd (off_err e s (subst (λ o. (answer_of libs wire e o s).0 ≡ ok tt) off h))
    | inr (server, on) ↦
        let (done, left) =
          on_ok e server s (subst (λ o. (answer_of libs wire e o s).0 ≡ ok tt) on h) in
        (
          server,
          (
            on,
            done,
            subst
                (λ o.
                  (answer_of libs wire e o s).1
                  ≡ settle libs wire server
                      (respond libs server.kube_config e (state_of libs wire server s)).1 s)
                (sym on) left,
          ),
        )
  ]

  rpc-Agrees :
      IsOwn libs
      → (m : Pb.Application) (s : System A T)
      → (rpc libs wire (adds_or_updates_application m) s).0 ≡ ok tt
      → Holds
          (λ server. Agrees m server.handler.repos)
          (rpc libs wire (adds_or_updates_application m) s).1.server
  unfolding respond
  rpc-Agrees own m s h =
      let (server, (on, done, left)) = rpc-Answered (adds_or_updates_application m) s h in
      on_server (Agrees m) left (
        add_or_update_application_request-Agrees libs server.kube_config own m
          (state_of libs wire server s) done)

  rpc-Lacks :
      (m : Pb.Application) (s : System A T)
      → IsSound s.server
      → (rpc libs wire (deletes_application m) s).0 ≡ ok tt
      → Holds
          (λ server. Lacks m server.handler.repos)
          (rpc libs wire (deletes_application m) s).1.server
  unfolding respond
  rpc-Lacks m s sound h =
      let (server, (on, done, left)) = rpc-Answered (deletes_application m) s h in
      on_server (Lacks m) left (
        delete_application_request-Lacks libs server.kube_config m (state_of libs wire server s)
          (subst IsSound on sound).1 done)

module _ {A : Type 0} {T : Types} (libs : Libraries T) (wire : Wire) (api : ApiLibrary A) where
  -- With libraries that do not give the server's sentinel back: where a Reconcile of an
  -- application that is not being deleted ends with no error, the server runs, and its first
  -- repository of the URL that the resource names has an application of the resource's name, with the
  -- namespace, URL, reference and path of the resource that was read.
  pub reconcile_application-Agrees :
      IsOwn libs
      → (n : NamespacedName) (s : System A T) (a : Application)
      → (api.get_application n s.api).0 ≡ value a
      → a.meta.deleting ≡ false
      → (reconcile_application (joined libs wire api) n s).0 ≡ ok 60
      → Holds
          (λ server. AgreesWith n a server.handler.repos)
          (reconcile_application (joined libs wire api) n s).1.server
  unfolding joined
  reconcile_application-Agrees own n s a got live h =
      let (done, left) = reconcile_application-told (joined libs wire api) n s a got live h in
      on_server (AgreesWith n a) left (
        on_repos (Agrees (application_message n.name a)) (AgreesWith n a) _ (Agrees-AgreesWith n a)
          (rpc-Agrees libs wire own (application_message n.name a) _ done))

module _ {A : Type 0} {T : Types} (libs : Libraries T) (main_lib : MainLibrary T.World)
    (wire : Wire) (api : ApiLibrary A) where
  -- In any state that a system has come to whose server did not run at first: where an application
  -- that bears the finalizer is being deleted and its Reconcile ends with no error, the server runs,
  -- and its first repository of the URL that the resource names, if there is one, has no application
  -- of the resource's name.
  pub reconcile_application-Lacks :
      (xs : List (Happening A)) (first : System A T) (n : NamespacedName) (a : Application)
      → first.server ≡ none
      → let s = happen_all libs main_lib wire api xs first in
        (api.get_application n s.api).0 ≡ value a
        → a.meta.deleting ≡ true
        → api.contains_finalizer a.meta app_finalizer ≡ true
        → (reconcile_application (joined libs wire api) n s).0 ≡ ok 0
        → Holds
            (λ server. LacksAsked n a server.handler.repos)
            (reconcile_application (joined libs wire api) n s).1.server
  unfolding joined
  reconcile_application-Lacks xs first n a off got deleting bears h =
      let s = happen_all libs main_lib wire api xs first in
      let (done, left) =
        reconcile_application-told_deletion (joined libs wire api) n s a got deleting bears h in
      on_server (LacksAsked n a) left (
        on_repos (Lacks (deletion_message n.name a)) (LacksAsked n a) _ (Lacks-LacksAsked n a) (
          rpc-Lacks libs wire (deletion_message n.name a) _
            (happen_all-IsSound libs main_lib wire api xs first off) done))
