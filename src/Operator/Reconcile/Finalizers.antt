-- ===== src/Operator/Reconcile/Finalizers.antt =====
-- operator/controllers: the finalizer of a resource stands between it and the server.
use dummy_cd.Base.{String, ◌≡◌, refl, ◌∙◌, true, Option, some, Holds, arith}
use dummy_cd.Go.{Error, Returned, value, failed, ok, err}
use dummy_cd.Operator.Resources.{
  Application, Repository, ObjectMeta, NamespacedName, OperatorLibrary,
}
use dummy_cd.Operator.Reconcile.{
  app_finalizer, repo_finalizer, ensure_app_finalizer, sync_application, finalize_application,
  deletion_message, reconcile_found_application, reconcile_application, ensure_repo_finalizer,
  sync_repository, finalize_repository, repository_deletion_message, reconcile_found_repository,
  reconcile_repository,
}
use dummy_cd.Pb

-- The documented behaviour of the API server and of controllerutil. `apps` and `repos` are the
-- resources that the API server stores.
pub record OperatorLaws {W : Type 0} (lib : OperatorLibrary W) (req : NamespacedName) : Type 0 where
  pub apps : W → Option Application
  pub repos : W → Option Repository
  pub get_app_reads :
      (w : W) {a : Application} → (lib.get_application req w).0 ≡ value a → apps w ≡ some a
  pub get_app_keeps : (w : W) → apps (lib.get_application req w).1 ≡ apps w
  pub update_app_stores :
      (w : W) (a : Application)
      → (lib.update_application req a w).0 ≡ value tt
      → apps (lib.update_application req a w).1 ≡ some a
  pub rpc_update_keeps :
      (w : W) (m : Pb.Application) → apps (lib.rpc_add_or_update_application m w).1 ≡ apps w
  pub rpc_delete_keeps :
      (w : W) (m : Pb.Application) → apps (lib.rpc_delete_application m w).1 ≡ apps w
  pub get_repo_reads :
      (w : W) {r : Repository} → (lib.get_repository req w).0 ≡ value r → repos w ≡ some r
  pub get_repo_keeps : (w : W) → repos (lib.get_repository req w).1 ≡ repos w
  pub update_repo_stores :
      (w : W) (r : Repository)
      → (lib.update_repository req r w).0 ≡ value tt
      → repos (lib.update_repository req r w).1 ≡ some r
  pub rpc_add_keeps : (w : W) (m : Pb.Repository) → repos (lib.rpc_add_repository m w).1 ≡ repos w
  pub rpc_remove_keeps :
      (w : W) (m : Pb.Repository) → repos (lib.rpc_delete_repository m w).1 ≡ repos w
  pub contains_add :
      (f : String) (m : ObjectMeta) → lib.contains_finalizer (lib.add_finalizer f m) f ≡ true

module _ {W : Type 0} {lib : OperatorLibrary W} {req : NamespacedName}
    (laws : OperatorLaws lib req) where
  open laws use {apps, repos}

  ensure_app_stores :
      (a : Application) (w : W)
      → apps w ≡ some a
      → (ensure_app_finalizer lib req a w).0 ≡ ok tt
      → Holds
          (λ b. lib.contains_finalizer b.meta app_finalizer ≡ true)
          (apps (ensure_app_finalizer lib req a w).1)
  unfolding ensure_app_finalizer
  ensure_app_stores a w e h = grind (arith, laws.update_app_stores, laws.contains_add)

  sync_app_stores :
      (a : Application) (w : W)
      → apps w ≡ some a
      → (sync_application lib req a w).0 ≡ ok 60
      → Holds
          (λ b. lib.contains_finalizer b.meta app_finalizer ≡ true)
          (apps (sync_application lib req a w).1)
  unfolding sync_application
  sync_app_stores a w e h = grind (arith, laws.rpc_update_keeps, ensure_app_stores a w e)

  found_app_stores :
      (r : Returned Application) (w : W)
      → ((a : Application) → r ≡ value a → apps w ≡ some a)
      → (reconcile_found_application lib req r w).0 ≡ ok 60
      → Holds
          (λ b. lib.contains_finalizer b.meta app_finalizer ≡ true)
          (apps (reconcile_found_application lib req r w).1)
  unfolding reconcile_found_application finalize_application
  found_app_stores (failed e) w reads h = ground arith
  found_app_stores (value a) w reads h = ground (arith, sync_app_stores a w (reads a refl))

  -- With an API server as OperatorLaws says: an application whose Reconcile asks to be called again
  -- in a minute is stored with its finalizer.
  pub reconcile_application-finalizer_stored :
      (w : W)
      → (reconcile_application lib req w).0 ≡ ok 60
      → Holds
          (λ b. lib.contains_finalizer b.meta app_finalizer ≡ true)
          (apps (reconcile_application lib req w).1)
  unfolding reconcile_application
  reconcile_application-finalizer_stored w h =
      let got = lib.get_application req w in
      found_app_stores got.0 got.1 (λ a e. laws.get_app_keeps w ∙ laws.get_app_reads w e) h

  -- With an API server as OperatorLaws says: where an application that bears the finalizer is being
  -- deleted and the server refuses to delete it, Reconcile ends with that error and the stored
  -- application stays as it is, with its finalizer.
  pub reconcile_application-keeps_finalizer :
      (w : W) (a : Application) (e : Error)
      → (lib.get_application req w).0 ≡ value a
      → a.meta.deleting ≡ true
      → lib.contains_finalizer a.meta app_finalizer ≡ true
      → (lib.rpc_delete_application (deletion_message req.name a) (lib.get_application req w).1).0
        ≡ err e
      → ((reconcile_application lib req w).0 ≡ err e)
        × (apps (reconcile_application lib req w).1 ≡ some a)
  unfolding reconcile_application reconcile_found_application finalize_application
  reconcile_application-keeps_finalizer w a e got deleting bears refused = ground (
    arith,
    laws.get_app_keeps w,
    laws.get_app_reads w got,
    laws.rpc_delete_keeps (lib.get_application req w).1 (deletion_message req.name a),
  )

  ensure_repo_stores :
      (a : Repository) (w : W)
      → repos w ≡ some a
      → (ensure_repo_finalizer lib req a w).0 ≡ ok tt
      → Holds
          (λ b. lib.contains_finalizer b.meta repo_finalizer ≡ true)
          (repos (ensure_repo_finalizer lib req a w).1)
  unfolding ensure_repo_finalizer
  ensure_repo_stores a w e h = grind (arith, laws.update_repo_stores, laws.contains_add)

  sync_repo_stores :
      (a : Repository) (w : W)
      → repos w ≡ some a
      → (sync_repository lib req a w).0 ≡ ok 60
      → Holds
          (λ b. lib.contains_finalizer b.meta repo_finalizer ≡ true)
          (repos (sync_repository lib req a w).1)
  unfolding sync_repository
  sync_repo_stores a w e h = grind (arith, laws.rpc_add_keeps, ensure_repo_stores a w e)

  found_repo_stores :
      (r : Returned Repository) (w : W)
      → ((a : Repository) → r ≡ value a → repos w ≡ some a)
      → (reconcile_found_repository lib req r w).0 ≡ ok 60
      → Holds
          (λ b. lib.contains_finalizer b.meta repo_finalizer ≡ true)
          (repos (reconcile_found_repository lib req r w).1)
  unfolding reconcile_found_repository finalize_repository
  found_repo_stores (failed e) w reads h = ground arith
  found_repo_stores (value a) w reads h = ground (arith, sync_repo_stores a w (reads a refl))

  -- With an API server as OperatorLaws says: a repository whose Reconcile asks to be called again
  -- in a minute is stored with its finalizer.
  pub reconcile_repository-finalizer_stored :
      (w : W)
      → (reconcile_repository lib req w).0 ≡ ok 60
      → Holds
          (λ b. lib.contains_finalizer b.meta repo_finalizer ≡ true)
          (repos (reconcile_repository lib req w).1)
  unfolding reconcile_repository
  reconcile_repository-finalizer_stored w h =
      let got = lib.get_repository req w in
      found_repo_stores got.0 got.1 (λ a e. laws.get_repo_keeps w ∙ laws.get_repo_reads w e) h

  -- With an API server as OperatorLaws says: where a repository that bears the finalizer is being
  -- deleted and the server refuses to delete it, Reconcile ends with that error and the stored
  -- repository stays as it is, with its finalizer.
  pub reconcile_repository-keeps_finalizer :
      (w : W) (a : Repository) (e : Error)
      → (lib.get_repository req w).0 ≡ value a
      → a.meta.deleting ≡ true
      → lib.contains_finalizer a.meta repo_finalizer ≡ true
      → (lib.rpc_delete_repository
          (repository_deletion_message req.name)
          (lib.get_repository req w).1).0
        ≡ err e
      → ((reconcile_repository lib req w).0 ≡ err e)
        × (repos (reconcile_repository lib req w).1 ≡ some a)
  unfolding reconcile_repository reconcile_found_repository finalize_repository
  reconcile_repository-keeps_finalizer w a e got deleting bears refused = ground (
    arith,
    laws.get_repo_keeps w,
    laws.get_repo_reads w got,
    laws.rpc_remove_keeps (lib.get_repository req w).1 (repository_deletion_message req.name),
  )
