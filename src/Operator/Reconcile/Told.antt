-- ===== src/Operator/Reconcile/Told.antt =====
-- operator/controllers: what a Reconcile without an error has told the server.
use dummy_cd.Base.{◌≡◌, true, false, arith}
use dummy_cd.Go.{value, ok}
use dummy_cd.Operator.Resources.{Application, Repository, NamespacedName, OperatorLibrary}
use dummy_cd.Operator.Reconcile.{
  app_finalizer, application_message, deletion_message, repository_message, ensure_app_finalizer,
  sync_application, finalize_application, reconcile_found_application, reconcile_application,
  ensure_repo_finalizer, sync_repository, reconcile_found_repository, reconcile_repository,
}

module _ {W : Type 0} (lib : OperatorLibrary W) (req : NamespacedName) where
  -- The last thing done is the request with the application's message.
  pub reconcile_application-told :
      (w : W) (a : Application)
      → (lib.get_application req w).0 ≡ value a
      → a.meta.deleting ≡ false
      → (reconcile_application lib req w).0 ≡ ok 60
      → let told =
          lib.rpc_add_or_update_application
            (application_message req.name a)
            (ensure_app_finalizer lib req a (lib.get_application req w).1).1 in
        (told.0 ≡ ok tt) × ((reconcile_application lib req w).1 ≡ told.1)
  unfolding reconcile_application reconcile_found_application sync_application
  reconcile_application-told w a got live h = ground arith

  pub reconcile_application-told_deletion :
      (w : W) (a : Application)
      → (lib.get_application req w).0 ≡ value a
      → a.meta.deleting ≡ true
      → lib.contains_finalizer a.meta app_finalizer ≡ true
      → (reconcile_application lib req w).0 ≡ ok 0
      → let told =
          lib.rpc_delete_application (deletion_message req.name a) (lib.get_application req w).1 in
        (told.0 ≡ ok tt)
        × ((reconcile_application lib req w).1
            ≡ (lib.update_application req
                (record a { meta = lib.remove_finalizer app_finalizer a.meta })
                told.1).1)
  unfolding reconcile_application reconcile_found_application finalize_application
  reconcile_application-told_deletion w a got deleting bears h = ground arith

  pub reconcile_repository-told :
      (w : W) (r : Repository)
      → (lib.get_repository req w).0 ≡ value r
      → r.meta.deleting ≡ false
      → (reconcile_repository lib req w).0 ≡ ok 60
      → let told =
          lib.rpc_add_repository
            (repository_message req.name r)
            (ensure_repo_finalizer lib req r (lib.get_repository req w).1).1 in
        (told.0 ≡ ok tt) × ((reconcile_repository lib req w).1 ≡ told.1)
  unfolding reconcile_repository reconcile_found_repository sync_repository
  reconcile_repository-told w r got live h = ground arith
