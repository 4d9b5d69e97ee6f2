-- ===== src/Operator/Reconcile.antt =====
-- operator/controllers: Reconcile of applications and of repositories. The result is the time until
-- the next call, in seconds, 0 where none is asked for.
pub mod Finalizers
pub mod Keeps
pub mod Told
use dummy_cd.Base.{ℕ, String, false, not, none, some, if◌then◌else◌}
use dummy_cd.Go.{
  Error, not_found, Returned, value, failed, Exec, pure, raise, call, must, ◌>>=◌, ◌>>◌,
}
use dummy_cd.Operator.Resources.{
  Application, Repository, NamespacedName, ApplicationHelmSpec, OperatorLibrary,
}
use dummy_cd.Pb

abbrev pub app_finalizer : String
app_finalizer = "app.dummy.cd/finalizer"

abbrev pub repo_finalizer : String
repo_finalizer = "repo.dummy.cd/finalizer"

-- client.IgnoreNotFound of an error of Get, with an empty result.
unfoldable pub ignore_not_found : {W : Type 0} → Error → Exec W ℕ
ignore_not_found not_found = pure 0
ignore_not_found e = raise e

unfoldable pub helm_message : ApplicationHelmSpec → Pb.HelmProvider
helm_message h = record {
  check_values_equal = h.check_values_equal;
  re_install_release = h.re_install_release;
  create_namespace = h.create_namespace;
  atomic = h.atomic;
  include_crds = h.include_crds;
  values_files = h.values_files;
}

unfoldable pub application_message : String → Application → Pb.Application
unfolding helm_message
application_message name app = record {
  name = name;
  namespace = app.spec.namespace;
  url = app.spec.url;
  reference = app.spec.reference;
  sparse_path = app.spec.sparse_path;
  revision = none;
  helm = some (helm_message app.spec.helm);
}

-- The message that asks for the deletion of an application has its name and its URL alone.
unfoldable pub deletion_message : String → Application → Pb.Application
deletion_message name app = record {
  name = name;
  namespace = "";
  url = app.spec.url;
  reference = "";
  sparse_path = "";
  revision = none;
  helm = none;
}

unfoldable pub repository_message : String → Repository → Pb.Repository
repository_message name repo = record {
  name = name;
  url = repo.spec.url;
  private_key_secret = repo.spec.private_key_secret;
  insecure_ignore_host_key = repo.spec.insecure_ignore_host_key;
}

unfoldable pub repository_deletion_message : String → Pb.Repository
repository_deletion_message name = record {
  name = name;
  url = "";
  private_key_secret = "";
  insecure_ignore_host_key = false;
}

module _ {W : Type 0} (lib : OperatorLibrary W) (req : NamespacedName) where
  -- The deletion timestamp is not set: the finalizer is stored before the server is told.
  unfoldable pub ensure_app_finalizer : Application → Exec W (Unit {0})
  ensure_app_finalizer app =
      if lib.contains_finalizer app.meta app_finalizer
      then pure tt
      else must (
          lib.update_application req
            (record app { meta = lib.add_finalizer app_finalizer app.meta }))

  unfoldable pub sync_application : Application → Exec W ℕ
  sync_application app = do
    ensure_app_finalizer app
    lib.rpc_add_or_update_application (application_message req.name app)
    pure 60

  unfoldable pub finalize_application : Application → Exec W ℕ
  finalize_application app =
      if not (lib.contains_finalizer app.meta app_finalizer) then pure 0 else do
        lib.rpc_delete_application (deletion_message req.name app)
        must (
            lib.update_application req
              (record app { meta = lib.remove_finalizer app_finalizer app.meta }))
        pure 0

  unfoldable pub reconcile_found_application : Returned Application → Exec W ℕ
  unfolding ignore_not_found
  reconcile_found_application (failed e) = ignore_not_found e
  reconcile_found_application (value app) =
      if not app.meta.deleting then sync_application app else finalize_application app

  unfoldable pub reconcile_application : Exec W ℕ
  reconcile_application = do
    found ← call (lib.get_application req)
    reconcile_found_application found

  unfoldable pub ensure_repo_finalizer : Repository → Exec W (Unit {0})
  ensure_repo_finalizer repo =
      if lib.contains_finalizer repo.meta repo_finalizer
      then pure tt
      else must (
          lib.update_repository req
            (record repo { meta = lib.add_finalizer repo_finalizer repo.meta }))

  unfoldable pub sync_repository : Repository → Exec W ℕ
  sync_repository repo = do
    ensure_repo_finalizer repo
    lib.rpc_add_repository (repository_message req.name repo)
    pure 60

  unfoldable pub finalize_repository : Repository → Exec W ℕ
  finalize_repository repo =
      if not (lib.contains_finalizer repo.meta repo_finalizer) then pure 0 else do
        lib.rpc_delete_repository (repository_deletion_message req.name)
        must (
            lib.update_repository req
              (record repo { meta = lib.remove_finalizer repo_finalizer repo.meta }))
        pure 0

  unfoldable pub reconcile_found_repository : Returned Repository → Exec W ℕ
  unfolding ignore_not_found
  reconcile_found_repository (failed e) = ignore_not_found e
  reconcile_found_repository (value repo) =
      if not repo.meta.deleting then sync_repository repo else finalize_repository repo

  unfoldable pub reconcile_repository : Exec W ℕ
  reconcile_repository = do found ← call (lib.get_repository req); reconcile_found_repository found
