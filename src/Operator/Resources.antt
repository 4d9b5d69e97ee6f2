-- ===== src/Operator/Resources.antt =====
-- operator/api/v1alpha1: the custom resources, and what the reconcilers call. The status of a
-- resource is not read or written by them.
use dummy_cd.Base.{String, Bool, List}
use dummy_cd.Go.{Call, Exec}
use dummy_cd.Pb

pub record ApplicationHelmSpec : Type 0 where
  pub check_values_equal : Bool
  pub re_install_release : Bool
  pub create_namespace : Bool
  pub atomic : Bool
  pub include_crds : Bool
  pub values_files : List String

pub record ApplicationSpec : Type 0 where
  pub url : String
  pub namespace : String
  pub reference : String
  pub sparse_path : String
  pub helm : ApplicationHelmSpec

pub record RepositorySpec : Type 0 where
  pub url : String
  pub private_key_secret : String
  pub insecure_ignore_host_key : Bool

-- metav1.ObjectMeta, as far as it is read; `deleting` is that the deletion timestamp is set.
pub record ObjectMeta : Type 0 where
  pub deleting : Bool
  pub finalizers : List String

pub record Application : Type 0 where
  pub meta : ObjectMeta
  pub spec : ApplicationSpec

pub record Repository : Type 0 where
  pub meta : ObjectMeta
  pub spec : RepositorySpec

-- types.NamespacedName
pub record NamespacedName : Type 0 where
  pub namespace : String
  pub name : String

-- The API server's client, controllerutil, and the gRPC client of the server. A call of the server
-- may wait for ever, as the handler does that answers it.
pub record OperatorLibrary (W : Type 0) : Type 0 where
  pub get_application : NamespacedName → Call W Application
  pub update_application : NamespacedName → Application → Call W (Unit {0})
  pub get_repository : NamespacedName → Call W Repository
  pub update_repository : NamespacedName → Repository → Call W (Unit {0})
  pub contains_finalizer : ObjectMeta → String → Bool
  pub add_finalizer : String → ObjectMeta → ObjectMeta
  pub remove_finalizer : String → ObjectMeta → ObjectMeta
  pub rpc_add_repository : Pb.Repository → Exec W (Unit {0})
  pub rpc_delete_repository : Pb.Repository → Exec W (Unit {0})
  pub rpc_add_or_update_application : Pb.Application → Exec W (Unit {0})
  pub rpc_delete_application : Pb.Application → Exec W (Unit {0})
