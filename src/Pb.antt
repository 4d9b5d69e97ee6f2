-- ===== src/Pb.antt =====
-- The messages of the gRPC service (server/pkg/pb). A message that a request leaves out is a nil
-- pointer; the getters read it as an empty message.
use dummy_cd.Base.{String, Bool, false, Option, none, some, List, []}

pub record Repository : Type 0 where
  pub name : String
  pub url : String
  pub private_key_secret : String
  pub insecure_ignore_host_key : Bool

pub record Revision : Type 0 where
  pub hash : String
  pub message : String

pub record HelmProvider : Type 0 where
  pub check_values_equal : Bool
  pub re_install_release : Bool
  pub create_namespace : Bool
  pub atomic : Bool
  pub include_crds : Bool
  pub values_files : List String

pub record Application : Type 0 where
  pub name : String
  pub namespace : String
  pub url : String
  pub reference : String
  pub sparse_path : String
  pub revision : Option Revision
  pub helm : Option HelmProvider

-- What the getters of HelmProvider answer on nil.
unfoldable pub get_helm : Option HelmProvider → HelmProvider
get_helm (some h) = h
get_helm none = record {
  check_values_equal = false;
  re_install_release = false;
  create_namespace = false;
  atomic = false;
  include_crds = false;
  values_files = [];
}
