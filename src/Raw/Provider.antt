-- ===== src/Raw/Provider.antt =====
-- server/pkg/provider/raw.go, RawProvider: its constructor and the delivery of its resources.
pub mod Nested
pub mod Foreign
pub mod Current
pub mod Together
use dummy_cd.Base.{
  String, Bool, true, false, Option, none, some, List, [], ◌∷◌, ◌==◌, is_nil, if◌then◌else◌,
}
use dummy_cd.Go.{
  not_found, no_one_resource_file_found, Returned, value, failed, Exec, pure, raise, gets, check,
  call, must, zoom, modify, ◌>>=◌, ◌>>◌,
}
use dummy_cd.Libs.{Types}
use dummy_cd.Libs.Files.{FilesLibrary}
use dummy_cd.Libs.Charts.{RestConfig}
use dummy_cd.Libs.Cluster.{KubeLibrary, Labels}
use dummy_cd.Util.{find_files_with_regex, get_files_full_path}
use dummy_cd.Raw.Manifest.{Resource, gvr, new_unstructured_resources}

-- `cleaning` is that the mutex is held, by a cleanup that has been started and has not ended.
pub record RawProvider (T : Types) : Type 0 where
  pub app_name : String
  pub resource_path : String
  pub namespace : String
  pub resources : List (Resource T)
  pub labels : Labels
  pub cleaning : Bool
  pub kube_config : RestConfig

pub record RawState (T : Types) : Type 0 where
  pub provider : RawProvider T
  pub world : T.World

abbrev pub on_world : {T : Types} {A : Type 0} → Exec T.World A → Exec (RawState T) A
on_world = zoom (λ s. s.world) (λ w s. record s { world = w })

-- map[string]string: `m[k]` with its second value, and `m[k] = v`.
unfoldable pub label : String → Labels → Option String
label k [] = none
label k ((j, v) ∷ rest) = if j == k then some v else label k rest

unfoldable pub set_label : String → String → Labels → Labels
set_label k v [] = (k, v) ∷ []
set_label k v ((j, u) ∷ rest) = if j == k then (k, v) ∷ rest else (j, u) ∷ set_label k v rest

-- `m[k]` of a key that is missing is the empty string.
abbrev pub or_empty : Option String → String
or_empty none = ""
or_empty (some v) = v

abbrev pub app_key : String
app_key = "dummy.cd/app"

abbrev pub revision_key : String
revision_key = "dummy.cd/revision"

abbrev pub yaml_regexp : String
yaml_regexp = "^.+\\.(yaml|yml)$"

unfoldable pub namespace_or_default : String → String
namespace_or_default namespace = if namespace == "" then "default" else namespace

module _ {T : Types} (files : FilesLibrary T) (kube : KubeLibrary T) where
  unfoldable pub get_resource_files : String → Exec T.World (List String)
  get_resource_files resource_path = do
    names ← find_files_with_regex files resource_path yaml_regexp
    pure (get_files_full_path files resource_path names)

  -- What NewRawProvider does when the namespace is asked for.
  unfoldable pub ensure_namespace : String → Returned (Unit {0}) → Exec T.World (Unit {0})
  ensure_namespace ns (value _) = pure tt
  ensure_namespace ns (failed not_found) = must (kube.create_namespace ns)
  ensure_namespace ns (failed e) = raise e

  -- NewRawProvider from getResourceFiles on; `ns` is the namespace or the default one.
  unfoldable pub build_raw_provider :
      String → String → String → RestConfig → Exec T.World (RawProvider T)
  build_raw_provider app_name resource_path ns rest = do
    resource_files ← get_resource_files resource_path
    if is_nil resource_files then raise no_one_resource_file_found else pure tt
    resources ← new_unstructured_resources files kube resource_files
    pure (record {
      app_name = app_name;
      resource_path = resource_path;
      namespace = ns;
      resources = resources;
      labels = (app_key, app_name) ∷ [];
      cleaning = false;
      kube_config = rest;
    })

  unfoldable pub new_raw_provider :
      String → String → String → RestConfig → Exec T.World (RawProvider T)
  unfolding ensure_namespace namespace_or_default
  new_raw_provider app_name resource_path namespace rest = do
    let ns = namespace_or_default namespace
    check (kube.new_client_set rest)
    found ← call (kube.get_namespace ns)
    ensure_namespace ns found
    check (kube.new_dynamic_client rest)
    build_raw_provider app_name resource_path ns rest

  -- Resource.Delivery where the cluster has the object: by the revision label that it bears there.
  unfoldable pub revise :
      String → Labels → Resource T → T.Object → Option String → Exec T.World (Resource T)
  revise ns labels r remote none = pure r
  revise ns labels r remote (some remote_revision) =
      if or_empty (label revision_key labels) == remote_revision then pure r else do
        let updated = record r {
          obj = kube.set_resource_version (kube.get_resource_version remote) r.obj;
        }
        call (kube.update (gvr r) ns updated.obj)
        pure updated

  -- What Resource.Delivery does after its Get; `r` has its labels set. An error is logged and goes
  -- no further.
  unfoldable pub apply_resource :
      String → Labels → Resource T → Returned T.Object → Exec T.World (Resource T)
  unfolding revise label
  apply_resource ns labels r (failed not_found) = do call (kube.create (gvr r) ns r.obj); pure r
  apply_resource ns labels r (failed e) = pure r
  apply_resource ns labels r (value remote) =
      revise ns labels r remote (label revision_key (kube.get_labels remote))

  unfoldable pub deliver_resource : String → Labels → Resource T → Exec T.World (Resource T)
  unfolding apply_resource
  deliver_resource ns labels r = do
    remote ← call (kube.get (gvr r) ns (kube.get_name r.obj))
    apply_resource ns labels (record r { obj = kube.set_labels labels r.obj }) remote

  -- The goroutines of Delivery, one for each resource, run one after another.
  unfoldable pub deliver_resources :
      String → Labels → List (Resource T) → Exec T.World (List (Resource T))
  unfolding deliver_resource
  deliver_resources ns labels [] = pure []
  deliver_resources ns labels (r ∷ rest) = do
    r' ← deliver_resource ns labels r
    rest' ← deliver_resources ns labels rest
    pure (r' ∷ rest')

  -- From the second delivery on the resources are read anew from the files.
  unfoldable pub reload : RawProvider T → Exec T.World (List (Resource T))
  unfolding get_resource_files
  reload p = elim (label revision_key p.labels) [
    | none ↦ pure p.resources
    | some _ ↦ do
      resource_files ← get_resource_files p.resource_path
      new_unstructured_resources files kube resource_files
  ]

  -- Delivery starts a cleanup, which runs in the background, unless one is under way.
  unfoldable pub delivery : String → Exec (RawState T) (Unit {0})
  unfolding reload deliver_resources
  delivery revision = do
    p ← gets (λ s. s.provider)
    resources ← on_world (reload p)
    let labels = set_label revision_key revision p.labels
    delivered ← on_world (deliver_resources p.namespace labels resources)
    modify (λ s. record s {
      provider = record (s.provider) { resources = delivered; labels = labels; cleaning = true };
    })
