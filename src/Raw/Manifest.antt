-- ===== src/Raw/Manifest.antt =====
-- server/pkg/provider/raw.go, Resource and NewUnstructuredResource(s): from files to resources.
pub mod Split
pub mod Unreadable
use Prim.Native.Char.{code}
use Prim.Native.String.{◌++◌ as append}
use dummy_cd.Base.{String, Option, none, some, List, [], ◌∷◌, nat_eq, if◌then◌else◌}
use dummy_cd.Go.{Returned, value, failed, Exec, pure, deref, ◌>>=◌}
use dummy_cd.Libs.{Types}
use dummy_cd.Libs.Files.{FilesLibrary}
use dummy_cd.Libs.Cluster.{KubeLibrary, GroupVersionResource}
use dummy_cd.Util.{read_file}

pub record Resource (T : Types) : Type 0 where
  pub group : String
  pub version : String
  pub resource : String
  pub file_path : String
  pub obj : T.Object

abbrev pub gvr : {T : Types} → Resource T → GroupVersionResource
gvr r = record { group = r.group; version = r.version; resource = r.resource }

-- strings.Split(s, "/"): one token more than there are slashes.
abbrev pub prepend : (String → String) → List String → List String
prepend f [] = []
prepend f (token ∷ rest) = f token ∷ rest

unfoldable pub split_slash : String → List String
split_slash String.[] = "" ∷ []
split_slash (String.◌∷◌ c s) =
    let rest = split_slash s in
    if nat_eq (code c) b'/' then "" ∷ rest else prepend (String.◌∷◌ c) rest

-- The group and the version of an apiVersion: a single token is the version of the core group.
unfoldable pub group_version : List String → String × String
group_version [] = ("", "")
group_version (version ∷ []) = ("", version)
group_version (group ∷ version ∷ rest) = (group, version)

module _ {T : Types} (files : FilesLibrary T) (kube : KubeLibrary T) where
  unfoldable pub resource_of : String → T.Object → Resource T
  unfolding split_slash group_version
  resource_of path obj =
      let (group, version) = group_version (split_slash (kube.get_api_version obj)) in
      record {
        group = group;
        version = version;
        resource = kube.to_lower (append (kube.get_kind obj) "s");
        file_path = path;
        obj = obj;
      }

  -- A file that is no yaml or is empty is skipped; one that cannot be read is a nil dereference.
  unfoldable pub decode : String → Returned T.Object → Option (Resource T)
  unfolding resource_of
  decode path (failed e) = none
  decode path (value obj) = if kube.is_empty obj then none else some (resource_of path obj)

  unfoldable pub new_unstructured_resource : String → Exec T.World (Option (Resource T))
  unfolding read_file decode
  new_unstructured_resource path = do
    file ← read_file files path
    content ← deref file
    pure (decode path (kube.unmarshal content))

  abbrev append_some : Option (Resource T) → List (Resource T) → List (Resource T)
  append_some none rest = rest
  append_some (some r) rest = r ∷ rest

  unfoldable pub new_unstructured_resources : List String → Exec T.World (List (Resource T))
  unfolding new_unstructured_resource
  new_unstructured_resources [] = pure []
  new_unstructured_resources (path ∷ paths) = do
    resource ← new_unstructured_resource path
    rest ← new_unstructured_resources paths
    pure (append_some resource rest)
