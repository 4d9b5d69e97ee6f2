-- ===== src/Libs/Cluster.antt =====
-- client-go, the dynamic client and the yaml decoder, as far as the server calls them.
use dummy_cd.Base.{String, Bool, List}
use dummy_cd.Go.{Returned, Call}
use dummy_cd.Libs.{Types}
use dummy_cd.Libs.Files.{Bytes}
use dummy_cd.Libs.Charts.{RestConfig}

-- schema.GroupVersionResource
pub record GroupVersionResource : Type 0 where
  pub group : String
  pub version : String
  pub resource : String

-- metav1.APIGroup: a name, and for each version its groupVersion and its version.
pub record ApiGroup : Type 0 where
  pub name : String
  pub versions : List (String × String)

-- selection.Equals and selection.NotEquals
pub data Operator : Type 0 where
  equals : Operator
  not_equals : Operator

-- labels.Requirement
pub record Requirement : Type 0 where
  pub key : String
  pub operator : Operator
  pub wanted : String

abbrev pub Labels : Type 0
Labels = List (String × String)

pub record KubeLibrary (T : Types) : Type 0 where
  -- kubernetes.NewForConfig and dynamic.NewForConfig, whose clients act on the world
  pub new_client_set : RestConfig → Returned (Unit {0})
  pub new_dynamic_client : RestConfig → Returned (Unit {0})
  pub get_namespace : String → Call T.World (Unit {0})
  pub create_namespace : String → Call T.World (Unit {0})
  -- the entry sshPrivateKey of a secret, by namespace and name
  pub get_ssh_key : String → String → Call T.World Bytes
  pub server_groups : Call T.World (List ApiGroup)
  pub server_resources : String → Call T.World (List String)
  pub get : GroupVersionResource → String → String → Call T.World T.Object
  pub create : GroupVersionResource → String → T.Object → Call T.World (Unit {0})
  pub update : GroupVersionResource → String → T.Object → Call T.World (Unit {0})
  pub delete : GroupVersionResource → String → String → Call T.World (Unit {0})
  pub list : GroupVersionResource → String → List Requirement → Call T.World (List T.Object)
  pub new_requirement : Requirement → Returned (Unit {0})
  -- yaml.Unmarshal into a map, and whether the map is empty
  pub unmarshal : Bytes → Returned T.Object
  pub is_empty : T.Object → Bool
  pub get_api_version : T.Object → String
  pub get_kind : T.Object → String
  pub get_name : T.Object → String
  pub get_labels : T.Object → Labels
  pub set_labels : Labels → T.Object → T.Object
  pub get_resource_version : T.Object → String
  pub set_resource_version : String → T.Object → T.Object
  -- strings.ToLower
  pub to_lower : String → String
