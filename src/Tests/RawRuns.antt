-- ===== src/Tests/RawRuns.antt =====
-- Runs of the search for files and of the raw provider in the small world.
use mathlib.Core.List.{Memᴰ}
use dummy_cd.Raw.Manifest.{group_version, split_slash}
use dummy_cd.Raw.Manifest.Split.{group_version-split}
use dummy_cd.Raw.Cleanup.{
  uninstall, finish_cleanup, clean_resources, clean_world, clean_groups, new_selector,
}
use dummy_cd.Base.{String, ◌≡◌, ◌≢◌, refl, false, none, List, [], ◌∷◌}
use dummy_cd.Go.{ok, failed, other}
use dummy_cd.Libs.Files.{FilesLibrary, WalkEntry}
use dummy_cd.Util.{find_files_with_regex}
use dummy_cd.Util.Search.{Found, find_files_with_regex-exact}
use dummy_cd.Raw.Manifest.{split_slash}
use dummy_cd.Raw.Provider.{RawProvider, RawState, new_raw_provider, delivery}
use dummy_cd.Raw.Provider.Nested.{new_raw_provider-nested}
use dummy_cd.Base.{inl, ◌==◌, if◌then◌else◌, some}
use dummy_cd.Go.{value}
use dummy_cd.Libs.Cluster.{KubeLibrary, GroupVersionResource}
use dummy_cd.Raw.Manifest.{Resource}
use dummy_cd.Raw.Provider.{label, apply_resource, revise}
use dummy_cd.Raw.Provider.Foreign.{KubeLaws, delivery-foreign}
use dummy_cd.Raw.Provider.Together.{applied, Pool, started, gets, applies, Reach, here, next}
use dummy_cd.Raw.Provider.Together.Spared.{Reach-foreign}
use dummy_cd.Tests.Toy.{toy, toy_files, toy_kube, toy_rest}

abbrev nested : WalkEntry
nested = record { path = "sub/a.yaml"; name = "a.yaml"; error = none }

find_files_with_regex-exact_example :
    (names : List String) × (find_files_with_regex toy_files "/app" "ya?ml" [] ≡ (ok names, []))
    × ((name : String)
        → (Memᴰ name names → Found toy_files tt name (nested ∷ []))
          × (Found toy_files tt name (nested ∷ []) → Memᴰ name names))
find_files_with_regex-exact_example =
    find_files_with_regex-exact toy_files "/app" "ya?ml" tt [] (nested ∷ []) refl refl

-- Files that no path names.
abbrev unread : FilesLibrary toy
unread = record toy_files { read_file = λ p w. (failed (other "no such file"), w) }

abbrev deployed : RawProvider toy
deployed = record {
  app_name = "web";
  resource_path = "/app";
  namespace = "web";
  resources =
      record {
        group = "apps";
        version = "v1";
        resource = "deployments";
        file_path = "/app";
        obj = "nginx";
      }
      ∷ [];
  labels = ("dummy.cd/app", "web") ∷ [];
  cleaning = false;
  kube_config = toy_rest;
}

new_raw_provider-nested_example :
    (new_raw_provider unread toy_kube "web" "/app" "web" toy_rest []).0 ≢ ok deployed
new_raw_provider-nested_example =
    new_raw_provider-nested unread toy_kube "web" "/app" "web" toy_rest tt nested [] deployed refl
      (λ w. (nested ∷ [], refl, Memᴰ.head refl, (refl, refl))) (λ w. (other "no such file", refl))

abbrev waiting : RawState toy
waiting = record { provider = deployed; world = [] }

-- A cluster where each name is that of an object, and all but one of the objects are the server's.
abbrev occupied : KubeLibrary toy
occupied = record toy_kube {
  get = λ k ns n w. (value n, w);
  get_labels = λ o. if o == "foreign" then [] else ("dummy.cd/revision", "older") ∷ [];
}

value_object : {a b : String} → value a ≡ value b → some a ≡ some b
value_object e = cc

occupied_laws : KubeLaws toy_files occupied
occupied_laws = record {
  stored = λ w k ns n. some n;
  get_reads = λ w k ns n h. value_object h;
  get_keeps = λ w k k' ns n ns' n'. refl;
  create_keeps = λ w k k' ns n ns' x o h. h;
  update_keeps = λ w k k' ns n ns' x. inl refl;
  labels_name = λ l x. refl;
  version_name = λ v x. refl;
  read_keeps = λ w k ns n p. refl;
  walk_keeps = λ w k ns n p. refl;
}

abbrev deployments : GroupVersionResource
deployments = record { group = "apps"; version = "v1"; resource = "deployments" }

abbrev resource_named : String → Resource toy
resource_named name = record {
  group = "apps";
  version = "v1";
  resource = "deployments";
  file_path = "/app";
  obj = name;
}

abbrev mixed : RawState toy
mixed = record waiting {
  provider = record deployed { resources = resource_named "nginx" ∷ resource_named "foreign" ∷ [] };
}

delivery-foreign_example :
    occupied_laws.stored
      (delivery toy_files occupied "seven" mixed).1.world
      deployments
      "web"
      "foreign"
    ≡ some "foreign"
unfolding occupied_laws label
delivery-foreign_example =
    delivery-foreign occupied_laws deployments "web" "foreign" mixed "seven" "foreign" refl refl

-- The object is asked for, and left.
abbrev foreign_resource : Resource toy
foreign_resource = resource_named "foreign"

abbrev foreign_left : Pool toy
foreign_left = record {
  jobs = record { resource = foreign_resource; stage = applied } ∷ [];
  world = [];
}

leaves_foreign : Reach toy_files occupied "web" [] (started (foreign_resource ∷ []) []) foreign_left
unfolding apply_resource revise label
leaves_foreign =
    next [] [] (next [] [] here (gets foreign_resource []))
      (applies foreign_resource foreign_resource (value "foreign") [] [] refl)

Reach-foreign_example : occupied_laws.stored [] deployments "web" "foreign" ≡ some "foreign"
unfolding occupied_laws label
Reach-foreign_example =
    Reach-foreign occupied_laws "web" [] (foreign_resource ∷ []) [] deployments "web" "foreign"
      "foreign" refl refl leaves_foreign

group_version-split_example :
    (group_version (split_slash "apps/v1") ≡ ("apps", "v1"))
    × (group_version (split_slash "v1") ≡ ("", "v1"))
group_version-split_example =
    group_version-split "apps" "v1" (refl, (refl, (refl, (refl, tt)))) (refl, (refl, tt))

-- Once the cleanup that a delivery has started is over, Uninstall goes through.
cleaned_uninstalls :
    (uninstall toy_kube 7 "seven"
      (finish_cleanup toy_kube 7 "seven" (delivery toy_files toy_kube "seven" waiting).1)).0
    ≡ ok tt
unfolding uninstall finish_cleanup delivery clean_resources clean_world clean_groups new_selector
cleaned_uninstalls = refl
