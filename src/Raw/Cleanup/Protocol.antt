-- ===== src/Raw/Cleanup/Protocol.antt =====
-- server/pkg/provider/raw.go, cleanResources: no loop of a cleanup returns an error.
use dummy_cd.Base.{String, List, [], ◌∷◌, ◌≡◌, refl, arith}
use dummy_cd.Go.{Returned, value, failed, ok}
use dummy_cd.Libs.{Types}
use dummy_cd.Libs.Cluster.{KubeLibrary, Requirement, ApiGroup, GroupVersionResource}
use dummy_cd.Raw.Cleanup.{
  delete_items, clean_listed, clean_kind, clean_kinds, clean_version, clean_versions, clean_groups,
}

module _ {T : Types} (kube : KubeLibrary T) where
  module _ (ns : String) (selector : List Requirement) where
    pub delete_items-ok :
        (kind : GroupVersionResource) (items : List T.Object) (w : T.World)
        → (delete_items kube ns selector kind items w).0 ≡ ok tt
    unfolding delete_items
    delete_items-ok kind [] w = refl
    delete_items-ok kind (item ∷ rest) w = delete_items-ok kind rest _

    pub clean_listed-ok :
        (kind : GroupVersionResource) (r : Returned (List T.Object)) (w : T.World)
        → (clean_listed kube ns selector kind r w).0 ≡ ok tt
    unfolding clean_listed
    clean_listed-ok kind (failed e) w = refl
    clean_listed-ok kind (value items) w = delete_items-ok kind items w

    pub clean_kinds-ok :
        (group version : String) (names : List String) (w : T.World)
        → (clean_kinds kube ns selector group version names w).0 ≡ ok tt
    unfolding clean_kinds clean_kind
    clean_kinds-ok group version [] w = refl
    clean_kinds-ok group version (name ∷ rest) w =
        grind (arith, clean_listed-ok, clean_kinds-ok group version rest)

    pub clean_version-ok :
        (group version : String) (r : Returned (List String)) (w : T.World)
        → (clean_version kube ns selector group version r w).0 ≡ ok tt
    unfolding clean_version
    clean_version-ok group version (failed e) w = refl
    clean_version-ok group version (value names) w = clean_kinds-ok group version names w

    pub clean_versions-ok :
        (group : String) (versions : List (String × String)) (w : T.World)
        → (clean_versions kube ns selector group versions w).0 ≡ ok tt
    unfolding clean_versions
    clean_versions-ok group [] w = refl
    clean_versions-ok group ((gv, version) ∷ rest) w =
        grind (arith, clean_version-ok, clean_versions-ok group rest)

    clean_groups-ok :
        (groups : List ApiGroup) (w : T.World) → (clean_groups kube ns selector groups w).0 ≡ ok tt
    unfolding clean_groups
    clean_groups-ok [] w = refl
    clean_groups-ok (g ∷ rest) w = grind (arith, clean_versions-ok, clean_groups-ok rest)
