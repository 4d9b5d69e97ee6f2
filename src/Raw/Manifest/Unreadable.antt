-- ===== src/Raw/Manifest/Unreadable.antt =====
-- server/pkg/provider/raw.go: a manifest that cannot be read where the search places it.
use mathlib.Core.List.{Memᴰ}
use dummy_cd.Base.{String, ◌≡◌, ap, List, [], ◌∷◌, arith}
use dummy_cd.Go.{Error, OnOk, panic, failed}
use dummy_cd.Libs.{Types}
use dummy_cd.Libs.Files.{FilesLibrary}
use dummy_cd.Libs.Cluster.{KubeLibrary}
use dummy_cd.Util.{read_file, pointer}
use dummy_cd.Raw.Manifest.{new_unstructured_resource, new_unstructured_resources}

module _ {T : Types} (files : FilesLibrary T) (kube : KubeLibrary T) where
  abbrev pub IsUnreadable : String → Type 0
  IsUnreadable path = (w : T.World) → (e : Error) × ((files.read_file path w).0 ≡ failed e)

  unreadable-panics :
      (path : String) (w : T.World)
      → IsUnreadable path
      → (new_unstructured_resource files kube path w).0 ≡ panic
  unfolding new_unstructured_resource read_file pointer
  unreadable-panics path w h = let (e, fails) = h w in ground arith

  -- One file of the list that cannot be read keeps the list from being read.
  pub new_unstructured_resources-unreadable :
      (path : String) (paths : List String) (w : T.World)
      → Memᴰ path paths
      → IsUnreadable path
      → OnOk (λ _. ⊥) (new_unstructured_resources files kube paths w).0
  unfolding new_unstructured_resources
  new_unstructured_resources-unreadable path [] w m h = elim m [ ]
  new_unstructured_resources-unreadable path (p ∷ ps) w (Memᴰ.head e) h = ground (
    arith,
    ap (λ (x : String). (new_unstructured_resource files kube x w).0) e,
    unreadable-panics path w h,
  )
  new_unstructured_resources-unreadable path (p ∷ ps) w (Memᴰ.tail m) h = ground (
    arith,
    new_unstructured_resources-unreadable path ps (new_unstructured_resource files kube p w).1 m h,
  )
