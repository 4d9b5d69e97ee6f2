-- ===== src/Raw/Provider/Nested.antt =====
-- server/pkg/provider/raw.go, NewRawProvider: manifests below a folder. The search keeps the base
-- name of a file, so the file is read from the root, whichever folder it stands in.
use mathlib.Core.List.{Memᴰ}
use dummy_cd.Base.{String, ◌≡◌, ◌≢◌, refl, List, [], ◌∷◌, arith}
use dummy_cd.Go.{OnOk, ok, value}
use dummy_cd.Libs.{Types}
use dummy_cd.Libs.Files.{FilesLibrary, WalkEntry}
use dummy_cd.Libs.Charts.{RestConfig}
use dummy_cd.Libs.Cluster.{KubeLibrary}
use dummy_cd.Util.{get_files_full_path}
use dummy_cd.Util.Search.{Fits, find_files_with_regex-exact, get_files_full_path-mem}
use dummy_cd.Raw.Manifest.Unreadable.{IsUnreadable, new_unstructured_resources-unreadable}
use dummy_cd.Raw.Provider.{
  RawProvider, yaml_regexp, get_resource_files, new_raw_provider, build_raw_provider,
}

module _ {T : Types} (files : FilesLibrary T) (kube : KubeLibrary T) where
  -- The walk of the root shows the file at every state of the world.
  abbrev pub Shows : String → T.Regexp → WalkEntry → Type 0
  Shows root rx entry =
      (w : T.World)
      → (entries : List WalkEntry) × ((files.walk root w).0 ≡ value entries)
        × Memᴰ entry entries
        × Fits files rx entry

  resource_files-mem :
      (root : String) (rx : T.Regexp) (entry : WalkEntry) (w : T.World)
      → files.compile yaml_regexp ≡ value rx
      → Shows root rx entry
      → (paths : List String) × ((get_resource_files files kube root w).0 ≡ ok paths)
        × Memᴰ (files.join (root ∷ entry.name ∷ [])) paths
  unfolding get_resource_files
  resource_files-mem root rx entry w compiled shows =
      let (entries, walked, m, f) = shows w in
      let (names, found, exact) =
        find_files_with_regex-exact files root yaml_regexp rx w entries compiled walked in
      (
        get_files_full_path files root names,
        rw found refl,
        get_files_full_path-mem files root entry.name names
            ((exact entry.name).1 (entry, m, f, refl)),
      )

  build-nested :
      (app_name root ns : String) (rest : RestConfig) (rx : T.Regexp) (entry : WalkEntry)
      (w : T.World)
      → files.compile yaml_regexp ≡ value rx
      → Shows root rx entry
      → IsUnreadable files kube (files.join (root ∷ entry.name ∷ []))
      → OnOk (λ _. ⊥) (build_raw_provider files kube app_name root ns rest w).0
  unfolding build_raw_provider
  build-nested app_name root ns rest rx entry w compiled shows unreadable =
      let (paths, found, m) = resource_files-mem root rx entry w compiled shows in
      ground (
        arith,
        found,
        new_unstructured_resources-unreadable files kube (files.join (root ∷ entry.name ∷ [])) paths
            (get_resource_files files kube root w).1 m unreadable,
      )

  -- The walk of the resource path shows, in every state of the world, a file whose base name is that
  -- of a manifest, in whichever folder; and no file of that base name can be read at the root. Then
  -- no raw provider is made.
  pub new_raw_provider-nested :
      (app_name root namespace : String) (rest : RestConfig) (rx : T.Regexp) (entry : WalkEntry)
      (w : T.World) (p : RawProvider T)
      → files.compile yaml_regexp ≡ value rx
      → Shows root rx entry
      → IsUnreadable files kube (files.join (root ∷ entry.name ∷ []))
      → (new_raw_provider files kube app_name root namespace rest w).0 ≢ ok p
  unfolding new_raw_provider
  new_raw_provider-nested app_name root namespace rest rx entry w p compiled shows unreadable made =
      grind (
        arith,
        λ (ns : String) (v : T.World).
            build-nested app_name root ns rest rx entry v compiled shows unreadable,
      )
