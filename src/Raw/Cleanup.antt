-- ===== src/Raw/Cleanup.antt =====
-- server/pkg/provider/raw.go, cleanResources and Uninstall. The goroutines of one cleanup run one
-- after another, and the cleanup ends with the last of them; Pool has their other orders.
pub mod Protocol
pub mod Pool
use dummy_cd.Base.{String, Bool, true, false, List, [], ◌∷◌, if◌then◌else◌}
use dummy_cd.Go.{
  Returned, value, failed, Exec, Hash, pure, gets, check, call, must, lock, deferred, is_zero,
  ◌>>=◌, ◌>>◌,
}
use dummy_cd.Libs.{Types}
use dummy_cd.Libs.Cluster.{
  KubeLibrary, GroupVersionResource, ApiGroup, Requirement, equals, not_equals,
}
use dummy_cd.Raw.Provider.{RawState, on_world, app_key, revision_key}

abbrev pub app_requirement : String → Requirement
app_requirement name = record { key = app_key; operator = equals; wanted = name }

abbrev pub revision_requirement : String → Requirement
revision_requirement revision = record {
  key = revision_key;
  operator = not_equals;
  wanted = revision;
}

abbrev pub set_cleaning : {T : Types} → Bool → RawState T → RawState T
set_cleaning b s = record s { provider = record (s.provider) { cleaning = b } }

module _ {T : Types} (kube : KubeLibrary T) where
  -- The selector of the cleanup: the application's objects, all or those of other revisions.
  unfoldable pub new_selector : Bool → String → String → Exec T.World (List Requirement)
  new_selector clean_all app_name revision = do
    check (kube.new_requirement (app_requirement app_name))
    if clean_all then pure (app_requirement app_name ∷ []) else do
      check (kube.new_requirement (revision_requirement revision))
      pure (app_requirement app_name ∷ revision_requirement revision ∷ [])

  module _ (ns : String) (selector : List Requirement) where
    -- A failed deletion is logged and goes no further.
    unfoldable pub delete_items : GroupVersionResource → List T.Object → Exec T.World (Unit {0})
    delete_items kind [] = pure tt
    delete_items kind (item ∷ rest) = do
      call (kube.delete kind ns (kube.get_name item))
      delete_items kind rest

    unfoldable pub clean_listed :
        GroupVersionResource → Returned (List T.Object) → Exec T.World (Unit {0})
    unfolding delete_items
    clean_listed kind (failed e) = pure tt
    clean_listed kind (value items) = delete_items kind items

    unfoldable pub clean_kind : GroupVersionResource → Exec T.World (Unit {0})
    unfolding clean_listed
    clean_kind kind = do listed ← call (kube.list kind ns selector); clean_listed kind listed

    unfoldable pub clean_kinds : String → String → List String → Exec T.World (Unit {0})
    unfolding clean_kind
    clean_kinds group version [] = pure tt
    clean_kinds group version (name ∷ rest) = do
      clean_kind (record { group = group; version = version; resource = name })
      clean_kinds group version rest

    -- A version whose resources cannot be listed is passed over.
    unfoldable pub clean_version :
        String → String → Returned (List String) → Exec T.World (Unit {0})
    unfolding clean_kinds
    clean_version group version (failed e) = pure tt
    clean_version group version (value names) = clean_kinds group version names

    unfoldable pub clean_versions : String → List (String × String) → Exec T.World (Unit {0})
    unfolding clean_version
    clean_versions group [] = pure tt
    clean_versions group ((group_version, version) ∷ rest) = do
      names ← call (kube.server_resources group_version)
      clean_version group version names
      clean_versions group rest

    unfoldable pub clean_groups : List ApiGroup → Exec T.World (Unit {0})
    unfolding clean_versions
    clean_groups [] = pure tt
    clean_groups (g ∷ rest) = do clean_versions g.name g.versions; clean_groups rest

  -- cleanResources, but for the mutex.
  unfoldable pub clean_world : Bool → String → String → Hash → String → Exec T.World (Unit {0})
  unfolding new_selector clean_groups
  clean_world clean_all app_name ns revision text = if is_zero revision then pure tt else do
    groups ← must kube.server_groups
    selector ← new_selector clean_all app_name text
    clean_groups ns selector groups

  unfoldable pub clean_resources : Bool → Hash → String → Exec (RawState T) (Unit {0})
  unfolding clean_world
  clean_resources clean_all revision text = deferred (set_cleaning false) do
    p ← gets (λ s. s.provider)
    on_world (clean_world clean_all p.app_name p.namespace revision text)

  -- Uninstall waits for a cleanup that is under way.
  unfoldable pub uninstall : Hash → String → Exec (RawState T) (Unit {0})
  unfolding clean_resources
  uninstall revision text = do
    lock (λ s. s.provider.cleaning) set_cleaning
    clean_resources true revision text

  -- A cleanup that Delivery has started, to its end; its error is logged. As everywhere in this file
  -- the goroutines end before the loop returns and frees the mutex, which is one of their orders; in
  -- the orders of Pool the loop may return before them.
  unfoldable pub finish_cleanup : Hash → String → RawState T → RawState T
  unfolding clean_resources
  finish_cleanup revision text s =
      if s.provider.cleaning then (clean_resources false revision text s).1 else s
