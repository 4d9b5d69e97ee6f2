-- ===== src/Raw/Provider/Foreign.antt =====
-- server/pkg/provider/raw.go, Delivery: objects of the cluster that the server did not make.
use dummy_cd.Base.{String, ◌≡◌, refl, ◌∙◌, ◌⊎◌, inl, inr, none, some, Option, List, [], ◌∷◌, arith}
use dummy_cd.Go.{
  Returned, value, failed, not_found, Result, Result-cases, ok, err, panic, blocked, continue, pure,
  ◌>>=◌,
}
use dummy_cd.Libs.{Types}
use dummy_cd.Libs.Files.{FilesLibrary}
use dummy_cd.Libs.Cluster.{KubeLibrary, GroupVersionResource, Labels}
use dummy_cd.Util.{read_file, find_files_with_regex}
use dummy_cd.Raw.Manifest.{Resource, gvr, new_unstructured_resource, new_unstructured_resources}
use dummy_cd.Raw.Provider.{
  RawState, RawProvider, revision_key, label, revise, apply_resource, deliver_resource,
  deliver_resources, get_resource_files, reload, delivery,
}

-- The documented behaviour of the cluster: `stored` is the object of a kind, a namespace and a name.
-- Get reads it, Create leaves the objects that exist, Update the ones that it does not name. Files
-- are not objects of the cluster.
pub record KubeLaws {T : Types} (files : FilesLibrary T) (kube : KubeLibrary T) : Type 0 where
  pub stored : T.World → GroupVersionResource → String → String → Option T.Object
  pub get_reads :
      (w : T.World) (k : GroupVersionResource) (ns n : String) {o : T.Object}
      → (kube.get k ns n w).0 ≡ value o
      → stored w k ns n ≡ some o
  pub get_keeps :
      (w : T.World) (k k' : GroupVersionResource) (ns n ns' n' : String)
      → stored (kube.get k' ns' n' w).1 k ns n ≡ stored w k ns n
  pub create_keeps :
      (w : T.World) (k k' : GroupVersionResource) (ns n ns' : String) (x o : T.Object)
      → stored w k ns n ≡ some o
      → stored (kube.create k' ns' x w).1 k ns n ≡ some o
  pub update_keeps :
      (w : T.World) (k k' : GroupVersionResource) (ns n ns' : String) (x : T.Object)
      → (stored (kube.update k' ns' x w).1 k ns n ≡ stored w k ns n)
        ⊎ ((k ≡ k') × (ns ≡ ns') × (n ≡ kube.get_name x))
  pub labels_name :
      (l : Labels) (x : T.Object) → kube.get_name (kube.set_labels l x) ≡ kube.get_name x
  pub version_name :
      (v : String) (x : T.Object) → kube.get_name (kube.set_resource_version v x) ≡ kube.get_name x
  pub read_keeps :
      (w : T.World) (k : GroupVersionResource) (ns n p : String)
      → stored (files.read_file p w).1 k ns n ≡ stored w k ns n
  pub walk_keeps :
      (w : T.World) (k : GroupVersionResource) (ns n p : String)
      → stored (files.walk p w).1 k ns n ≡ stored w k ns n

module _ {T : Types} {files : FilesLibrary T} {kube : KubeLibrary T} (laws : KubeLaws files kube)
    (k : GroupVersionResource) (ns n : String) where
  open laws use {stored}

  -- The object at the key, in a state of the world.
  abbrev pub At : T.World → T.Object → Type 0
  At w o = stored w k ns n ≡ some o

  module _ (o : T.Object) (unlabelled : label revision_key (kube.get_labels o) ≡ none) where
    -- What Get has found at the object's key is the object, which has no label.
    found-unlabelled :
        (r : Resource T) (ns' name : String) (remote : T.Object) (w : T.World)
        → stored w (gvr r) ns' name ≡ some remote
        → At w o
        → (k ≡ gvr r) × (ns ≡ ns') × (n ≡ name)
        → label revision_key (kube.get_labels remote) ≡ none
    found-unlabelled r ns' name remote w read at (same_k, same_ns, same_n) =
        let here : stored w k ns n ≡ some remote = rw (same_k, same_ns, same_n) read in
        let same : remote ≡ o = cc in rw same unlabelled

    -- What Get has found, if it is the object at the key, has no label.
    abbrev pub Harmless : Resource T → String → Returned T.Object → Type 0
    Harmless r ns' g =
        (remote : T.Object)
        → g ≡ value remote
        → (k ≡ gvr r) × (ns ≡ ns') × (n ≡ kube.get_name r.obj)
        → label revision_key (kube.get_labels remote) ≡ none

    revise-foreign :
        (ns' : String) (labels : Labels) (r : Resource T) (remote : T.Object) (l : Option String)
        (w : T.World)
        → label revision_key (kube.get_labels remote) ≡ l
        → Harmless r ns' (value remote)
        → At w o
        → At (revise files kube ns' labels r remote l w).1 o
    unfolding revise
    revise-foreign ns' labels r remote none w bears harmless at = at
    revise-foreign ns' labels r remote (some rev) w bears harmless at =
        let x = kube.set_resource_version (kube.get_resource_version remote) r.obj in
        let named = laws.version_name (kube.get_resource_version remote) r.obj in
        elim (laws.update_keeps w k (gvr r) ns n ns' x) [
          | inl kept ↦ ground arith
          | inr (same_k, same_ns, same_n) ↦
              ground (arith, harmless remote refl (same_k, same_ns, same_n ∙ named))
        ]

    pub apply-foreign :
        (ns' : String) (labels : Labels) (r : Resource T) (g : Returned T.Object) (w : T.World)
        → Harmless r ns' g
        → At w o
        → At (apply_resource files kube ns' labels r g w).1 o
    unfolding apply_resource
    apply-foreign ns' labels r (failed not_found) w harmless at =
        laws.create_keeps w k (gvr r) ns n ns' r.obj o at
    apply-foreign ns' labels r (failed e) w harmless at = ground arith
    apply-foreign ns' labels r (value remote) w harmless at =
        revise-foreign ns' labels r remote _ w refl harmless at

    -- What is read is harmless.
    pub read-Harmless :
        (labels : Labels) (ns' : String) (r : Resource T) (w : T.World)
        → At w o
        → Harmless
            (record r { obj = kube.set_labels labels r.obj })
            ns'
            (kube.get (gvr r) ns' (kube.get_name r.obj) w).0
    read-Harmless labels ns' r w at remote e (same_k, same_ns, same_n) =
        let name = kube.get_name r.obj in
        found-unlabelled r ns' name remote w (laws.get_reads w (gvr r) ns' name e) at
          (same_k, same_ns, same_n ∙ laws.labels_name labels r.obj)

    deliver_resource-foreign :
        (ns' : String) (labels : Labels) (r : Resource T) (w : T.World)
        → At w o
        → At (deliver_resource files kube ns' labels r w).1 o
    unfolding deliver_resource
    deliver_resource-foreign ns' labels r w at =
        let name = kube.get_name r.obj in
        let got = kube.get (gvr r) ns' name w in
        let labelled : Resource T = record r { obj = kube.set_labels labels r.obj } in
        apply-foreign ns' labels labelled got.0 got.1 (read-Harmless labels ns' r w at)
          (laws.get_keeps w k (gvr r) ns n ns' name ∙ at)

    -- The first resource has been delivered, and the others are.
    then-foreign :
        (ns' : String) (labels : Labels) (first : Result (Resource T)) (rest : List (Resource T))
        (w : T.World)
        → At w o
        → At (deliver_resources files kube ns' labels rest w).1 o
        → At
            (continue first
              (λ r'. deliver_resources files kube ns' labels rest >>= λ rest'. pure (r' ∷ rest'))
              w).1
            o
    then-foreign ns' labels (ok r') rest w at after =
        elim (Result-cases (deliver_resources files kube ns' labels rest w).0) [
          | inl (rs, e) ↦ rw e after
          | inr (inl (x, e)) ↦ rw e after
          | inr (inr (inl e)) ↦ rw e after
          | inr (inr (inr e)) ↦ rw e after
        ]
    then-foreign ns' labels (err e) rest w at after = at
    then-foreign ns' labels panic rest w at after = at
    then-foreign ns' labels blocked rest w at after = at

    deliver_resources-foreign :
        (ns' : String) (labels : Labels) (rs : List (Resource T)) (w : T.World)
        → At w o
        → At (deliver_resources files kube ns' labels rs w).1 o
    unfolding deliver_resources
    deliver_resources-foreign ns' labels [] w at = at
    deliver_resources-foreign ns' labels (r ∷ rest) w at =
        let first = deliver_resource files kube ns' labels r w in
        let here = deliver_resource-foreign ns' labels r w at in
        then-foreign ns' labels first.0 rest first.1 here
          (deliver_resources-foreign ns' labels rest first.1 here)

  -- The files are read with no change of the object at the key.
  resource-keeps :
      (path : String) (w : T.World)
      → stored (new_unstructured_resource files kube path w).1 k ns n ≡ stored w k ns n
  unfolding new_unstructured_resource read_file
  resource-keeps path w = grind (arith, laws.read_keeps w k ns n path)

  resources-keeps :
      (paths : List String) (w : T.World)
      → stored (new_unstructured_resources files kube paths w).1 k ns n ≡ stored w k ns n
  unfolding new_unstructured_resources
  resources-keeps [] w = refl
  resources-keeps (p ∷ ps) w =
      grind
        (arith, resource-keeps p w, resources-keeps ps (new_unstructured_resource files kube p w).1)

  resource_files-keeps :
      (root : String) (w : T.World)
      → stored (get_resource_files files kube root w).1 k ns n ≡ stored w k ns n
  unfolding get_resource_files find_files_with_regex
  resource_files-keeps root w = grind (arith, laws.walk_keeps w k ns n root)

  reload-keeps :
      (p : RawProvider T) (w : T.World) → stored (reload files kube p w).1 k ns n ≡ stored w k ns n
  unfolding reload
  reload-keeps p w = grind (arith, resource_files-keeps p.resource_path w, resources-keeps)

  -- With a cluster as KubeLaws says: an object that has no revision label is as it was after a
  -- delivery, whatever the delivered manifests name and however the delivery ends.
  pub delivery-foreign :
      (s : RawState T) (rev : String) (o : T.Object)
      → stored s.world k ns n ≡ some o
      → label revision_key (kube.get_labels o) ≡ none
      → stored (delivery files kube rev s).1.world k ns n ≡ some o
  unfolding delivery
  delivery-foreign s rev o at unlabelled =
      let r = reload files kube s.provider s.world in
      grind (
        arith,
        reload-keeps s.provider s.world,
        λ (ns' : String) (labels : Labels) (rs : List (Resource T)).
            deliver_resources-foreign o unlabelled ns' labels rs r.1,
      )
