-- ===== src/Raw/Provider/Current/Delivered.antt =====
-- server/pkg/provider/raw.go, RawProvider.Delivery: what it leaves of each of its resources.
use dummy_cd.Base.{
  true, String, ◌≡◌, refl, sym, ap, ◌∙◌, subst, inl, inr, some, List, [], ◌∷◌, All, Holds, arith,
}
use dummy_cd.Go.{Result, Result-cases, ok}
use dummy_cd.Libs.{Types}
use dummy_cd.Libs.Files.{FilesLibrary}
use dummy_cd.Libs.Cluster.{KubeLibrary, GroupVersionResource, Labels}
use dummy_cd.Raw.Manifest.{Resource, gvr}
use dummy_cd.Raw.Provider.{
  RawState, revision_key, label, set_label, revise, apply_resource, deliver_resource,
  deliver_resources, reload, delivery,
}
use dummy_cd.Raw.Provider.Current.{answer_for, AnsweringLaws, IsCurrent, label-set_label, CurrentAt}
use dummy_cd.Raw.Provider.Current.Applied.{apply-current, apply-keeps}

module _ {T : Types} (files : FilesLibrary T) {kube : KubeLibrary T} (laws : AnsweringLaws kube)
    (ns revision : String) (labels : Labels)
    (marked : label revision_key labels ≡ some revision) where
  open laws use {stored}

  -- One resource, by its own name; its labels are set.
  abbrev labelled : Resource T → Resource T
  labelled r = record r { obj = kube.set_labels labels r.obj }

  -- What Get reads of the resource is what is stored at the name of its labelled object.
  pub read-labelled :
      (r : Resource T) (w : T.World)
      → stored
          (kube.get (gvr r) ns (kube.get_name r.obj) w).1
          (gvr r)
          ns
          (kube.get_name (kube.set_labels labels r.obj))
        ≡ stored w (gvr r) ns (kube.get_name r.obj)
  read-labelled r w =
      let n = kube.get_name r.obj in
      ap (λ m. stored (kube.get (gvr r) ns n w).1 (gvr r) ns m) (laws.labels_name labels r.obj)
      ∙ laws.get_keeps w (gvr r) (gvr r) ns n ns n

  -- A resource's delivery is its application to what is stored.
  deliver_resource-applies :
      (r : Resource T) (w : T.World)
      → let n = kube.get_name r.obj in
        deliver_resource files kube ns labels r w
        ≡ apply_resource files kube ns labels
            (labelled r)
            (answer_for (stored w (gvr r) ns n))
            (kube.get (gvr r) ns n w).1
  unfolding deliver_resource
  deliver_resource-applies r w =
      let n = kube.get_name r.obj in
      ap (λ g. apply_resource files kube ns labels (labelled r) g (kube.get (gvr r) ns n w).1)
        (laws.get_reads w (gvr r) ns n)

  deliver_resource-current :
      (r : Resource T) (w : T.World)
      → laws.is_served (gvr r) ≡ true
      → CurrentAt laws ns revision
          (gvr r)
          (kube.get_name r.obj)
          (deliver_resource files kube ns labels r w).1
  deliver_resource-current r w served =
      let n = kube.get_name r.obj in
      let v = (kube.get (gvr r) ns n w).1 in
      subst (λ (done : Result (Resource T) × T.World). CurrentAt laws ns revision (gvr r) n done.1)
        (sym (deliver_resource-applies r w))
        (subst
          (λ m.
            CurrentAt laws ns revision (gvr r) m
              (apply_resource files kube ns labels (labelled r) (answer_for (stored w (gvr r) ns n))
                v).1)
          (laws.labels_name labels r.obj)
          (apply-current files laws ns revision labels marked (labelled r)
            (laws.labels_set labels r.obj, served) _ v (read-labelled r w)))

  deliver_resource-keeps :
      (r : Resource T) (k : GroupVersionResource) (n : String) (w : T.World)
      → laws.is_served (gvr r) ≡ true
      → CurrentAt laws ns revision k n w
      → CurrentAt laws ns revision k n (deliver_resource files kube ns labels r w).1
  deliver_resource-keeps r k n w served h =
      let m = kube.get_name r.obj in
      let v = (kube.get (gvr r) ns m w).1 in
      subst (λ (done : Result (Resource T) × T.World). CurrentAt laws ns revision k n done.1)
        (sym (deliver_resource-applies r w))
        (apply-keeps files laws ns revision labels marked (labelled r)
          (laws.labels_set labels r.obj, served) k n _ v
          (inl (ap answer_for (sym (read-labelled r w))))
          (subst (Holds (λ x. IsCurrent revision (kube.get_labels x)))
            (sym (laws.get_keeps w k (gvr r) ns n ns m)) h))

  deliver_resource-ok :
      (r : Resource T) (w : T.World)
      → (x : Resource T) × ((deliver_resource files kube ns labels r w).0 ≡ ok x)
  unfolding deliver_resource apply_resource revise
  deliver_resource-ok r w = elim (Result-cases (deliver_resource files kube ns labels r w).0) [
    | inl done ↦ done
    | inr (inl (e, h)) ↦ absurd (ground arith)
    | inr (inr (inl h)) ↦ absurd (ground arith)
    | inr (inr (inr h)) ↦ absurd (ground arith)
  ]

  deliver_resources-ok :
      (rs : List (Resource T)) (w : T.World)
      → (xs : List (Resource T)) × ((deliver_resources files kube ns labels rs w).0 ≡ ok xs)
  unfolding deliver_resources
  deliver_resources-ok [] w = ([], refl)
  deliver_resources-ok (r ∷ rest) w =
      let (x, e) = deliver_resource-ok r w in
      let (xs, f) = deliver_resources-ok rest (deliver_resource files kube ns labels r w).1 in
      (x ∷ xs, ground arith)

  deliver_resources-then :
      (r : Resource T) (rest : List (Resource T)) (w : T.World)
      → (deliver_resources files kube ns labels (r ∷ rest) w).1
        ≡ (deliver_resources files kube ns labels rest
            (deliver_resource files kube ns labels r w).1).1
  unfolding deliver_resources
  deliver_resources-then r rest w =
      let (x, e) = deliver_resource-ok r w in
      let (xs, f) = deliver_resources-ok rest (deliver_resource files kube ns labels r w).1 in
      ground arith

  -- The cluster serves the kind of each resource.
  abbrev AllServed : List (Resource T) → Type 0
  AllServed rs = All (λ r. laws.is_served (gvr r) ≡ true) rs

  deliver_resources-keeps :
      (rs : List (Resource T)) (k : GroupVersionResource) (n : String) (w : T.World)
      → AllServed rs
      → CurrentAt laws ns revision k n w
      → CurrentAt laws ns revision k n (deliver_resources files kube ns labels rs w).1
  unfolding deliver_resources
  deliver_resources-keeps [] k n w served h = h
  deliver_resources-keeps (r ∷ rest) k n w (one, served) h =
      subst (CurrentAt laws ns revision k n) (sym (deliver_resources-then r rest w))
        (deliver_resources-keeps rest k n _ served (deliver_resource-keeps r k n w one h))

  deliver_resources-current :
      (rs : List (Resource T)) (w : T.World)
      → AllServed rs
      → All
          (λ r.
            CurrentAt laws ns revision
              (gvr r)
              (kube.get_name r.obj)
              (deliver_resources files kube ns labels rs w).1)
          rs
  deliver_resources-current [] w served = tt
  deliver_resources-current (r ∷ rest) w (one, served) =
      let v = (deliver_resource files kube ns labels r w).1 in
      subst (λ u. All (λ x. CurrentAt laws ns revision (gvr x) (kube.get_name x.obj) u) (r ∷ rest))
        (sym (deliver_resources-then r rest w))
        (
          deliver_resources-keeps rest (gvr r) (kube.get_name r.obj) v served
              (deliver_resource-current r w one),
          deliver_resources-current rest v served,
        )

module _ {T : Types} (files : FilesLibrary T) {kube : KubeLibrary T}
    (laws : AnsweringLaws kube) where
  -- The world of a delivery is that of its resources' deliveries.
  delivery-world :
      (s : RawState T) (revision : String) (rs : List (Resource T))
      → (reload files kube s.provider s.world).0 ≡ ok rs
      → (delivery files kube revision s).1.world
        ≡ (deliver_resources files kube s.provider.namespace
            (set_label revision_key revision s.provider.labels)
            rs
            (reload files kube s.provider s.world).1).1
  unfolding delivery
  delivery-world s revision rs read =
      let labels = set_label revision_key revision s.provider.labels in
      let marked = label-set_label revision_key revision s.provider.labels in
      let (xs, e) =
        deliver_resources-ok files laws s.provider.namespace revision labels marked rs
          (reload files kube s.provider s.world).1 in
      ground arith

  -- With a cluster that answers every call as AnsweringLaws says, and serves the kind of each resource
  -- that a delivery reads from the manifests: after the delivery there is, for each, an object of the resource's kind and name, which bears
  -- the revision, or which bears none and so is not the server's.
  pub delivery-IsCurrent :
      (s : RawState T) (revision : String) (rs : List (Resource T))
      → (reload files kube s.provider s.world).0 ≡ ok rs
      → All (λ r. laws.is_served (gvr r) ≡ true) rs
      → let t = (delivery files kube revision s).1 in
        All
          (λ r.
            Holds
              (λ x. IsCurrent revision (kube.get_labels x))
              (laws.stored t.world (gvr r) s.provider.namespace (kube.get_name r.obj)))
          rs
  delivery-IsCurrent s revision rs read served =
      let labels = set_label revision_key revision s.provider.labels in
      let ns = s.provider.namespace in
      subst
        (λ w.
          All
            (λ r.
              Holds (λ x. IsCurrent revision (kube.get_labels x))
                (laws.stored w (gvr r) ns (kube.get_name r.obj)))
            rs)
        (sym (delivery-world s revision rs read))
        (deliver_resources-current files laws ns revision labels
          (label-set_label revision_key revision s.provider.labels) rs
          (reload files kube s.provider s.world).1 served)
