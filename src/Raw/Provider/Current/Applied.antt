-- ===== src/Raw/Provider/Current/Applied.antt =====
-- server/pkg/provider/raw.go, Resource.Delivery after its Get.
use dummy_cd.Base.{
  true, String, ◌≡◌, refl, sym, ap, ◌∙◌, subst, ◌⊎◌, inl, inr, none, some, Option, Holds, ◌==◌,
  eq_iff, Option-cases, arith,
}
use dummy_cd.Go.{Returned, value, failed, not_found}
use dummy_cd.Libs.{Types}
use dummy_cd.Libs.Files.{FilesLibrary}
use dummy_cd.Libs.Cluster.{KubeLibrary, GroupVersionResource, Labels}
use dummy_cd.Raw.Manifest.{Resource, gvr}
use dummy_cd.Raw.Provider.{revision_key, label, or_empty, revise, apply_resource}
use dummy_cd.Raw.Provider.Current.{answer_for, AnsweringLaws, IsCurrent, either, CurrentAt}

module _ {T : Types} (files : FilesLibrary T) {kube : KubeLibrary T} (laws : AnsweringLaws kube)
    (ns revision : String) (labels : Labels)
    (marked : label revision_key labels ≡ some revision) where
  open laws use {stored}

  -- An object with the labels of the delivery is current.
  labelled-IsCurrent :
      (o : Option T.Object) (x : T.Object)
      → kube.get_labels x ≡ labels
      → Holds (λ y. kube.get_labels y ≡ kube.get_labels x) o
      → Holds (λ y. IsCurrent revision (kube.get_labels y)) o
  labelled-IsCurrent none x e h = h
  labelled-IsCurrent (some y) x e h =
      inl (subst (λ ls. label revision_key ls ≡ some revision) (sym (h ∙ e)) marked)

  module _ (r : Resource T)
      (bears : (kube.get_labels r.obj ≡ labels) × (laws.is_served (gvr r) ≡ true)) where
    abbrev name_of : String
    name_of = kube.get_name r.obj

    -- The object that an Update is given.
    abbrev updated : T.Object → T.Object
    updated remote = kube.set_resource_version (kube.get_resource_version remote) r.obj

    update-current :
        (remote : T.Object) (w : T.World)
        → stored w (gvr r) ns name_of ≡ some remote
        → CurrentAt laws ns revision (gvr r) name_of (kube.update (gvr r) ns (updated remote) w).1
    update-current remote w at =
        let v = kube.get_resource_version remote in
        let named = laws.version_name v r.obj in
        let at' = subst (λ m. stored w (gvr r) ns m ≡ some remote) (sym named) at in
        subst
          (λ m. CurrentAt laws ns revision (gvr r) m (kube.update (gvr r) ns (updated remote) w).1)
          named
          (labelled-IsCurrent _ (updated remote) (laws.version_labels v r.obj ∙ bears.0) (
            laws.update_stores w (gvr r) ns (updated remote) remote at' (laws.version_set v r.obj)))

    -- An update of an object that is there leaves what is stored at a key, or stores a current object.
    update-changes :
        (k : GroupVersionResource) (n : String) (remote there : T.Object) (w : T.World)
        → stored w (gvr r) ns name_of ≡ some there
        → let v = (kube.update (gvr r) ns (updated remote) w).1 in
          (stored v k ns n ≡ stored w k ns n) ⊎ CurrentAt laws ns revision k n v
    update-changes k n remote there w at =
        let v = kube.get_resource_version remote in
        let after = (kube.update (gvr r) ns (updated remote) w).1 in
        elim (laws.update_keeps w k (gvr r) ns n ns (updated remote)) [
          | inl same ↦ inl same
          | inr (kind, _, name) ↦
              let named = laws.version_name v r.obj in
              let at' = subst (λ m. stored w (gvr r) ns m ≡ some there) (sym named) at in
              elim (laws.update_stores_or_not w (gvr r) ns (updated remote) there at') [
                | inl same ↦ inl (
                    ap (λ k'. stored after k' ns n) kind
                    ∙ ap (stored after (gvr r) ns) name
                    ∙ same
                    ∙ sym (ap (stored w (gvr r) ns) name)
                    ∙ sym (ap (λ k'. stored w k' ns n) kind))
                | inr now ↦ inr (
                    subst (λ k'. CurrentAt laws ns revision k' n after) (sym kind)
                      (subst (λ m. CurrentAt laws ns revision (gvr r) m after) (sym name)
                        (labelled-IsCurrent _ (updated remote)
                          (laws.version_labels v r.obj ∙ bears.0) now)))
              ]
        ]

    create-changes :
        (k : GroupVersionResource) (n : String) (w : T.World)
        → let v = (kube.create (gvr r) ns r.obj w).1 in
          (stored v k ns n ≡ stored w k ns n) ⊎ CurrentAt laws ns revision k n v
    create-changes k n w =
        let x = r.obj in
        let after = (kube.create (gvr r) ns x w).1 in
        elim (laws.create_elsewhere w k (gvr r) ns n ns x) [
          | inl same ↦ inl same
          | inr (kind, _, name) ↦ elim (Option-cases (stored w (gvr r) ns name_of)) [
            | inl absent ↦ inr (
                subst (λ k'. CurrentAt laws ns revision k' n after) (sym kind)
                  (subst (λ m. CurrentAt laws ns revision (gvr r) m after) (sym name)
                    (labelled-IsCurrent _ x bears.0
                      (laws.create_stores w (gvr r) ns x bears.1 absent))))
            | inr (o, there) ↦
                let here : stored w k ns n ≡ some o =
                  ap (λ k'. stored w k' ns n) kind ∙ ap (stored w (gvr r) ns) name ∙ there in
                inl (laws.create_keeps w k (gvr r) ns n ns x o here ∙ sym here)
          ]
        ]

    revise-current :
        (remote : T.Object) (l : Option String) (w : T.World)
        → label revision_key (kube.get_labels remote) ≡ l
        → stored w (gvr r) ns name_of ≡ some remote
        → CurrentAt laws ns revision (gvr r) name_of (revise files kube ns labels r remote l w).1
    unfolding revise
    revise-current remote none w e at = rw at (inr e)
    revise-current remote (some rev) w e at =
        let asked = ap or_empty marked in
        either (CurrentAt laws ns revision (gvr r) name_of)
          (or_empty (label revision_key labels) == rev) _ _ w
          (λ same. subst (Holds (λ x. IsCurrent revision (kube.get_labels x))) (sym at) (
            inl (
              e
              ∙ ap some
                  (sym ((eq_iff (or_empty (label revision_key labels)) rev).0 same) ∙ asked))))
          (update-current remote w at)

    pub apply-current :
        (o : Option T.Object) (w : T.World)
        → stored w (gvr r) ns name_of ≡ o
        → CurrentAt laws ns revision
            (gvr r)
            name_of
            (apply_resource files kube ns labels r (answer_for o) w).1
    unfolding apply_resource
    apply-current none w at =
        labelled-IsCurrent _ r.obj bears.0 (laws.create_stores w (gvr r) ns r.obj bears.1 at)
    apply-current (some remote) w at = revise-current remote _ w refl at

    -- What Get has answered is what is stored, or what is stored is current by now.
    abbrev pub IsFresh : Returned T.Object → T.World → Type 0
    IsFresh g w =
        (g ≡ answer_for (stored w (gvr r) ns name_of))
        ⊎ CurrentAt laws ns revision (gvr r) name_of w

    is_there :
        (remote : T.Object) (w : T.World)
        → IsFresh (value remote) w
        → (x : T.Object) × (stored w (gvr r) ns name_of ≡ some x)
    is_there remote w fresh = elim (Option-cases (stored w (gvr r) ns name_of)) [
      | inr (x, e) ↦ (x, e)
      | inl gone ↦ elim fresh [
        | inl e ↦ absurd (let never = e ∙ ap answer_for gone in cc)
        | inr h ↦ absurd (subst (Holds (λ x. IsCurrent revision (kube.get_labels x))) gone h)
      ]
    ]

    -- The object at a key is as before, or it is current.
    abbrev Changes : GroupVersionResource → String → T.World → T.World → Type 0
    Changes k n w v = (stored v k ns n ≡ stored w k ns n) ⊎ CurrentAt laws ns revision k n v

    revise-Changes :
        (k : GroupVersionResource) (n : String) (remote there : T.Object) (l : Option String)
        (w : T.World)
        → stored w (gvr r) ns name_of ≡ some there
        → Changes k n w (revise files kube ns labels r remote l w).1
    unfolding revise
    revise-Changes k n remote there none w at = inl refl
    revise-Changes k n remote there (some rev) w at =
        either (Changes k n w) (or_empty (label revision_key labels) == rev) _ _ w
          (λ same. inl refl) (update-changes k n remote there w at)

    pub apply-Changes :
        (k : GroupVersionResource) (n : String) (g : Returned T.Object) (w : T.World)
        → IsFresh g w
        → Changes k n w (apply_resource files kube ns labels r g w).1
    unfolding apply_resource
    apply-Changes k n (failed not_found) w fresh = create-changes k n w
    apply-Changes k n (failed e) w fresh = ground arith
    apply-Changes k n (value remote) w fresh =
        let (there, at) = is_there remote w fresh in revise-Changes k n remote there _ w at

    -- What is current at any key stays so.
    pub apply-keeps :
        (k : GroupVersionResource) (n : String) (g : Returned T.Object) (w : T.World)
        → IsFresh g w
        → CurrentAt laws ns revision k n w
        → CurrentAt laws ns revision k n (apply_resource files kube ns labels r g w).1
    apply-keeps k n g w fresh h = elim (apply-Changes k n g w fresh) [
      | inl same ↦ subst (Holds (λ x. IsCurrent revision (kube.get_labels x))) (sym same) h
      | inr now ↦ now
    ]

    -- The object of the resource is current after it.
    pub apply-fresh :
        (g : Returned T.Object) (w : T.World)
        → IsFresh g w
        → CurrentAt laws ns revision (gvr r) name_of (apply_resource files kube ns labels r g w).1
    apply-fresh g w (inl e) =
        subst
          (λ a.
            CurrentAt laws ns revision (gvr r) name_of
              (apply_resource files kube ns labels r a w).1)
          (sym e) (apply-current _ w refl)
    apply-fresh g w (inr h) = apply-keeps (gvr r) name_of g w (inr h) h
