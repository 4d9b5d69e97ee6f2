-- ===== src/Raw/Provider/Current.antt =====
-- server/pkg/provider/raw.go, Delivery: the objects that a delivery has named, after it, in a cluster
-- that answers.
pub mod Applied
pub mod Delivered
use dummy_cd.Base.{
  ℕ, String, ◌≡◌, refl, sym, ap, ◌∙◌, subst, ◌⊎◌, inl, inr, Bool, true, false, none, some, Option,
  List, [], ◌∷◌, All, Holds, arith, ◌==◌, eq_refl, eq_iff, Bool-cases, Option-cases, if◌then◌else◌,
}
use dummy_cd.Go.{Returned, value, failed, not_found, Result, Result-cases, ok, Exec, pure, ◌>>=◌}
use dummy_cd.Libs.{Types}
use dummy_cd.Libs.Files.{FilesLibrary}
use dummy_cd.Libs.Cluster.{KubeLibrary, GroupVersionResource, Labels}
use dummy_cd.Raw.Manifest.{Resource, gvr}
use dummy_cd.Raw.Provider.{
  RawState, RawProvider, revision_key, label, set_label, or_empty, revise, apply_resource,
  deliver_resource, deliver_resources, reload, delivery,
}

-- What Get answers for what is stored.
abbrev pub answer_for : {A : Type 0} → Option A → Returned A
answer_for none = failed not_found
answer_for (some o) = value o

-- A cluster that answers every call, in the documented way: Get reads what is stored; Create of a kind
-- that is served stores an object that has the labels of the one that it is given, at its name; an
-- Update that gives the resource version of what is stored does so too, and any other Update does so
-- or leaves what is stored, as after a conflict. The other objects are left.
pub record AnsweringLaws {T : Types} (kube : KubeLibrary T) : Type 0 where
  pub stored : T.World → GroupVersionResource → String → String → Option T.Object
  pub is_served : GroupVersionResource → Bool
  pub get_reads :
      (w : T.World) (k : GroupVersionResource) (ns n : String)
      → (kube.get k ns n w).0 ≡ answer_for (stored w k ns n)
  pub get_keeps :
      (w : T.World) (k k' : GroupVersionResource) (ns n ns' n' : String)
      → stored (kube.get k' ns' n' w).1 k ns n ≡ stored w k ns n
  pub create_stores :
      (w : T.World) (k : GroupVersionResource) (ns : String) (x : T.Object)
      → is_served k ≡ true
      → stored w k ns (kube.get_name x) ≡ none
      → Holds
          (λ y. kube.get_labels y ≡ kube.get_labels x)
          (stored (kube.create k ns x w).1 k ns (kube.get_name x))
  pub create_keeps :
      (w : T.World) (k k' : GroupVersionResource) (ns n ns' : String) (x o : T.Object)
      → stored w k ns n ≡ some o
      → stored (kube.create k' ns' x w).1 k ns n ≡ some o
  pub create_elsewhere :
      (w : T.World) (k k' : GroupVersionResource) (ns n ns' : String) (x : T.Object)
      → (stored (kube.create k' ns' x w).1 k ns n ≡ stored w k ns n)
        ⊎ ((k ≡ k') × (ns ≡ ns') × (n ≡ kube.get_name x))
  pub update_stores :
      (w : T.World) (k : GroupVersionResource) (ns : String) (x o : T.Object)
      → stored w k ns (kube.get_name x) ≡ some o
      → kube.get_resource_version x ≡ kube.get_resource_version o
      → Holds
          (λ y. kube.get_labels y ≡ kube.get_labels x)
          (stored (kube.update k ns x w).1 k ns (kube.get_name x))
  pub update_stores_or_not :
      (w : T.World) (k : GroupVersionResource) (ns : String) (x o : T.Object)
      → stored w k ns (kube.get_name x) ≡ some o
      → let v = (kube.update k ns x w).1 in
        (stored v k ns (kube.get_name x) ≡ stored w k ns (kube.get_name x))
        ⊎ Holds (λ y. kube.get_labels y ≡ kube.get_labels x) (stored v k ns (kube.get_name x))
  pub update_keeps :
      (w : T.World) (k k' : GroupVersionResource) (ns n ns' : String) (x : T.Object)
      → (stored (kube.update k' ns' x w).1 k ns n ≡ stored w k ns n)
        ⊎ ((k ≡ k') × (ns ≡ ns') × (n ≡ kube.get_name x))
  pub labels_name :
      (l : Labels) (x : T.Object) → kube.get_name (kube.set_labels l x) ≡ kube.get_name x
  pub labels_set : (l : Labels) (x : T.Object) → kube.get_labels (kube.set_labels l x) ≡ l
  pub version_set :
      (v : String) (x : T.Object) → kube.get_resource_version (kube.set_resource_version v x) ≡ v
  pub version_name :
      (v : String) (x : T.Object) → kube.get_name (kube.set_resource_version v x) ≡ kube.get_name x
  pub version_labels :
      (v : String) (x : T.Object)
      → kube.get_labels (kube.set_resource_version v x) ≡ kube.get_labels x

-- The object bears the revision, or no revision: such an object is not the server's.
abbrev pub IsCurrent : String → Labels → Type 0
IsCurrent revision ls = (label revision_key ls ≡ some revision) ⊎ (label revision_key ls ≡ none)

-- Of two runs one is taken.
pub either :
    {S A : Type 0} (P : S → Type 0) (b : Bool) (m n : Exec S A) (w : S)
    → (b ≡ true → P (m w).1)
    → P (n w).1
    → P ((if b then m else n) w).1
either P true m n w h k = h refl
either P false m n w h k = k

pub label-set_label : (k v : String) (ls : Labels) → label k (set_label k v ls) ≡ some v
unfolding label set_label
label-set_label k v [] = ground (arith, eq_refl k)
label-set_label k v ((j, u) ∷ rest) =
    ground (arith, eq_iff j k, eq_refl k, label-set_label k v rest)

module _ {T : Types} {kube : KubeLibrary T} (laws : AnsweringLaws kube) (ns revision : String) where
  -- The object at a key of the namespace is there and is current.
  abbrev pub CurrentAt : GroupVersionResource → String → T.World → Type 0
  CurrentAt k n w = Holds (λ x. IsCurrent revision (kube.get_labels x)) (laws.stored w k ns n)
