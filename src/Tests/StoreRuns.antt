-- ===== src/Tests/StoreRuns.antt =====
-- A cluster that stores objects with their labels, for runs of a raw delivery.
use dummy_cd.Raw.Provider.{deliver_resources, deliver_resource}
use dummy_cd.Raw.Provider.Together.Sequential.{deliver_resources-runs}
use dummy_cd.Base.{
  ◌≡◌, refl, sym, ap, ◌∙◌, subst, ◌⊎◌, inl, inr, String, Bool, true, false, ◌&&◌, Option, none,
  some, [], ◌∷◌, All, Holds, arith, ◌==◌, eq_iff, eq_refl, if◌then◌else◌, is_some, Bool-cases,
}
use dummy_cd.Go.{value, failed, not_found, other}
use dummy_cd.Libs.{Types}
use dummy_cd.Libs.Files.{FilesLibrary}
use dummy_cd.Libs.Cluster.{KubeLibrary, GroupVersionResource, Labels}
use dummy_cd.Raw.Manifest.{Resource, gvr}
use dummy_cd.Raw.Provider.{RawState, label, revision_key, apply_resource, revise, delivery, reload}
use dummy_cd.Raw.Provider.Current.{answer_for, AnsweringLaws, IsCurrent}
use dummy_cd.Raw.Provider.Current.Delivered.{delivery-IsCurrent}
use dummy_cd.Raw.Provider.Together.{
  Stage, to_get, to_apply, applied, Job, Pool, started, gets, applies, Reach, here, next,
}
use dummy_cd.Raw.Provider.Together.Current.{Reach-IsCurrent}
use dummy_cd.Tests.Toy.{toy, toy_rest}

-- An object of the cluster, as far as a delivery reads it.
record Labelled : Type 0 where
  name : String
  labels : Labels
  version : String

abbrev Store : Type 0
Store = GroupVersionResource → String → String → Option Labelled

abbrev keeping : Types
keeping = record toy { World = Store; Object = Labelled }

abbrev no_files : FilesLibrary keeping
no_files = record {
  user_home_dir = value "/root";
  join = λ parts. "";
  read_file = λ p w. (failed not_found, w);
  open_file = λ p w. (value tt, w);
  write = λ f b w. (value 1, w);
  close = λ f w. w;
  mkdir_all = λ p w. (value tt, w);
  remove_all = λ p w. (value tt, w);
  compile = λ r. value tt;
  match_string = λ rx s. false;
  walk = λ root w. (value [], w);
}

abbrev same_key : GroupVersionResource → GroupVersionResource → Bool
same_key k k' = k.group == k'.group && (k.version == k'.version && k.resource == k'.resource)

abbrev at_place :
    GroupVersionResource → String → String → GroupVersionResource → String → String → Bool
at_place k ns n k' ns' n' = same_key k k' && (ns == ns' && n == n')

at_place-eq :
    (k k' : GroupVersionResource) (ns ns' n n' : String)
    → at_place k ns n k' ns' n' ≡ true
    → (k ≡ k') × (ns ≡ ns') × (n ≡ n')
at_place-eq k k' ns ns' n n' h = ground (
  arith,
  eq_iff k.group k'.group,
  eq_iff k.version k'.version,
  eq_iff k.resource k'.resource,
  eq_iff ns ns',
  eq_iff n n',
)

at_place_refl : (k : GroupVersionResource) (ns n : String) → at_place k ns n k ns n ≡ true
at_place_refl k ns n =
    ground (arith, eq_refl k.group, eq_refl k.version, eq_refl k.resource, eq_refl ns, eq_refl n)

abbrev put : GroupVersionResource → String → Labelled → Store → Store
put k ns x w k' ns' n' = if at_place k' ns' n' k ns x.name then some x else w k' ns' n'

abbrev create_in : GroupVersionResource → String → Labelled → Store → Store
create_in k ns x w = if is_some (w k ns x.name) then w else put k ns x w

-- The resource version of what is stored.
abbrev version_of : Option Labelled → String
version_of none = ""
version_of (some o) = o.version

-- An update that gives another resource version than the stored one does nothing.
abbrev update_in : GroupVersionResource → String → Labelled → Store → Store
update_in k ns x w = if version_of (w k ns x.name) == x.version then put k ns x w else w

abbrev served_here : GroupVersionResource → Bool
served_here k = k.resource == "deployments"

abbrev storing : KubeLibrary keeping
storing = record {
  new_client_set = λ r. value tt;
  new_dynamic_client = λ r. value tt;
  get_namespace = λ n w. (value tt, w);
  create_namespace = λ n w. (value tt, w);
  get_ssh_key = λ n s w. (value [], w);
  server_groups = λ w. (value [], w);
  server_resources = λ g w. (value [], w);
  get = λ k ns n w. (answer_for (w k ns n), w);
  create = λ k ns x w. (value tt, create_in k ns x w);
  update = λ k ns x w. (value tt, update_in k ns x w);
  delete = λ k ns n w. (value tt, w);
  list = λ k ns s w. (value [], w);
  new_requirement = λ r. value tt;
  unmarshal = λ b. failed (other "no yaml");
  is_empty = λ o. false;
  get_api_version = λ o. "apps/v1";
  get_kind = λ o. "Deployment";
  get_name = λ o. o.name;
  get_labels = λ o. o.labels;
  set_labels = λ l o. record o { labels = l };
  get_resource_version = λ o. o.version;
  set_resource_version = λ v o. record o { version = v };
  to_lower = λ s. s;
}

put-there :
    (k : GroupVersionResource) (ns : String) (x : Labelled) (w : Store)
    → put k ns x w k ns x.name ≡ some x
put-there k ns x w = rw (at_place_refl k ns x.name) refl

put-elsewhere :
    (k k' : GroupVersionResource) (ns ns' n : String) (x : Labelled) (w : Store)
    → (put k' ns' x w k ns n ≡ w k ns n) ⊎ ((k ≡ k') × (ns ≡ ns') × (n ≡ x.name))
put-elsewhere k k' ns ns' n x w = elim (Bool-cases (at_place k ns n k' ns' x.name)) [
  | inl e ↦ inr (at_place-eq k k' ns ns' n x.name e)
  | inr e ↦ inl (rw e refl)
]

create_in-there :
    (k : GroupVersionResource) (ns : String) (x : Labelled) (w : Store)
    → w k ns x.name ≡ none
    → create_in k ns x w k ns x.name ≡ some x
create_in-there k ns x w e =
    subst (λ b. (if b then w else put k ns x w) k ns x.name ≡ some x) (sym (ap is_some e))
      (put-there k ns x w)

create_in-keeps :
    (k k' : GroupVersionResource) (ns ns' n : String) (x o : Labelled) (w : Store)
    → w k ns n ≡ some o
    → create_in k' ns' x w k ns n ≡ some o
create_in-keeps k k' ns ns' n x o w e = created (is_some (w k' ns' x.name)) refl
  where
    created :
        (b : Bool)
        → is_some (w k' ns' x.name) ≡ b
        → (if b then w else put k' ns' x w) k ns n ≡ some o
    created true h = e
    created false h = elim (put-elsewhere k k' ns ns' n x w) [
      | inl same ↦ same ∙ e
      | inr (kind, space, name) ↦
          let one = subst (λ q. w q ns n ≡ some o) kind e in
          let two = subst (λ q. w k' q n ≡ some o) space one in
          let three = subst (λ q. w k' ns' q ≡ some o) name two in
          let never : true ≡ false = sym (ap is_some three) ∙ h in cc
    ]

create_in-elsewhere :
    (k k' : GroupVersionResource) (ns ns' n : String) (x : Labelled) (w : Store)
    → (create_in k' ns' x w k ns n ≡ w k ns n) ⊎ ((k ≡ k') × (ns ≡ ns') × (n ≡ x.name))
create_in-elsewhere k k' ns ns' n x w = created (is_some (w k' ns' x.name))
  where
    created :
        (b : Bool)
        → ((if b then w else put k' ns' x w) k ns n ≡ w k ns n)
          ⊎ ((k ≡ k') × (ns ≡ ns') × (n ≡ x.name))
    created true = inl refl
    created false = put-elsewhere k k' ns ns' n x w

update_in-there :
    (k : GroupVersionResource) (ns : String) (x o : Labelled) (w : Store)
    → w k ns x.name ≡ some o
    → x.version ≡ o.version
    → update_in k ns x w k ns x.name ≡ some x
update_in-there k ns x o w e v =
    let same : version_of (w k ns x.name) ≡ x.version = ap version_of e ∙ sym v in
    let agreed : (version_of (w k ns x.name) == x.version) ≡ true = (eq_iff _ x.version).1 same in
    subst (λ b. (if b then put k ns x w else w) k ns x.name ≡ some x) (sym agreed)
      (put-there k ns x w)

-- An update leaves what is stored at a key, or it is at its own key that it stores.
update_in-cases :
    (k k' : GroupVersionResource) (ns ns' n : String) (x : Labelled) (w : Store)
    → (update_in k' ns' x w k ns n ≡ w k ns n) ⊎ (update_in k' ns' x w ≡ put k' ns' x w)
update_in-cases k k' ns ns' n x w = agreed (version_of (w k' ns' x.name) == x.version)
  where
    agreed :
        (b : Bool)
        → ((if b then put k' ns' x w else w) k ns n ≡ w k ns n)
          ⊎ ((if b then put k' ns' x w else w) ≡ put k' ns' x w)
    agreed true = inr refl
    agreed false = inl refl

storing_laws : AnsweringLaws storing
storing_laws = record {
  stored = λ w k ns n. w k ns n;
  is_served = served_here;
  get_reads = λ w k ns n. refl;
  get_keeps = λ w k k' ns n ns' n'. refl;
  create_stores = λ w k ns x on e.
      subst (Holds (λ y. y.labels ≡ x.labels)) (sym (create_in-there k ns x w e)) refl;
  create_keeps = λ w k k' ns n ns' x o e. create_in-keeps k k' ns ns' n x o w e;
  create_elsewhere = λ w k k' ns n ns' x. create_in-elsewhere k k' ns ns' n x w;
  update_stores = λ w k ns x o e v.
      subst (Holds (λ y. y.labels ≡ x.labels)) (sym (update_in-there k ns x o w e v)) refl;
  update_stores_or_not = λ w k ns x o e. elim (update_in-cases k k ns ns x.name x w) [
    | inl same ↦ inl same
    | inr did ↦ inr (
        subst (Holds (λ y. y.labels ≡ x.labels))
          (sym (ap (λ v. v k ns x.name) did ∙ put-there k ns x w)) refl)
  ];
  update_keeps = λ w k k' ns n ns' x. elim (update_in-cases k k' ns ns' n x w) [
    | inl same ↦ inl same
    | inr did ↦
        subst (λ v. (v k ns n ≡ w k ns n) ⊎ ((k ≡ k') × (ns ≡ ns') × (n ≡ x.name))) (sym did)
          (put-elsewhere k k' ns ns' n x w)
  ];
  version_set = λ v x. refl;
  labels_name = λ l x. refl;
  labels_set = λ l x. refl;
  version_name = λ v x. refl;
  version_labels = λ v x. refl;
}

abbrev deployment_named : String → Resource keeping
deployment_named name = record {
  group = "apps";
  version = "v1";
  resource = "deployments";
  file_path = "/app";
  obj = record { name = name; labels = []; version = "" };
}

abbrev stored_api : Labelled
stored_api = record { name = "api"; labels = (revision_key, "older") ∷ []; version = "41" }

-- The cluster has "api" at an older revision, and does not have "web".
abbrev two_resources : RawState keeping
two_resources = record {
  provider = record {
    app_name = "shop";
    resource_path = "/app";
    namespace = "shop";
    resources = deployment_named "web" ∷ deployment_named "api" ∷ [];
    labels = ("dummy.cd/app", "shop") ∷ [];
    cleaning = false;
    kube_config = toy_rest;
  };
  world = λ k ns n. if n == "api" then some stored_api else none;
}

delivery-IsCurrent_example :
    All
      (λ r.
        Holds
          (λ x. IsCurrent "newer" x.labels)
          ((delivery no_files storing "newer" two_resources).1.world (gvr r) "shop" r.obj.name))
      (two_resources.provider.resources)
unfolding storing_laws reload label
delivery-IsCurrent_example =
    delivery-IsCurrent no_files storing_laws two_resources "newer"
      (two_resources.provider.resources) refl (refl, (refl, tt))

-- Both goroutines make their Get before the second and then the first writes.
abbrev web_resource : Resource keeping
web_resource = deployment_named "web"

abbrev api_resource : Resource keeping
api_resource = deployment_named "api"

abbrev new_labels : Labels
new_labels = ("dummy.cd/app", "shop") ∷ (revision_key, "newer") ∷ []

abbrev with_labels : Resource keeping → Resource keeping
with_labels r = record r { obj = record (r.obj) { labels = new_labels } }

abbrev versioned_api : Resource keeping
versioned_api = record api_resource { obj = record stored_api { labels = new_labels } }

abbrev job : Resource keeping → Stage keeping → Job keeping
job r s = record { resource = r; stage = s }

abbrev api_written : Store
api_written =
    put (gvr api_resource) "shop" (record stored_api { labels = new_labels }) two_resources.world

abbrev both_written : Pool keeping
both_written = record {
  jobs = job (with_labels web_resource) applied ∷ job versioned_api applied ∷ [];
  world = create_in (gvr web_resource) "shop" (with_labels web_resource).obj api_written;
}

both_write :
    Reach no_files storing "shop" new_labels
      (started (web_resource ∷ api_resource ∷ []) two_resources.world)
      both_written
unfolding apply_resource revise label
both_write =
    next [] (job versioned_api applied ∷ [])
      (next (job (with_labels web_resource) (to_apply (failed not_found)) ∷ []) []
        (next (job (with_labels web_resource) (to_apply (failed not_found)) ∷ []) []
          (next [] (job api_resource to_get ∷ []) here (gets web_resource two_resources.world))
          (gets api_resource two_resources.world))
        (applies (with_labels api_resource) versioned_api (value stored_api) two_resources.world
          api_written refl))
      (applies (with_labels web_resource) (with_labels web_resource) (failed not_found) api_written
        both_written.world refl)

Reach-IsCurrent_example :
    All
      (λ r. Holds (λ x. IsCurrent "newer" x.labels) (both_written.world (gvr r) "shop" r.obj.name))
      (web_resource ∷ api_resource ∷ [])
unfolding storing_laws label
Reach-IsCurrent_example =
    Reach-IsCurrent no_files storing_laws "shop" "newer" new_labels refl
      (web_resource ∷ api_resource ∷ []) two_resources.world (refl, (refl, tt)) both_write
      (refl, (refl, tt))

deliver_resources-runs_example :
    Reach no_files storing "shop" new_labels
      (started (web_resource ∷ api_resource ∷ []) two_resources.world)
      (record {
        jobs = job (with_labels web_resource) applied ∷ job versioned_api applied ∷ [];
        world =
            (deliver_resources no_files storing "shop" new_labels
              (web_resource ∷ api_resource ∷ [])
              two_resources.world).1;
      })
unfolding deliver_resources deliver_resource apply_resource revise label
deliver_resources-runs_example =
    deliver_resources-runs no_files storing "shop" new_labels (web_resource ∷ api_resource ∷ [])
      (with_labels web_resource ∷ versioned_api ∷ []) two_resources.world refl
