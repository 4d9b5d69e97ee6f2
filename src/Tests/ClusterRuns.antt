-- ===== src/Tests/ClusterRuns.antt =====
-- A small cluster with two objects: "old", of the application web at revision 1, and "mine", which
-- nobody has labelled. "old" is there for as long as the world is not empty.
use dummy_cd.Base.{
  ◌≡◌, refl, subst, ◌⊎◌, inl, inr, String, Bool, true, false, not, ◌&&◌, Option, none, some, List,
  [], ◌∷◌, All, arith, ◌==◌, eq_iff, if◌then◌else◌, is_nil, Bool-cases,
}
use dummy_cd.Go.{value}
use dummy_cd.Libs.Cluster.{
  KubeLibrary, GroupVersionResource, Requirement, Operator, equals, not_equals, Labels, ApiGroup,
}
use dummy_cd.Raw.Provider.{label, app_key, revision_key}
use dummy_cd.Raw.Cleanup.{new_selector, app_requirement, revision_requirement}
use dummy_cd.Raw.Cleanup.Pool.{
  Pool, started, Reach, next_version, starts, lists, deletes, acts, here, next, in_channel,
  to_delete,
}
use dummy_cd.Raw.Cleanup.Pool.Spared.{IsMet, IsSelected, ClusterLaws, Reach-spares}
use dummy_cd.Tests.Toy.{toy, toy_kube}

abbrev is_met : Operator → String → Option String → Bool
is_met equals wanted none = false
is_met equals wanted (some v) = v == wanted
is_met not_equals wanted none = true
is_met not_equals wanted (some v) = not (v == wanted)

is_met-IsMet :
    (op : Operator) (wanted : String) (found : Option String)
    → is_met op wanted found ≡ true
    → IsMet op wanted found
is_met-IsMet equals wanted none h = cc
is_met-IsMet equals wanted (some v) h = ground (arith, eq_iff v wanted)
is_met-IsMet not_equals wanted none h = λ same. cc
is_met-IsMet not_equals wanted (some v) h = λ same. ground (arith, eq_iff v wanted)

abbrev selects : List Requirement → Labels → Bool
selects [] ls = true
selects (r ∷ rest) ls = is_met r.operator r.wanted (label r.key ls) && selects rest ls

selects-IsSelected :
    (selector : List Requirement) (ls : Labels)
    → selects selector ls ≡ true
    → IsSelected selector ls
selects-IsSelected [] ls h = tt
selects-IsSelected (r ∷ rest) ls h = (
  is_met-IsMet r.operator r.wanted (label r.key ls) (ground arith),
  selects-IsSelected rest ls (ground arith),
)

abbrev labels_of : String → Labels
labels_of o = if o == "old" then (app_key, "web") ∷ (revision_key, "1") ∷ [] else []

-- The key of "old", but for its name.
abbrev is_key : GroupVersionResource → String → Bool
is_key k ns =
    k.group == "apps" && (k.version == "v1" && (k.resource == "deployments" && ns == "web"))

is_key-eq :
    (k k' : GroupVersionResource) (ns ns' : String)
    → is_key k ns ≡ true
    → is_key k' ns' ≡ true
    → (k ≡ k') × (ns ≡ ns')
is_key-eq k k' ns ns' h h' = ground (
  arith,
  eq_iff k.group "apps",
  eq_iff k'.group "apps",
  eq_iff k.version "v1",
  eq_iff k'.version "v1",
  eq_iff k.resource "deployments",
  eq_iff k'.resource "deployments",
  eq_iff ns "web",
  eq_iff ns' "web",
)

abbrev found : List (String × String) → Bool → Bool → List String
found w at_key selected = if not (is_nil w) && (at_key && selected) then "old" ∷ [] else []

abbrev stored_at : List (String × String) → Bool → String → Option String
stored_at w at_key n =
    if at_key && n == "old"
    then (if is_nil w then none else some "old")
    else if n == "mine"
    then some "mine"
    else none

abbrev small_cluster : KubeLibrary toy
small_cluster = record toy_kube {
  list = λ k ns selector w. (value (found w (is_key k ns) (selects selector (labels_of "old"))), w);
  delete = λ k ns n w. (value tt, if is_key k ns && n == "old" then [] else w);
  get_labels = labels_of;
}

found-read :
    (w : List (String × String)) (at_key : Bool) (selector : List Requirement)
    → All
        (λ item. (stored_at w at_key item ≡ some item) × IsSelected selector (labels_of item))
        (found w at_key (selects selector (labels_of "old")))
found-read w at_key selector = elim (Bool-cases (selects selector (labels_of "old"))) [
  | inl e ↦ ground (arith, selects-IsSelected selector (labels_of "old") e)
  | inr e ↦ ground arith
]

deleted-stored :
    (w : List (String × String)) (k k' : GroupVersionResource) (ns n ns' n' : String)
    → (stored_at (if is_key k' ns' && n' == "old" then [] else w) (is_key k ns) n
        ≡ stored_at w (is_key k ns) n)
      ⊎ ((k ≡ k') × (ns ≡ ns') × (n ≡ n'))
deleted-stored w k k' ns n ns' n' = elim (Bool-cases (is_key k ns)) [
  | inl h ↦ elim (Bool-cases (is_key k' ns')) [
    | inl h' ↦ ground (arith, is_key-eq k k' ns ns' h h', eq_iff n "old", eq_iff n' "old")
    | inr h' ↦ inl (rw h' refl)
  ]
  | inr h ↦ inl (rw h refl)
]

listed : (P : String → Type 0) {xs ys : List String} → value xs ≡ value ys → All P xs → All P ys
listed P {xs} {ys} e h = let same : xs ≡ ys = cc in subst (All P) same h

small_laws : ClusterLaws small_cluster
small_laws = record {
  stored = λ w k ns n. stored_at w (is_key k ns) n;
  list_reads = λ w k ns selector e.
      listed
        (λ item.
          (stored_at w (is_key k ns) item ≡ some item) × IsSelected selector (labels_of item))
        e (found-read w (is_key k ns) selector);
  list_keeps = λ w k k' ns n ns' selector. refl;
  resources_keeps = λ w k ns n gv. refl;
  delete_keeps = λ w k k' ns n ns' n'. deleted-stored w k k' ns n ns' n';
}

-- A cleanup of revision 2 that has deleted "old".
abbrev cleaned : Pool toy
cleaned = record {
  versions = [];
  waiting = [];
  round = 1;
  returned = false;
  jobs =
      record {
        channel = 1;
        kind = record { group = "apps"; version = "v1"; resource = "deployments" };
        todo = to_delete [];
      }
      ∷ [];
  world = [];
}

abbrev cleaned_kind : GroupVersionResource
cleaned_kind = record { group = "apps"; version = "v1"; resource = "deployments" }

abbrev of_revision_2 : List Requirement
of_revision_2 = app_requirement "web" ∷ revision_requirement "2" ∷ []

abbrev apps_group : ApiGroup
apps_group = record { name = "apps"; versions = ("apps/v1", "v1") ∷ [] }

comes_to_delete :
    Reach small_cluster "web" of_revision_2 (started (apps_group ∷ []) (("web", "1") ∷ [])) cleaned
unfolding in_channel label
comes_to_delete =
    next
      (next
        (next
          (next here
            (next_version (started (apps_group ∷ []) (("web", "1") ∷ [])) _ [] refl refl refl))
          (starts _ _ [] refl (omega arith)))
        (acts _ [] [] refl (lists _ _ refl)))
      (acts _ [] [] refl (deletes _ _ "old" [] refl))

Reach-spares_example : small_laws.stored (cleaned.world) (cleaned_kind) "web" "mine" ≡ some "mine"
unfolding new_selector label small_laws
Reach-spares_example =
    Reach-spares small_laws false "web" "web" "2" (apps_group ∷ []) [] (("web", "1") ∷ [])
      of_revision_2 cleaned_kind "mine" "mine" refl (inl (λ never. cc)) refl comes_to_delete
