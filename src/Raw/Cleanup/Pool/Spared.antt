-- ===== src/Raw/Cleanup/Pool/Spared.antt =====
-- server/pkg/provider/raw.go, cleanResources: the objects that a cleanup leaves alone.
use dummy_cd.Base.{
  ◌≡◌, ◌≢◌, refl, sym, ◌∙◌, subst, ◌⊎◌, inl, inr, String, Bool, true, false, Option, some, List, [],
  ◌∷◌, ◌++◌, All, arith,
}
use dummy_cd.Go.{Returned, value, failed, ok}
use dummy_cd.Libs.{Types}
use dummy_cd.Libs.Cluster.{
  KubeLibrary, ApiGroup, GroupVersionResource, Requirement, Operator, equals, not_equals, Labels,
}
use dummy_cd.Raw.Provider.{label, app_key, revision_key}
use dummy_cd.Raw.Cleanup.{app_requirement, revision_requirement, new_selector}
use dummy_cd.Raw.Cleanup.Pool.{
  Todo, to_list, to_delete, todo_of, Job, Pool, Act, lists, deletes, Step, next_version, starts,
  returns, acts, ends, Reach, here, next, started,
}

-- A requirement of a selector, as the documentation of label selectors has it.
abbrev pub IsMet : Operator → String → Option String → Type 0
IsMet equals wanted found = found ≡ some wanted
IsMet not_equals wanted found = found ≢ some wanted

abbrev pub IsSelected : List Requirement → Labels → Type 0
IsSelected selector ls = All (λ r. IsMet r.operator r.wanted (label r.key ls)) selector

-- The documented behaviour of the cluster: `stored` is the object of a kind, a namespace and a name.
-- List answers with objects that are stored and that the selector selects, and Delete leaves the
-- objects that it does not name.
pub record ClusterLaws {T : Types} (kube : KubeLibrary T) : Type 0 where
  pub stored : T.World → GroupVersionResource → String → String → Option T.Object
  pub list_reads :
      (w : T.World) (k : GroupVersionResource) (ns : String) (selector : List Requirement)
      {items : List T.Object}
      → (kube.list k ns selector w).0 ≡ value items
      → All
          (λ item.
            (stored w k ns (kube.get_name item) ≡ some item)
            × IsSelected selector (kube.get_labels item))
          items
  pub list_keeps :
      (w : T.World) (k k' : GroupVersionResource) (ns n ns' : String) (selector : List Requirement)
      → stored (kube.list k' ns' selector w).1 k ns n ≡ stored w k ns n
  pub resources_keeps :
      (w : T.World) (k : GroupVersionResource) (ns n gv : String)
      → stored (kube.server_resources gv w).1 k ns n ≡ stored w k ns n
  pub delete_keeps :
      (w : T.World) (k k' : GroupVersionResource) (ns n ns' n' : String)
      → (stored (kube.delete k' ns' n' w).1 k ns n ≡ stored w k ns n)
        ⊎ ((k ≡ k') × (ns ≡ ns') × (n ≡ n'))

-- The labels of another application's object or of none's, and, where not all are to go, of an
-- object of the revision.
abbrev pub IsSpared : Bool → String → String → Labels → Type 0
IsSpared all name revision ls =
    (label app_key ls ≢ some name) ⊎ ((all ≡ false) × (label revision_key ls ≡ some revision))

module _ {T : Types} {kube : KubeLibrary T} (laws : ClusterLaws kube) (ns : String)
    (selector : List Requirement) (k : GroupVersionResource) (n : String) (o : T.Object)
    (unselected : ¬ IsSelected selector (kube.get_labels o)) where
  open laws use {stored}

  abbrev Stays : T.World → Type 0
  Stays w = stored w k ns n ≡ some o

  -- A goroutine for the object's kind is not going to delete the object.
  abbrev LeavesIt : GroupVersionResource → Todo T → Type 0
  LeavesIt kind to_list = Unit
  LeavesIt kind (to_delete items) = k ≡ kind → All (λ item. kube.get_name item ≢ n) items

  abbrev Leaves : Job T → Type 0
  Leaves j = LeavesIt j.kind j.todo

  -- None of the objects that List has answered with is the object.
  read-Leaves :
      (w : T.World) (items : List T.Object)
      → Stays w
      → All
          (λ item.
            (stored w k ns (kube.get_name item) ≡ some item)
            × IsSelected selector (kube.get_labels item))
          items
      → All (λ item. kube.get_name item ≢ n) items
  read-Leaves w [] h all = tt
  read-Leaves w (item ∷ rest) h all = (
    λ same.
        let at : stored w k ns n ≡ some item =
          subst (λ m. stored w k ns m ≡ some item) same all.0.0 in
        let it : item ≡ o = cc in
        unselected (subst (λ x. IsSelected selector (kube.get_labels x)) it all.0.1),
    read-Leaves w rest h all.1,
  )

  listed-Leaves :
      (kind : GroupVersionResource) (w : T.World) (r : Returned (List T.Object))
      → (kube.list kind ns selector w).0 ≡ r
      → Stays w
      → LeavesIt kind (todo_of r)
  listed-Leaves kind w (value items) e h = λ same. read-Leaves w items h (
      subst
        (λ x.
          All
            (λ item.
              (stored w x ns (kube.get_name item) ≡ some item)
              × IsSelected selector (kube.get_labels item))
            items)
        (sym same) (laws.list_reads w kind ns selector e))
  listed-Leaves kind w (failed e') e h = λ same. tt

  Act-Leaves :
      {j : Job T} {w : T.World} {j' : Job T} {v : T.World}
      → Act kube ns selector j w j' v
      → Stays w
      → Leaves j
      → Stays v × Leaves j'
  Act-Leaves (lists j w e) h l =
      (laws.list_keeps w k j.kind ns n ns selector ∙ h, listed-Leaves j.kind w _ refl h)
  Act-Leaves (deletes j w item rest e) h l =
      let left = subst (LeavesIt j.kind) e l in
      (
        elim (laws.delete_keeps w k j.kind ns n ns (kube.get_name item)) [
          | inl same ↦ same ∙ h
          | inr (kind, _, it) ↦ absurd ((left kind).0 (sym it))
        ],
        λ kind. (left kind).1,
      )

  All-replaced :
      (before after : List (Job T)) (j j' : Job T)
      → All Leaves (before ++ j ∷ after)
      → Leaves j'
      → All Leaves (before ++ j' ∷ after)
  All-replaced [] after j j' h l = (l, h.1)
  All-replaced (i ∷ before) after j j' h l = (h.0, All-replaced before after j j' h.1 l)

  All-removed :
      (before after : List (Job T)) (j : Job T)
      → All Leaves (before ++ j ∷ after)
      → Leaves j × All Leaves (before ++ after)
  All-removed [] after j h = h
  All-removed (i ∷ before) after j h =
      let (one, others) = All-removed before after j h.1 in (one, (h.0, others))

  Step-Leaves :
      {p q : Pool T}
      → Step kube ns selector p q
      → Stays p.world × All Leaves p.jobs
      → Stays q.world × All Leaves q.jobs
  Step-Leaves (next_version p v rest e f g) h =
      (laws.resources_keeps p.world k ns n v.group_version ∙ h.0, h.1)
  Step-Leaves (starts p kind rest e room) h = (h.0, (tt, h.1))
  Step-Leaves (returns p e f g) h = h
  Step-Leaves (acts p before after {j} {j'} e act) h =
      let all = subst (All Leaves) e h.1 in
      let done = Act-Leaves act h.0 (All-removed before after j all).0 in
      (done.0, All-replaced before after j j' all done.1)
  Step-Leaves (ends p before after j e f) h =
      (h.0, (All-removed before after j (subst (All Leaves) e h.1)).1)

  Reach-Leaves :
      (groups : List ApiGroup) (w : T.World) {p : Pool T}
      → Stays w
      → Reach kube ns selector (started groups w) p
      → Stays p.world × All Leaves p.jobs
  Reach-Leaves groups w h here = (h, tt)
  Reach-Leaves groups w h (next r st) = Step-Leaves st (Reach-Leaves groups w h r)

module _ {T : Types} (kube : KubeLibrary T) where
  new_selector-all :
      (name revision : String) (w : T.World) (selector : List Requirement)
      → (new_selector kube true name revision w).0 ≡ ok selector
      → app_requirement name ∷ [] ≡ selector
  unfolding new_selector
  new_selector-all name revision w selector made = ground arith

  new_selector-others :
      (name revision : String) (w : T.World) (selector : List Requirement)
      → (new_selector kube false name revision w).0 ≡ ok selector
      → app_requirement name ∷ revision_requirement revision ∷ [] ≡ selector
  unfolding new_selector
  new_selector-others name revision w selector made = ground arith

  -- The selector of a cleanup selects no object that is to be spared.
  new_selector-spares :
      (all : Bool) (name revision : String) (w : T.World) (selector : List Requirement)
      (ls : Labels)
      → (new_selector kube all name revision w).0 ≡ ok selector
      → IsSpared all name revision ls
      → ¬ IsSelected selector ls
  new_selector-spares true name revision w selector ls made (inl foreign) selected =
      foreign
        (subst (λ s. IsSelected s ls) (sym (new_selector-all name revision w selector made))
          selected).0
  new_selector-spares true name revision w selector ls made (inr (never, same)) selected = cc
  new_selector-spares false name revision w selector ls made spared selected =
      let both =
        subst (λ s. IsSelected s ls) (sym (new_selector-others name revision w selector made))
          selected in
      elim spared [ inl foreign ↦ foreign both.0 | inr (some_stay, same) ↦ both.1.0 same ]

module _ {T : Types} {kube : KubeLibrary T} (laws : ClusterLaws kube) where
  -- With a cluster as ClusterLaws says: in whatever order the loop and the goroutines of a cleanup
  -- take their steps, an object that does not bear the application's label stays as it is, and so
  -- does, in the cleanup that follows a delivery, an object that bears the label of the revision.
  pub Reach-spares :
      (all : Bool) (name ns revision : String) (groups : List ApiGroup) (v w : T.World)
      (selector : List Requirement) (k : GroupVersionResource) (n : String) (o : T.Object)
      {p : Pool T}
      → (new_selector kube all name revision v).0 ≡ ok selector
      → IsSpared all name revision (kube.get_labels o)
      → laws.stored w k ns n ≡ some o
      → Reach kube ns selector (started groups w) p
      → laws.stored p.world k ns n ≡ some o
  Reach-spares all name ns revision groups v w selector k n o made spared at r =
      let unselected =
        new_selector-spares kube all name revision v selector (kube.get_labels o) made spared in
      (Reach-Leaves laws ns selector k n o unselected groups w at r).0
