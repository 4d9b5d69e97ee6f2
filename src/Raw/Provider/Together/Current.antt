-- ===== src/Raw/Provider/Together/Current.antt =====
-- server/pkg/provider/raw.go, Delivery with its goroutines: what it leaves of each of its resources.
use dummy_cd.Base.{
  true, String, ◌≡◌, refl, sym, ap, ◌∙◌, subst, ◌⊎◌, inl, inr, none, some, Option, List, [], ◌∷◌,
  ◌++◌, All, All-append, All-split, Holds, arith, Bool-cases, ◌==◌,
}
use dummy_cd.Go.{Returned, value, failed, not_found, OnOk}
use dummy_cd.Libs.{Types}
use dummy_cd.Libs.Files.{FilesLibrary}
use dummy_cd.Libs.Cluster.{KubeLibrary, GroupVersionResource, Labels}
use dummy_cd.Raw.Manifest.{Resource, gvr}
use dummy_cd.Raw.Provider.{revision_key, label, or_empty, revise, apply_resource}
use dummy_cd.Raw.Provider.Current.{answer_for, AnsweringLaws, IsCurrent, CurrentAt}
use dummy_cd.Raw.Provider.Current.Applied.{IsFresh, apply-Changes, apply-fresh}
use dummy_cd.Raw.Provider.Current.Delivered.{read-labelled}
use dummy_cd.Raw.Provider.Together.{
  Stage, to_get, to_apply, applied, Job, Pool, jobs_of, started, IsOver, Act, gets, applies, Reach,
  here, next,
}

-- The kind and the name of a resource's object.
abbrev key_of : {T : Types} → KubeLibrary T → Resource T → GroupVersionResource × String
key_of kube r = (gvr r, kube.get_name r.obj)

module _ {T : Types} (files : FilesLibrary T) {kube : KubeLibrary T} (laws : AnsweringLaws kube)
    (ns : String) (labels : Labels) where
  revise-key :
      (r : Resource T) (remote : T.Object) (l : Option String) (w : T.World)
      → OnOk (λ r'. key_of kube r' ≡ key_of kube r) (revise files kube ns labels r remote l w).0
  unfolding revise
  revise-key r remote none w = refl
  revise-key r remote (some rev) w =
      let named = laws.version_name (kube.get_resource_version remote) r.obj in
      elim (Bool-cases (or_empty (label revision_key labels) == rev)) [
        | inl same ↦ rw same refl
        | inr other ↦ rw other (ap (λ n. (gvr r, n)) named)
      ]

  apply-key :
      (r : Resource T) (g : Returned T.Object) (w : T.World)
      → OnOk (λ r'. key_of kube r' ≡ key_of kube r) (apply_resource files kube ns labels r g w).0
  unfolding apply_resource
  apply-key r (failed not_found) w = refl
  apply-key r (failed e) w = ground arith
  apply-key r (value remote) w = revise-key r remote _ w

module _ {T : Types} (files : FilesLibrary T) {kube : KubeLibrary T} (laws : AnsweringLaws kube)
    (ns revision : String) (labels : Labels)
    (marked : label revision_key labels ≡ some revision) where
  open laws use {stored}

  -- What is known of a goroutine, in a world.
  abbrev Sound : Resource T → Stage T → T.World → Type 0
  Sound r to_get w = laws.is_served (gvr r) ≡ true
  Sound r (to_apply g) w =
      (bears : (kube.get_labels r.obj ≡ labels) × (laws.is_served (gvr r) ≡ true)) × IsFresh files
        laws ns revision labels marked r bears g w
  Sound r applied w = CurrentAt laws ns revision (gvr r) (kube.get_name r.obj) w

  -- Between two worlds each object stays, or it is current in the second.
  abbrev Changes : T.World → T.World → Type 0
  Changes w v =
      (k : GroupVersionResource) (n : String)
      → (stored v k ns n ≡ stored w k ns n) ⊎ CurrentAt laws ns revision k n v

  current-stays :
      (k : GroupVersionResource) (n : String) (w v : T.World)
      → Changes w v
      → CurrentAt laws ns revision k n w
      → CurrentAt laws ns revision k n v
  current-stays k n w v c h = elim (c k n) [
    | inl same ↦ subst (Holds (λ x. IsCurrent revision (kube.get_labels x))) (sym same) h
    | inr now ↦ now
  ]

  Sound-stays :
      (r : Resource T) (s : Stage T) (w v : T.World) → Changes w v → Sound r s w → Sound r s v
  Sound-stays r to_get w v c h = h
  Sound-stays r (to_apply g) w v c (bears, inl e) = (
    bears,
    elim (c (gvr r) (kube.get_name r.obj)) [
      | inl same ↦ inl (e ∙ ap answer_for (sym same))
      | inr now ↦ inr now
    ],
  )
  Sound-stays r (to_apply g) w v c (bears, inr h) =
      (bears, inr (current-stays (gvr r) (kube.get_name r.obj) w v c h))
  Sound-stays r applied w v c h = current-stays (gvr r) (kube.get_name r.obj) w v c h

  -- A call of a goroutine.
  Act-Sound :
      {j : Job T} {w : T.World} {j' : Job T} {v : T.World}
      → Act files kube ns labels j w j' v
      → Sound j.resource j.stage w
      → Sound j'.resource j'.stage v
        × Changes w v
        × (key_of kube j'.resource ≡ key_of kube j.resource)
  Act-Sound (gets r w) h =
      let n = kube.get_name r.obj in
      let read = read-labelled files laws ns revision labels marked r w in
      (
        (
          (laws.labels_set labels r.obj, h),
          inl (laws.get_reads w (gvr r) ns n ∙ ap answer_for (sym read)),
        ),
        λ k m. inl (laws.get_keeps w k (gvr r) ns m ns n),
        ap (λ m. (gvr r, m)) (laws.labels_name labels r.obj),
      )
  Act-Sound (applies r r' g w w' e) (bears, fresh) =
      let key =
        subst (λ x. OnOk (λ q. key_of kube q ≡ key_of kube r) x.0) e
          (apply-key files laws ns labels r g w) in
      let now = apply-fresh files laws ns revision labels marked r bears g w fresh in
      let here = subst (λ x. CurrentAt laws ns revision (gvr r) (kube.get_name r.obj) x.1) e now in
      (
        subst (λ q. CurrentAt laws ns revision q.0 q.1 w') (sym key) here,
        λ k n.
            subst (λ x. (stored x.1 k ns n ≡ stored w k ns n) ⊎ CurrentAt laws ns revision k n x.1)
              e (apply-Changes files laws ns revision labels marked r bears k n g w fresh),
        key,
      )

  abbrev AllSound : List (Job T) → T.World → Type 0
  AllSound js w = All (λ j. Sound j.resource j.stage w) js

  AllSound-stays : (js : List (Job T)) (w v : T.World) → Changes w v → AllSound js w → AllSound js v
  AllSound-stays [] w v c h = tt
  AllSound-stays (j ∷ js) w v c (h, hs) =
      (Sound-stays j.resource j.stage w v c h, AllSound-stays js w v c hs)

  jobs_of-Sound :
      (rs : List (Resource T)) (w : T.World)
      → All (λ r. laws.is_served (gvr r) ≡ true) rs
      → AllSound (jobs_of rs) w
  jobs_of-Sound [] w served = tt
  jobs_of-Sound (r ∷ rest) w (one, served) = (one, jobs_of-Sound rest w served)

  abbrev keys : List (Job T) → List (GroupVersionResource × String)
  keys [] = []
  keys (j ∷ js) = key_of kube j.resource ∷ keys js

  keys-same :
      (before after : List (Job T)) (j j' : Job T)
      → key_of kube j'.resource ≡ key_of kube j.resource
      → keys (before ++ j' ∷ after) ≡ keys (before ++ j ∷ after)
  keys-same [] after j j' e = ap (λ q. q ∷ keys after) e
  keys-same (b ∷ before) after j j' e =
      ap (λ l. key_of kube b.resource ∷ l) (keys-same before after j j' e)

  Reach-Sound :
      (rs : List (Resource T)) (w : T.World) {p : Pool T}
      → All (λ r. laws.is_served (gvr r) ≡ true) rs
      → Reach files kube ns labels (started rs w) p
      → AllSound p.jobs p.world × (keys p.jobs ≡ keys (jobs_of rs))
  Reach-Sound rs u served here = (jobs_of-Sound rs u served, refl)
  Reach-Sound rs u served (next before after {j} {j'} {w} {w'} r act) =
      let (all, same) = Reach-Sound rs u served r in
      let (b, m, a) = All-split (λ x. Sound x.resource x.stage w) before j after all in
      let (m', c, key) = Act-Sound act m in
      (
        All-append (λ x. Sound x.resource x.stage w') before (j' ∷ after)
            (AllSound-stays before w w' c b) (m', AllSound-stays after w w' c a),
        keys-same before after j j' key ∙ same,
      )

  -- The goroutines have ended.
  over-current :
      (js : List (Job T)) (w : T.World)
      → All (λ j. j.stage ≡ applied) js
      → AllSound js w
      → All (λ q. CurrentAt laws ns revision q.0 q.1 w) (keys js)
  over-current [] w over h = tt
  over-current (j ∷ js) w (e, over) (h, hs) =
      (subst (λ s. Sound j.resource s w) e h, over-current js w over hs)

  back :
      (rs : List (Resource T)) (w : T.World)
      → All (λ q. CurrentAt laws ns revision q.0 q.1 w) (keys (jobs_of rs))
      → All (λ r. CurrentAt laws ns revision (gvr r) (kube.get_name r.obj) w) rs
  back [] w h = tt
  back (r ∷ rest) w (h, hs) = (h, back rest w hs)

  -- With a cluster that answers every call as AnsweringLaws says and serves the kind of each resource,
  -- and with labels that have the revision, in whatever order the goroutines of a delivery make their calls: when all have ended
  -- there is, for each resource, an object of the resource's kind and name, which bears the revision,
  -- or which bears none and so is not the server's.
  pub Reach-IsCurrent :
      (rs : List (Resource T)) (w : T.World) {p : Pool T}
      → All (λ r. laws.is_served (gvr r) ≡ true) rs
      → Reach files kube ns labels (started rs w) p
      → IsOver p
      → All
          (λ r.
            Holds
              (λ x. IsCurrent revision (kube.get_labels x))
              (stored p.world (gvr r) ns (kube.get_name r.obj)))
          rs
  Reach-IsCurrent rs w {p} served r over =
      let (all, same) = Reach-Sound rs w served r in
      back rs p.world (
        subst (All (λ q. CurrentAt laws ns revision q.0 q.1 p.world)) same
          (over-current p.jobs p.world over all))
