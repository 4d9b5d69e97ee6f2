-- ===== src/Raw/Provider/Together/Spared.antt =====
-- server/pkg/provider/raw.go, Delivery with its goroutines: objects that the server did not make.
use dummy_cd.Base.{String, ◌≡◌, ◌∙◌, subst, none, some, List, [], ◌∷◌, All, All-append, All-split}
use dummy_cd.Libs.{Types}
use dummy_cd.Libs.Files.{FilesLibrary}
use dummy_cd.Libs.Cluster.{KubeLibrary, GroupVersionResource, Labels}
use dummy_cd.Raw.Manifest.{Resource, gvr}
use dummy_cd.Raw.Provider.{revision_key, label}
use dummy_cd.Raw.Provider.Foreign.{KubeLaws, At, Harmless, apply-foreign, read-Harmless}
use dummy_cd.Raw.Provider.Together.{
  Stage, to_get, to_apply, applied, Job, Pool, jobs_of, started, Act, gets, applies, Reach, here,
  next,
}

module _ {T : Types} {files : FilesLibrary T} {kube : KubeLibrary T} (laws : KubeLaws files kube)
    (k : GroupVersionResource) (ns' n : String) (o : T.Object)
    (unlabelled : label revision_key (kube.get_labels o) ≡ none) (ns : String)
    (labels : Labels) where
  -- What the goroutine has found, if it is the object at the key, has no label.
  abbrev Spares : Resource T → Stage T → Type 0
  Spares r to_get = Unit
  Spares r (to_apply g) = Harmless laws k ns' n o unlabelled r ns g
  Spares r applied = Unit

  abbrev IsSparing : Job T → Type 0
  IsSparing j = Spares j.resource j.stage

  Act-spares :
      {j : Job T} {w : T.World} {j' : Job T} {v : T.World}
      → Act files kube ns labels j w j' v
      → At laws k ns' n w o
      → IsSparing j
      → At laws k ns' n v o × IsSparing j'
  Act-spares (gets r w) at h = (
    laws.get_keeps w k (gvr r) ns' n ns (kube.get_name r.obj) ∙ at,
    read-Harmless laws k ns' n o unlabelled labels ns r w at,
  )
  Act-spares (applies r r' g w w' e) at h =
      let kept = apply-foreign laws k ns' n o unlabelled ns labels r g w h at in
      (subst (λ x. At laws k ns' n x.1 o) e kept, tt)

  jobs_of-IsSparing : (rs : List (Resource T)) → All IsSparing (jobs_of rs)
  jobs_of-IsSparing [] = tt
  jobs_of-IsSparing (r ∷ rest) = (tt, jobs_of-IsSparing rest)

  Reach-IsSparing :
      (rs : List (Resource T)) (w : T.World) {p : Pool T}
      → At laws k ns' n w o
      → Reach files kube ns labels (started rs w) p
      → At laws k ns' n p.world o × All IsSparing p.jobs
  Reach-IsSparing rs w at here = (at, jobs_of-IsSparing rs)
  Reach-IsSparing rs w at (next before after {j} {j'} r act) =
      let (now, all) = Reach-IsSparing rs w at r in
      let (b, m, a) = All-split IsSparing before j after all in
      let (then, m') = Act-spares act now m in
      (then, All-append IsSparing before (j' ∷ after) b (m', a))

module _ {T : Types} {files : FilesLibrary T} {kube : KubeLibrary T}
    (laws : KubeLaws files kube) where
  -- With a cluster as KubeLaws says, and in whatever order the goroutines of a delivery make their
  -- calls: an object that has no revision label at its start stays as it is, whatever the resources
  -- name.
  pub Reach-foreign :
      (ns : String) (labels : Labels) (rs : List (Resource T)) (w : T.World) {p : Pool T}
      (k : GroupVersionResource) (ns' n : String) (o : T.Object)
      → laws.stored w k ns' n ≡ some o
      → label revision_key (kube.get_labels o) ≡ none
      → Reach files kube ns labels (started rs w) p
      → laws.stored p.world k ns' n ≡ some o
  Reach-foreign ns labels rs w k ns' n o at unlabelled r =
      (Reach-IsSparing laws k ns' n o unlabelled ns labels rs w at r).0
