-- ===== src/Raw/Provider/Together.antt =====
-- server/pkg/provider/raw.go, Delivery with its goroutines, one for each resource. A goroutine asks
-- for the object of its resource, and then creates it, updates it or leaves it; Delivery waits until
-- all have ended. A goroutine that is not started yet is one that has made no call.
pub mod Spared
pub mod Current
pub mod Sequential
use dummy_cd.Base.{◌≡◌, String, List, [], ◌∷◌, ◌++◌, All}
use dummy_cd.Go.{Returned, ok}
use dummy_cd.Libs.{Types}
use dummy_cd.Libs.Files.{FilesLibrary}
use dummy_cd.Libs.Cluster.{KubeLibrary, Labels}
use dummy_cd.Raw.Manifest.{Resource, gvr}
use dummy_cd.Raw.Provider.{apply_resource}

-- A goroutine before its Get, with what Get has answered, and at its end.
pub data Stage (T : Types) : Type 0 where
  to_get : Stage T
  to_apply : Returned T.Object → Stage T
  applied : Stage T

pub record Job (T : Types) : Type 0 where
  pub resource : Resource T
  pub stage : Stage T

pub record Pool (T : Types) : Type 0 where
  pub jobs : List (Job T)
  pub world : T.World

module _ {T : Types} where
  abbrev pub jobs_of : List (Resource T) → List (Job T)
  jobs_of [] = []
  jobs_of (r ∷ rest) = record { resource = r; stage = to_get } ∷ jobs_of rest

  abbrev pub started : List (Resource T) → T.World → Pool T
  started rs w = record { jobs = jobs_of rs; world = w }

  -- wg.Wait() returns.
  abbrev pub IsOver : Pool T → Type 0
  IsOver p = All (λ j. j.stage ≡ applied) p.jobs

module _ {T : Types} (files : FilesLibrary T) (kube : KubeLibrary T) (ns : String)
    (labels : Labels) where
  abbrev pub labelled : Resource T → Resource T
  labelled r = record r { obj = kube.set_labels labels r.obj }

  -- What a goroutine does next, in a world.
  pub data Act : Job T → T.World → Job T → T.World → Type 0 where
    gets :
        (r : Resource T) (w : T.World)
        → Act
            (record { resource = r; stage = to_get })
            w
            (record {
              resource = labelled r;
              stage = to_apply (kube.get (gvr r) ns (kube.get_name r.obj) w).0;
            })
            (kube.get (gvr r) ns (kube.get_name r.obj) w).1
    applies :
        (r r' : Resource T) (g : Returned T.Object) (w w' : T.World)
        → apply_resource files kube ns labels r g w ≡ (ok r', w')
        → Act
            (record { resource = r; stage = to_apply g })
            w
            (record { resource = r'; stage = applied })
            w'

  pub data Reach (p : Pool T) : Pool T → Type 0 where
    here : Reach p p
    next :
        (before after : List (Job T)) {j j' : Job T} {w w' : T.World}
        → Reach p (record { jobs = before ++ j ∷ after; world = w })
        → Act j w j' w'
        → Reach p (record { jobs = before ++ j' ∷ after; world = w' })
