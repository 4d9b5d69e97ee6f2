-- ===== src/Raw/Cleanup/Pool.antt =====
-- server/pkg/provider/raw.go, cleanResources with its goroutines. The loop over the versions of the
-- cluster's groups starts one goroutine for each kind of resource, after a send to the version's
-- channel `blocker`, which has room for ten; a goroutine receives from it when it ends. The loop does
-- not wait for the goroutines: it returns, and frees the mutex, while they may still run.
pub mod Bounds
pub mod Progress
pub mod Sequential
pub mod Early
pub mod Spared
use dummy_cd.Base.{
  ℕ, zero, suc, ◌+◌, ◌<◌, ◌≡◌, String, Bool, true, false, List, [], ◌∷◌, ◌++◌, map, nat_eq,
  if◌then◌else◌,
}
use dummy_cd.Go.{Returned, value, failed}
use dummy_cd.Libs.{Types}
use dummy_cd.Libs.Cluster.{KubeLibrary, GroupVersionResource, ApiGroup, Requirement}

-- A version of a group, with the group's name.
pub record Version : Type 0 where
  pub group : String
  pub group_version : String
  pub version : String

abbrev pub versions_of_group : String → List (String × String) → List Version
versions_of_group group [] = []
versions_of_group group ((gv, v) ∷ rest) =
    record { group = group; group_version = gv; version = v } ∷ versions_of_group group rest

-- The versions in the order of the two loops.
abbrev pub versions_of : List ApiGroup → List Version
versions_of [] = []
versions_of (g ∷ rest) = versions_of_group g.name g.versions ++ versions_of rest

abbrev pub kind_of : Version → String → GroupVersionResource
kind_of v name = record { group = v.group; version = v.version; resource = name }

abbrev pub kinds_of : Version → List String → List GroupVersionResource
kinds_of v [] = []
kinds_of v (name ∷ rest) = kind_of v name ∷ kinds_of v rest

-- Where the resources of a version cannot be listed, the loop passes on.
abbrev pub waiting_of : Version → Returned (List String) → List GroupVersionResource
waiting_of v (value names) = kinds_of v names
waiting_of v (failed e) = []

-- A goroutine before its List, or with the items that are left to delete. `channel` tells the
-- versions' channels apart, by the number of the round of the loop that has made them.
pub data Todo (T : Types) : Type 0 where
  to_list : Todo T
  to_delete : List T.Object → Todo T

pub record Job (T : Types) : Type 0 where
  pub channel : ℕ
  pub kind : GroupVersionResource
  pub todo : Todo T

-- The loop: the versions that are to come, the kinds of the present one that are to come, the round,
-- and that it has returned; the goroutines; and the world.
pub record Pool (T : Types) : Type 0 where
  pub versions : List Version
  pub waiting : List GroupVersionResource
  pub round : ℕ
  pub returned : Bool
  pub jobs : List (Job T)
  pub world : T.World

abbrev pub capacity : ℕ
capacity = 10

-- The goroutines that have a place in a channel.
unfoldable pub in_channel : {T : Types} → ℕ → List (Job T) → ℕ
in_channel c [] = 0
in_channel c (j ∷ rest) = if nat_eq j.channel c then suc (in_channel c rest) else in_channel c rest

module _ {T : Types} where
  -- The list that a goroutine has asked for; where that fails it has nothing to delete.
  abbrev pub todo_of : Returned (List T.Object) → Todo T
  todo_of (value items) = to_delete items
  todo_of (failed e) = to_delete []

  -- The cleanup at the head of its loops.
  abbrev pub started : List ApiGroup → T.World → Pool T
  started groups w = record {
    versions = versions_of groups;
    waiting = [];
    round = 0;
    returned = false;
    jobs = [];
    world = w;
  }

  -- The loop has returned, and no goroutine runs.
  abbrev pub IsOver : Pool T → Type 0
  IsOver p = (p.returned ≡ true) × (p.jobs ≡ [])

module _ {T : Types} (kube : KubeLibrary T) (ns : String) (selector : List Requirement) where
  -- What a goroutine does next: its List, or its next Delete.
  pub data Act : Job T → T.World → Job T → T.World → Type 0 where
    lists :
        (j : Job T) (w : T.World)
        → j.todo ≡ to_list
        → Act j w
            (record j { todo = todo_of (kube.list j.kind ns selector w).0 })
            (kube.list j.kind ns selector w).1
    deletes :
        (j : Job T) (w : T.World) (item : T.Object) (rest : List T.Object)
        → j.todo ≡ to_delete (item ∷ rest)
        → Act j w
            (record j { todo = to_delete rest })
            (kube.delete j.kind ns (kube.get_name item) w).1

  pub data Step : Pool T → Pool T → Type 0 where
    -- the loop comes to the next version, and makes its channel
    next_version :
        (p : Pool T) (v : Version) (rest : List Version)
        → p.returned ≡ false
        → p.versions ≡ v ∷ rest
        → p.waiting ≡ []
        → Step p (record p {
          versions = rest;
          waiting = waiting_of v (kube.server_resources v.group_version p.world).0;
          round = suc p.round;
          world = (kube.server_resources v.group_version p.world).1;
        })
    -- `blocker <- struct{}{}` and `go func(...)`
    starts :
        (p : Pool T) (k : GroupVersionResource) (rest : List GroupVersionResource)
        → p.waiting ≡ k ∷ rest
        → in_channel p.round p.jobs < capacity
        → Step p (record p {
          waiting = rest;
          jobs = record { channel = p.round; kind = k; todo = to_list } ∷ p.jobs;
        })
    -- `return nil`, and the deferred Unlock
    returns :
        (p : Pool T)
        → p.returned ≡ false
        → p.versions ≡ []
        → p.waiting ≡ []
        → Step p (record p { returned = true })
    acts :
        (p : Pool T) (before after : List (Job T)) {j j' : Job T} {w : T.World}
        → p.jobs ≡ before ++ j ∷ after
        → Act j p.world j' w
        → Step p (record p { jobs = before ++ j' ∷ after; world = w })
    -- `<-blocker`, and the end of the goroutine
    ends :
        (p : Pool T) (before after : List (Job T)) (j : Job T)
        → p.jobs ≡ before ++ j ∷ after
        → j.todo ≡ to_delete []
        → Step p (record p { jobs = before ++ after })

  pub data Reach (p : Pool T) : Pool T → Type 0 where
    here : Reach p p
    next : {q r : Pool T} → Reach p q → Step q r → Reach p r
