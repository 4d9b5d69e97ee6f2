-- ===== src/Raw/Cleanup/Pool/Early.antt =====
-- server/pkg/provider/raw.go, cleanResources: the mutex is freed while goroutines still run.
use dummy_cd.Base.{
  ℕ, suc, ◌+◌, ◌≤◌, ◌≡◌, refl, subst, String, true, false, List, [], ◌∷◌, All, arith, nat_eq_iff,
}
use dummy_cd.Go.{value}
use dummy_cd.Libs.{Types}
use dummy_cd.Libs.Cluster.{KubeLibrary, ApiGroup, Requirement}
use dummy_cd.Raw.Cleanup.Pool.{
  Version, kind_of, kinds_of, waiting_of, to_list, Job, Pool, capacity, in_channel, next_version,
  starts, returns, Reach, here, next, started,
}

-- The number of names.
abbrev pub count : List String → ℕ
count [] = 0
count (name ∷ rest) = suc (count rest)

module _ {T : Types} where
  -- The goroutine has not made its List.
  abbrev pub IsUnlisted : Job T → Type 0
  IsUnlisted j = j.todo ≡ to_list

module _ {T : Types} (kube : KubeLibrary T) (ns : String) (selector : List Requirement) where
  -- Where there is room, the loop starts all the goroutines of a version before one of them acts.
  start_every :
      (first : Pool T) (v : Version) (names : List String) (p : Pool T)
      → Reach kube ns selector first (record p { waiting = kinds_of v names })
      → in_channel p.round p.jobs + count names ≤ capacity
      → All IsUnlisted p.jobs
      → (jobs : List (Job T)) × Reach kube ns selector first
          (record p { waiting = []; jobs = jobs })
        × (in_channel p.round jobs ≡ in_channel p.round p.jobs + count names)
        × All IsUnlisted jobs
  unfolding in_channel
  start_every first v [] p r room fresh = (p.jobs, r, omega arith, fresh)
  start_every first v (name ∷ rest) p r room fresh =
      let k = kind_of v name in
      let j : Job T = record { channel = p.round; kind = k; todo = to_list } in
      let placed : in_channel p.round (j ∷ p.jobs) ≡ suc (in_channel p.round p.jobs) =
        ground (arith, nat_eq_iff p.round p.round) in
      let more =
        starts (record p { waiting = k ∷ kinds_of v rest }) k (kinds_of v rest) refl
          (omega arith) in
      let (jobs, reached, full, unlisted) =
        start_every first v rest (record p { jobs = j ∷ p.jobs }) (next r more)
          (rw placed (omega arith)) (refl, fresh) in
      (jobs, reached, ground (arith, full, placed), unlisted)

  -- For a cluster with one version, whose resources are listed and are ten at most: the cleanup can
  -- return, and free the mutex, while a goroutine for each kind runs that has not even asked for the
  -- objects that it is to delete; the world is still as the listing of the kinds has left it.
  pub early_return :
      (group gv version : String) (names : List String) (w : T.World)
      → (kube.server_resources gv w).0 ≡ value names
      → count names ≤ capacity
      → let g : ApiGroup = record { name = group; versions = (gv, version) ∷ [] } in
        (p : Pool T) × Reach kube ns selector (started (g ∷ []) w) p
        × (p.returned ≡ true)
        × (in_channel 1 p.jobs ≡ count names)
        × All IsUnlisted p.jobs
        × (p.world ≡ (kube.server_resources gv w).1)
  unfolding in_channel
  early_return group gv version names w listed few =
      let g : ApiGroup = record { name = group; versions = (gv, version) ∷ [] } in
      let v : Version = record { group = group; group_version = gv; version = version } in
      let p : Pool T = record {
        versions = [];
        waiting = [];
        round = 1;
        returned = false;
        jobs = [];
        world = (kube.server_resources gv w).1;
      } in
      let come : Reach kube ns selector (started (g ∷ []) w)
          (record p { waiting = kinds_of v names }) =
        subst
          (λ r. Reach kube ns selector (started (g ∷ []) w) (record p { waiting = waiting_of v r }))
          listed (next here (next_version (started (g ∷ []) w) v [] refl refl refl)) in
      let (jobs, all, full, fresh) =
        start_every (started (g ∷ []) w) v names p come (omega (arith, few)) tt in
      (
        record p { jobs = jobs; returned = true },
        next all (returns _ refl refl refl),
        refl,
        omega (arith, full),
        fresh,
        refl,
      )
