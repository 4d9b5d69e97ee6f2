-- ===== src/Raw/Cleanup/Pool/Sequential.antt =====
-- server/pkg/provider/raw.go, cleanResources: the cleanup whose goroutines run one after another is
-- one of the ways in which they can run.
use dummy_cd.Base.{ℕ, suc, ◌≡◌, refl, sym, subst, String, false, List, [], ◌∷◌, ◌++◌, arith}
use dummy_cd.Go.{Returned, value, failed, ok, Exec, ◌>>◌}
use dummy_cd.Libs.{Types}
use dummy_cd.Libs.Cluster.{KubeLibrary, ApiGroup, GroupVersionResource, Requirement}
use dummy_cd.Raw.Cleanup.{
  delete_items, clean_listed, clean_kind, clean_kinds, clean_version, clean_versions, clean_groups,
}
use dummy_cd.Raw.Cleanup.Protocol.{clean_listed-ok, clean_version-ok, clean_versions-ok}
use dummy_cd.Raw.Cleanup.Pool.{
  Version, versions_of_group, versions_of, kind_of, kinds_of, waiting_of, to_list, to_delete,
  todo_of, Job, Pool, in_channel, lists, deletes, Step, next_version, starts, returns, acts, ends,
  Reach, here, next, started, IsOver,
}

-- Code after code that succeeds.
done_then :
    {W : Type 0} (m n : Exec W (Unit {0})) (w : W)
    → (m w).0 ≡ ok tt
    → ((m >> n) w).1 ≡ (n (m w).1).1
done_then m n w e = ground arith

module _ {T : Types} (kube : KubeLibrary T) (ns : String) (selector : List Requirement) where
  -- The loop between two goroutines.
  abbrev at_rest : List Version → List GroupVersionResource → ℕ → T.World → Pool T
  at_rest versions waiting round w = record {
    versions = versions;
    waiting = waiting;
    round = round;
    returned = false;
    jobs = [];
    world = w;
  }

  abbrev working : Pool T → Job T → T.World → Pool T
  working p j w = record p { jobs = j ∷ []; world = w }

  Reach-trans :
      {p q r : Pool T}
      → Reach kube ns selector p q
      → Reach kube ns selector q r
      → Reach kube ns selector p r
  Reach-trans r here = r
  Reach-trans r (next s st) = next (Reach-trans r s) st

  at_once : {p q : Pool T} → Step kube ns selector p q → Reach kube ns selector p q
  at_once st = next here st

  items-run :
      (vs : List Version) (ks : List GroupVersionResource) (n c : ℕ) (k : GroupVersionResource)
      (items : List T.Object) (w : T.World)
      → Reach kube ns selector
          (working (at_rest vs ks n w) (record { channel = c; kind = k; todo = to_delete items }) w)
          (at_rest vs ks n (delete_items kube ns selector k items w).1)
  unfolding delete_items
  items-run vs ks n c k [] w = at_once (ends _ [] [] _ refl refl)
  items-run vs ks n c k (item ∷ rest) w =
      Reach-trans
        (at_once (
          acts _ [] [] refl (
            deletes (record { channel = c; kind = k; todo = to_delete (item ∷ rest) }) w item rest
              refl)))
        (items-run vs ks n c k rest _)

  listed-runs :
      (vs : List Version) (ks : List GroupVersionResource) (n c : ℕ) (k : GroupVersionResource)
      (r : Returned (List T.Object)) (w : T.World)
      → Reach kube ns selector
          (working (at_rest vs ks n w) (record { channel = c; kind = k; todo = todo_of r }) w)
          (at_rest vs ks n (clean_listed kube ns selector k r w).1)
  unfolding clean_listed delete_items
  listed-runs vs ks n c k (value items) w = items-run vs ks n c k items w
  listed-runs vs ks n c k (failed e) w = items-run vs ks n c k [] w

  kind-runs :
      (vs : List Version) (k : GroupVersionResource) (ks : List GroupVersionResource) (n : ℕ)
      (w : T.World)
      → Reach kube ns selector
          (at_rest vs (k ∷ ks) n w)
          (at_rest vs ks n (clean_kind kube ns selector k w).1)
  unfolding clean_kind in_channel
  kind-runs vs k ks n w =
      let listed = kube.list k ns selector w in
      Reach-trans (at_once (starts (at_rest vs (k ∷ ks) n w) k ks refl (omega arith))) (
        Reach-trans
          (at_once
            (acts _ [] [] refl (lists (record { channel = n; kind = k; todo = to_list }) w refl)))
          (listed-runs vs ks n n k listed.0 listed.1))

  clean_kind-ok :
      (k : GroupVersionResource) (w : T.World) → (clean_kind kube ns selector k w).0 ≡ ok tt
  unfolding clean_kind
  clean_kind-ok k w =
      let listed = kube.list k ns selector w in clean_listed-ok kube ns selector k listed.0 listed.1

  kinds-run :
      (vs : List Version) (v : Version) (names : List String) (n : ℕ) (w : T.World)
      → Reach kube ns selector
          (at_rest vs (kinds_of v names) n w)
          (at_rest vs [] n (clean_kinds kube ns selector v.group v.version names w).1)
  unfolding clean_kinds
  kinds-run vs v [] n w = here
  kinds-run vs v (name ∷ rest) n w =
      let k = kind_of v name in
      let first = clean_kind kube ns selector k in
      let others = clean_kinds kube ns selector v.group v.version rest in
      Reach-trans (kind-runs vs k (kinds_of v rest) n w) (
        subst
          (λ u.
            Reach kube ns selector (at_rest vs (kinds_of v rest) n (first w).1) (at_rest vs [] n u))
          (sym (done_then first others w (clean_kind-ok k w))) (kinds-run vs v rest n (first w).1))

  version-runs :
      (vs : List Version) (v : Version) (r : Returned (List String)) (n : ℕ) (w : T.World)
      → Reach kube ns selector
          (at_rest vs (waiting_of v r) n w)
          (at_rest vs [] n (clean_version kube ns selector v.group v.version r w).1)
  unfolding clean_version
  version-runs vs v (value names) n w = kinds-run vs v names n w
  version-runs vs v (failed e) n w = here

  -- One version: the loop comes to it, and its kinds are cleaned.
  abbrev clean_one : Version → Exec T.World (Unit {0})
  clean_one v w =
      let names = kube.server_resources v.group_version w in
      clean_version kube ns selector v.group v.version names.0 names.1

  one-runs :
      (vs : List Version) (v : Version) (n : ℕ) (w : T.World)
      → Reach kube ns selector (at_rest (v ∷ vs) [] n w) (at_rest vs [] (suc n) (clean_one v w).1)
  one-runs vs v n w =
      let names = kube.server_resources v.group_version w in
      Reach-trans (at_once (next_version (at_rest (v ∷ vs) [] n w) v vs refl refl refl))
        (version-runs vs v names.0 (suc n) names.1)

  -- The loop reaches the world that code leaves, with the versions that are given, in some round.
  abbrev Arrives : List Version → List Version → T.World → T.World → Type 0
  Arrives vs vs' w v =
      (n : ℕ) → (n' : ℕ) × Reach kube ns selector (at_rest vs [] n w) (at_rest vs' [] n' v)

  versions-arrive :
      (group : String) (versions : List (String × String)) (vs : List Version) (w : T.World)
      → Arrives
          (versions_of_group group versions ++ vs)
          vs
          w
          (clean_versions kube ns selector group versions w).1
  unfolding clean_versions
  versions-arrive group [] vs w n = (n, here)
  versions-arrive group ((gv, version) ∷ rest) vs w n =
      let v : Version = record { group = group; group_version = gv; version = version } in
      let first = clean_one v in
      let others = clean_versions kube ns selector group rest in
      let (n', runs) = versions-arrive group rest vs (first w).1 (suc n) in
      let later = versions_of_group group rest ++ vs in
      (
        n',
        Reach-trans (one-runs later v n w) (
            subst
              (λ u.
                Reach kube ns selector (at_rest later [] (suc n) (first w).1) (at_rest vs [] n' u))
              (sym (
                done_then first others w (
                  clean_version-ok kube ns selector group version (kube.server_resources gv w).0
                    (kube.server_resources gv w).1)))
              runs),
      )

  groups-arrive :
      (groups : List ApiGroup) (w : T.World)
      → Arrives (versions_of groups) [] w (clean_groups kube ns selector groups w).1
  unfolding clean_groups
  groups-arrive [] w n = (n, here)
  groups-arrive (g ∷ rest) w n =
      let first = clean_versions kube ns selector g.name g.versions in
      let others = clean_groups kube ns selector rest in
      let (m, runs) = versions-arrive g.name g.versions (versions_of rest) w n in
      let (n', more) = groups-arrive rest (first w).1 m in
      (
        n',
        Reach-trans runs (
            subst
              (λ u.
                Reach kube ns selector (at_rest (versions_of rest) [] m (first w).1)
                  (at_rest [] [] n' u))
              (sym
                (done_then first others w (clean_versions-ok kube ns selector g.name g.versions w)))
              more),
      )

  -- The cleanup in which each goroutine ends before the loop goes on is a way in which the loop and
  -- the goroutines can run: it comes to an end in the same world.
  pub clean_groups-runs :
      (groups : List ApiGroup) (w : T.World)
      → (p : Pool T) × Reach kube ns selector (started groups w) p
        × IsOver p
        × (p.world ≡ (clean_groups kube ns selector groups w).1)
  clean_groups-runs groups w =
      let (n, runs) = groups-arrive groups w 0 in
      (_, next runs (returns _ refl refl refl), (refl, refl), refl)
