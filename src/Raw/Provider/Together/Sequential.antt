-- ===== src/Raw/Provider/Together/Sequential.antt =====
-- server/pkg/provider/raw.go, Delivery: the delivery whose goroutines run one after another is one of
-- the ways in which they can run.
use mathlib.Core.List.{append_assoc}
use dummy_cd.Base.{String, ◌≡◌, refl, sym, ap, ◌∙◌, subst, inl, inr, List, [], ◌∷◌, ◌++◌, arith}
use dummy_cd.Go.{ok, Result-cases}
use dummy_cd.Libs.{Types}
use dummy_cd.Libs.Files.{FilesLibrary}
use dummy_cd.Libs.Cluster.{KubeLibrary, Labels}
use dummy_cd.Raw.Manifest.{Resource, gvr}
use dummy_cd.Raw.Provider.{apply_resource, deliver_resource, deliver_resources}
use dummy_cd.Raw.Provider.Together.{
  to_get, applied, Job, Pool, jobs_of, started, labelled, gets, applies, Reach, here, next,
}

module _ {T : Types} where
  -- The goroutines as they are left.
  abbrev pub ended_jobs : List (Resource T) → List (Job T)
  ended_jobs [] = []
  ended_jobs (r ∷ rest) = record { resource = r; stage = applied } ∷ ended_jobs rest

module _ {T : Types} (files : FilesLibrary T) (kube : KubeLibrary T) (ns : String)
    (labels : Labels) where
  -- The same state, in other words.
  arrives :
      (start : Pool T) (w : T.World) {jobs jobs' : List (Job T)} {w' : T.World}
      → jobs ≡ jobs'
      → w ≡ w'
      → Reach files kube ns labels start (record { jobs = jobs; world = w })
      → Reach files kube ns labels start (record { jobs = jobs'; world = w' })
  arrives start w {jobs} {jobs'} {w'} e f r =
      subst (λ v. Reach files kube ns labels start (record { jobs = jobs'; world = v })) f
        (subst (λ l. Reach files kube ns labels start (record { jobs = l; world = w })) e r)

  -- The goroutine of one resource, from its Get to its end.
  resource-runs :
      (start : Pool T) (before after : List (Job T)) (r r' : Resource T) (w : T.World)
      → (deliver_resource files kube ns labels r w).0 ≡ ok r'
      → Reach files kube ns labels start
          (record { jobs = before ++ record { resource = r; stage = to_get } ∷ after; world = w })
      → Reach files kube ns labels start (record {
        jobs = before ++ record { resource = r'; stage = applied } ∷ after;
        world = (deliver_resource files kube ns labels r w).1;
      })
  unfolding deliver_resource
  resource-runs start before after r r' w e reached =
      let got = kube.get (gvr r) ns (kube.get_name r.obj) w in
      let done =
        apply_resource files kube ns labels (labelled files kube ns labels r) got.0 got.1 in
      next before after (next before after reached (gets r w))
        (applies _ r' got.0 got.1 done.1 (ap (λ x. (x, done.1)) e))

  resources-run :
      (start : Pool T) (before : List (Job T)) (rs rs' : List (Resource T)) (w : T.World)
      → (deliver_resources files kube ns labels rs w).0 ≡ ok rs'
      → Reach files kube ns labels start (record { jobs = before ++ jobs_of rs; world = w })
      → Reach files kube ns labels start (record {
        jobs = before ++ ended_jobs rs';
        world = (deliver_resources files kube ns labels rs w).1;
      })
  unfolding deliver_resources
  resources-run start before [] rs' w e reached =
      let none_left : rs' ≡ [] = ground arith in
      arrives start w (ap (λ l. before ++ ended_jobs l) (sym none_left)) refl reached
  resources-run start before (r ∷ rest) rs' w e reached =
      let first = deliver_resource files kube ns labels r w in
      elim (Result-cases first.0) [
        | inr bad ↦ ground arith
        | inl (r', f) ↦
            elim (Result-cases (deliver_resources files kube ns labels rest first.1).0) [
              | inr bad ↦ ground arith
              | inl (rest', g) ↦
                  let one = resource-runs start before (jobs_of rest) r r' w f reached in
                  let j' : Job T = record { resource = r'; stage = applied } in
                  let others = deliver_resources files kube ns labels rest first.1 in
                  let moved =
                    arrives start first.1 (sym (append_assoc before (j' ∷ []) (jobs_of rest))) refl
                      one in
                  let all : rs' ≡ r' ∷ rest' = ground arith in
                  let left : others.1 ≡ (deliver_resources files kube ns labels (r ∷ rest) w).1 =
                    ground arith in
                  arrives start others.1
                    (append_assoc before (j' ∷ []) (ended_jobs rest')
                      ∙ ap (λ l. before ++ ended_jobs l) (sym all))
                    left (resources-run start (before ++ j' ∷ []) rest rest' first.1 g moved)
            ]
      ]

  -- The delivery in which each goroutine ends before the next one makes its Get is a way in which the
  -- goroutines can run: they all end, with the resources and in the world that it leaves.
  pub deliver_resources-runs :
      (rs rs' : List (Resource T)) (w : T.World)
      → (deliver_resources files kube ns labels rs w).0 ≡ ok rs'
      → Reach files kube ns labels (started rs w) (record {
        jobs = ended_jobs rs';
        world = (deliver_resources files kube ns labels rs w).1;
      })
  deliver_resources-runs rs rs' w e = resources-run (started rs w) [] rs rs' w e here
