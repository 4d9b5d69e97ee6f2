-- ===== src/Instance/Handler/Tick/Orders.antt =====
-- server/pkg/instance/handler.go, a tick of Handle: the tick whose goroutines run one after another,
-- and a tick that frees the handler's mutex before the mutexes of the applications.
use mathlib.Core.List.{append_assoc, append-nil}
use dummy_cd.Base.{
  ◌≡◌, refl, sym, subst, ap, ◌∙◌, inl, inr, Bool, true, false, Bool-cases, Option, none, some, List,
  [], ◌∷◌, ◌++◌, if◌then◌else◌, arith,
}
use dummy_cd.Go.{Returned, ok, Result-cases}
use dummy_cd.Libs.{Types}
use dummy_cd.Instance.{Libraries}
use dummy_cd.Instance.Application.{Application}
use dummy_cd.Instance.Lifecycle.{run_life_cycle}
use dummy_cd.Instance.Repository.{RepositoryConfig, run_app}
use dummy_cd.Instance.Handler.{run_apps, run_repository, run_repositories}
use dummy_cd.Instance.Handler.Tick.{
  Phase, signalled, ended, Job, Tick, started, runs, unlocks, enters, passes, starts, finishes,
  acts, signals, Reach, here, next,
}

-- The goroutines of the applications as they are left: where they are late, each is still to free its
-- application's mutex.
abbrev pub left_at : Bool → Phase
left_at late = if late then signalled else ended

module _ {T : Types} where
  abbrev pub jobs_of : Bool → List (Option (Application T)) → List (Job T)
  jobs_of late [] = []
  jobs_of late (none ∷ rest) = jobs_of late rest
  jobs_of late (some a ∷ rest) = record { app = a; phase = left_at late } ∷ jobs_of late rest

  abbrev pub all_jobs : Bool → List (RepositoryConfig T) → List (Job T)
  all_jobs late [] = []
  all_jobs late (r ∷ rest) =
      let more = all_jobs late rest in if r.held then more else jobs_of late r.apps ++ more

  -- The tick between two goroutines.
  abbrev pub at_rest :
      List (RepositoryConfig T) → List (Option (Application T)) → List (Job T) → T.World → Tick T
  at_rest repos waiting jobs w = record {
    repos = repos;
    waiting = waiting;
    jobs = jobs;
    counter = 0;
    finished = false;
    crash = none;
    world = w;
  }

module _ {T : Types} (libs : Libraries T) where
  Reach-trans : {t u v : Tick T} → Reach libs t u → Reach libs u v → Reach libs t v
  Reach-trans r here = r
  Reach-trans r (next s st) = next (Reach-trans r s) st

  -- The same state, in other words.
  arrives :
      {t : Tick T} {repos : List (RepositoryConfig T)} {jobs jobs' : List (Job T)} {w w' : T.World}
      → jobs ≡ jobs'
      → w ≡ w'
      → Reach libs t (at_rest repos [] jobs w)
      → Reach libs t (at_rest repos [] jobs' w')
  arrives {t} {repos} {jobs} {jobs'} {w} {w'} e f r =
      subst (λ v. Reach libs t (at_rest repos [] jobs' v)) f
        (subst (λ l. Reach libs t (at_rest repos [] l w)) e r)

  -- One goroutine from its start to its wg.Done().
  signalled_now :
      (repos : List (RepositoryConfig T)) (rest : List (Option (Application T)))
      (jobs : List (Job T)) (a a' : Application T) (r : Returned (Unit {0})) (w : T.World)
      → a.held ≡ false
      → (run_app a (run_life_cycle libs) w).0 ≡ ok (r, a')
      → Reach libs (at_rest repos (some a ∷ rest) jobs w) (
          at_rest repos rest
            (jobs ++ record { app = a'; phase = signalled } ∷ [])
            (run_app a (run_life_cycle libs) w).1)
  signalled_now repos rest jobs a a' r w free e =
      let over = runs a a' r w _ (ap (λ x. (x, (run_app a (run_life_cycle libs) w).1)) e) in
      next (next (next here (starts _ a rest refl refl free)) (acts _ jobs [] refl refl over))
        (signals _ jobs [] a' 0 refl refl refl)

module _ {T : Types} (libs : Libraries T) where
  -- And from its start to its end, or to its Unlock.
  app-runs :
      (late : Bool) (repos : List (RepositoryConfig T)) (rest : List (Option (Application T)))
      (jobs : List (Job T)) (a a' : Application T) (r : Returned (Unit {0})) (w : T.World)
      → a.held ≡ false
      → (run_app a (run_life_cycle libs) w).0 ≡ ok (r, a')
      → Reach libs (at_rest repos (some a ∷ rest) jobs w) (
          at_rest repos rest
            (jobs ++ record { app = a'; phase = left_at late } ∷ [])
            (run_app a (run_life_cycle libs) w).1)
  app-runs true repos rest jobs a a' r w free e = signalled_now libs repos rest jobs a a' r w free e
  app-runs false repos rest jobs a a' r w free e =
      next (signalled_now libs repos rest jobs a a' r w free e)
        (acts _ jobs [] refl refl (unlocks a' _))

  -- What a run of the goroutines that comes to its end has gone through.
  pub run_apps-cons :
      (a : Application T) (rest apps' : List (Option (Application T))) (w : T.World)
      → (run_apps libs (some a ∷ rest) w).0 ≡ ok apps'
      → let first = run_app a (run_life_cycle libs) w in
        (r : Returned (Unit {0})) × (a' : Application T) × (rest' : List (Option (Application T)))
        × (a.held ≡ false)
        × (first.0 ≡ ok (r, a'))
        × ((run_apps libs rest first.1).0 ≡ ok rest')
        × (apps' ≡ some a' ∷ rest')
        × ((run_apps libs (some a ∷ rest) w).1 ≡ (run_apps libs rest first.1).1)
  unfolding run_apps
  run_apps-cons a rest apps' w h =
      let first = run_app a (run_life_cycle libs) w in
      elim (Result-cases first.0) [
        | inl ((r, a'), e) ↦ elim (Result-cases (run_apps libs rest first.1).0) [
          | inl (rest', f) ↦ (r, a', rest', ground arith, e, f, ground arith, ground arith)
          | inr bad ↦ ground arith
        ]
        | inr bad ↦ ground arith
      ]

  apps-run :
      (late : Bool) (repos : List (RepositoryConfig T)) (apps apps' : List (Option (Application T)))
      (jobs : List (Job T)) (w : T.World)
      → (run_apps libs apps w).0 ≡ ok apps'
      → Reach libs
          (at_rest repos apps jobs w)
          (at_rest repos [] (jobs ++ jobs_of late apps') (run_apps libs apps w).1)
  unfolding run_apps
  apps-run late repos [] apps' jobs w h =
      let none_left : apps' ≡ [] = ground arith in
      arrives libs (cc (append-nil jobs, none_left)) refl here
  apps-run late repos (none ∷ rest) apps' jobs w h = ground arith
  apps-run late repos (some a ∷ rest) apps' jobs w h =
      let (r, a', rest', free, e, f, g, k) = run_apps-cons a rest apps' w h in
      let w1 = (run_app a (run_life_cycle libs) w).1 in
      let j : Job T = record { app = a'; phase = left_at late } in
      let one = app-runs late repos rest jobs a a' r w free e in
      let more = apps-run late repos rest rest' (jobs ++ j ∷ []) w1 f in
      let same : (jobs ++ j ∷ []) ++ jobs_of late rest' ≡ jobs ++ jobs_of late apps' =
        append_assoc jobs (j ∷ []) (jobs_of late rest')
        ∙ ap (λ l. jobs ++ jobs_of late l) (sym g) in
      arrives libs same (sym k) (Reach-trans libs one more)

  run_repositories-cons :
      (r : RepositoryConfig T) (rest repos' : List (RepositoryConfig T)) (w : T.World)
      → (run_repositories libs (r ∷ rest) w).0 ≡ ok repos'
      → let first = run_repository libs r w in
        (r' : RepositoryConfig T) × (rest' : List (RepositoryConfig T)) × (first.0 ≡ ok r')
        × ((run_repositories libs rest first.1).0 ≡ ok rest')
        × (repos' ≡ r' ∷ rest')
        × ((run_repositories libs (r ∷ rest) w).1 ≡ (run_repositories libs rest first.1).1)
  unfolding run_repositories
  run_repositories-cons r rest repos' w h =
      let first = run_repository libs r w in
      elim (Result-cases first.0) [
        | inl (r', e) ↦ elim (Result-cases (run_repositories libs rest first.1).0) [
          | inl (rest', f) ↦ (r', rest', e, f, ground arith, ground arith)
          | inr bad ↦ ground arith
        ]
        | inr bad ↦ ground arith
      ]

  -- A repository whose mutex is free.
  run_repository-free :
      (r r' : RepositoryConfig T) (w : T.World)
      → r.held ≡ false
      → (run_repository libs r w).0 ≡ ok r'
      → ((run_apps libs r.apps w).0 ≡ ok r'.apps)
        × (r'.held ≡ false)
        × ((run_repository libs r w).1 ≡ (run_apps libs r.apps w).1)
  unfolding run_repository
  run_repository-free r r' w free h = elim (Result-cases (run_apps libs r.apps w).0) [
    | inl (apps', e) ↦ ground arith
    | inr bad ↦ ground arith
  ]

  run_repository-held :
      (r r' : RepositoryConfig T) (w : T.World)
      → r.held ≡ true
      → (run_repository libs r w).0 ≡ ok r'
      → (r' ≡ r) × ((run_repository libs r w).1 ≡ w)
  unfolding run_repository
  run_repository-held r r' w held h = ground arith

  repo-runs :
      (late : Bool) (r r' : RepositoryConfig T) (rest : List (RepositoryConfig T))
      (jobs : List (Job T)) (w : T.World)
      → (run_repository libs r w).0 ≡ ok r'
      → Reach libs
          (at_rest (r ∷ rest) [] jobs w)
          (at_rest rest [] (jobs ++ all_jobs late (r' ∷ [])) (run_repository libs r w).1)
  repo-runs late r r' rest jobs w h = elim (Bool-cases r.held) [
    | inl held ↦
        let (same, e) = run_repository-held r r' w held h in
        let none_more : all_jobs late (r' ∷ []) ≡ [] = ground (arith, ap (λ x. x.held) same) in
        arrives libs (sym (append-nil jobs) ∙ ap (λ l. jobs ++ l) (sym none_more)) (sym e)
          (next here (passes _ r rest refl refl refl held))
    | inr free ↦
        let (e, f, g) = run_repository-free r r' w free h in
        let its : jobs_of late r'.apps ≡ all_jobs late (r' ∷ []) =
          ground (arith, append-nil (jobs_of late r'.apps)) in
        arrives libs (ap (λ l. jobs ++ l) its) (sym g) (
          Reach-trans libs (next here (enters _ r rest refl refl refl free))
            (apps-run late rest r.apps r'.apps jobs w e))
  ]

  all_jobs-cons :
      (late : Bool) (r : RepositoryConfig T) (rest : List (RepositoryConfig T))
      → all_jobs late (r ∷ []) ++ all_jobs late rest ≡ all_jobs late (r ∷ rest)
  all_jobs-cons late r rest = elim (Bool-cases r.held) [
    | inl held ↦ ground arith
    | inr free ↦ ground (arith, append-nil (jobs_of late r.apps))
  ]

  repos-run :
      (late : Bool) (repos repos' : List (RepositoryConfig T)) (jobs : List (Job T)) (w : T.World)
      → (run_repositories libs repos w).0 ≡ ok repos'
      → Reach libs
          (at_rest repos [] jobs w)
          (at_rest [] [] (jobs ++ all_jobs late repos') (run_repositories libs repos w).1)
  unfolding run_repositories
  repos-run late [] repos' jobs w h =
      let none_left : repos' ≡ [] = ground arith in
      arrives libs (sym (append-nil jobs) ∙ ap (λ l. jobs ++ all_jobs late l) (sym none_left)) refl
        here
  repos-run late (r ∷ rest) repos' jobs w h =
      let (r', rest', e, f, g, k) = run_repositories-cons r rest repos' w h in
      let w1 = (run_repository libs r w).1 in
      let mine = all_jobs late (r' ∷ []) in
      let same : (jobs ++ mine) ++ all_jobs late rest' ≡ jobs ++ all_jobs late repos' =
        append_assoc jobs mine (all_jobs late rest')
        ∙ ap (λ l. jobs ++ l) (all_jobs-cons late r' rest' ∙ ap (all_jobs late) (sym g)) in
      arrives libs same (sym k) (
        Reach-trans libs (repo-runs late r r' rest jobs w e)
          (repos-run late rest rest' (jobs ++ mine) w1 f))

  -- Where the tick whose goroutines run one after another comes to its end: it is one of the orders in which
  -- a tick can run. In one such order each goroutine ends before the handler's mutex is freed; in
  -- another every goroutine still holds the mutex of its application when the handler's mutex is freed. Both
  -- leave the applications and the world as that tick does.
  pub run_repositories-runs :
      (late : Bool) (repos repos' : List (RepositoryConfig T)) (w : T.World)
      → (run_repositories libs repos w).0 ≡ ok repos'
      → Reach libs
          (started repos w)
          (record (at_rest [] [] (all_jobs late repos') (run_repositories libs repos w).1) {
            finished = true;
          })
  run_repositories-runs late repos repos' w h =
      next (repos-run late repos repos' [] w h) (finishes _ refl refl refl refl refl)

  -- The same for the applications of one repository that is free.
  pub run_apps-runs :
      (late : Bool) (r : RepositoryConfig T) (apps' : List (Option (Application T))) (w : T.World)
      → r.held ≡ false
      → (run_apps libs r.apps w).0 ≡ ok apps'
      → Reach libs
          (started (r ∷ []) w)
          (record (at_rest [] [] (jobs_of late apps') (run_apps libs r.apps w).1) {
            finished = true;
          })
  run_apps-runs late r apps' w free h =
      next
        (Reach-trans libs (next here (enters _ r [] refl refl refl free))
          (apps-run late [] r.apps apps' [] w h))
        (finishes _ refl refl refl refl refl)
