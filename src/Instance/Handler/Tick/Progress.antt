-- ===== src/Instance/Handler/Tick/Progress.antt =====
-- server/pkg/instance/handler.go, a tick of Handle: the loop and its goroutines come to an end.
use mathlib.Core.WellFounded.{Acc}
use dummy_cd.Base.{
  ℕ, zero, suc, ◌+◌, ◌<◌, ◌≡◌, ◌≢◌, refl, ap, ◌∙◌, ◌⊎◌, inl, inr, Bool, true, false, Bool-cases,
  Option, none, some, Option-cases, List, [], ◌∷◌, ◌++◌, All, arith,
}
use dummy_cd.Go.{Error, Exec, Result-cases, err, blocked}
use dummy_cd.Libs.{Types}
use dummy_cd.Instance.{Libraries}
use dummy_cd.Instance.Application.{Application, AppState}
use dummy_cd.Instance.Lifecycle.{run_life_cycle}
use dummy_cd.Instance.Repository.{RepositoryConfig, run_app}
use dummy_cd.Instance.Handler.Tick.{
  Phase, starting, ran, signalled, ended, Job, Tick, Crash, IsEnded, IsOver, started, Act, runs,
  unlocks, Step, enters, passes, starts, starts_freed, meets_busy, meets_busy_at_zero, meets_nil,
  finishes, acts, signals, signals_at_zero, panics, Reach,
}
use dummy_cd.Instance.Handler.Tick.Counting.{Reach-Sums}
use dummy_cd.Instance.Handler.Tick.Counting.{counted-ended}

-- Code whose error is looked at gives no error back.
run_app-returns :
    {T : Types} (a : Application T) (m : Exec (AppState T) (Unit {0})) (w : T.World) (e : Error)
    → (run_app a m w).0 ≢ err e
run_app-returns a m w e h = elim (Result-cases (m (record { app = a; world = w })).0) [
  | inl (x, f) ↦ ground arith
  | inr (inl (x, f)) ↦ ground arith
  | inr (inr (inl f)) ↦ ground arith
  | inr (inr (inr f)) ↦ ground arith
]

Phase-cases : (p : Phase) → (p ≡ ended) ⊎ (p ≢ ended)
Phase-cases starting = inr (λ h. cc)
Phase-cases ran = inr (λ h. cc)
Phase-cases signalled = inr (λ h. cc)
Phase-cases ended = inl refl

-- What is left of a goroutine, and of the loop once there is no repository to come.
abbrev phase_work : Phase → ℕ
phase_work starting = 3
phase_work ran = 2
phase_work signalled = 1
phase_work ended = 0

abbrev loop_work : Bool → Option Crash → ℕ
loop_work true none = 1
loop_work true (some c) = 0
loop_work false none = 2
loop_work false (some c) = 1

crash-work : (b : Bool) (c : Crash) → loop_work b (some c) < loop_work b none
crash-work true c = omega arith
crash-work false c = omega arith

finish-work : loop_work true none < loop_work false none
finish-work = omega arith

module _ {T : Types} where
  -- The goroutines have ended, or one of them has not.
  unended :
      (jobs : List (Job T))
      → All IsEnded jobs
        ⊎ ((before : List (Job T)) × (a : Application T) × (p : Phase) × (after : List (Job T))
            × (jobs ≡ before ++ record { app = a; phase = p } ∷ after)
            × (p ≢ ended))
  unended [] = inl tt
  unended (j ∷ rest) = elim (Phase-cases j.phase) [
    | inr running ↦ inr ([], j.app, j.phase, rest, refl, running)
    | inl over ↦ elim (unended rest) [
      | inl all ↦ inl (over, all)
      | inr (before, a, p, after, e, running) ↦
          inr (j ∷ before, a, p, after, ap (λ l. j ∷ l) e, running)
    ]
  ]

  -- What is left of a tick: of the applications that are to come, of the goroutines, of the loop.
  abbrev app_work : List (Option (Application T)) → ℕ
  app_work [] = 0
  app_work (x ∷ rest) = 4 + app_work rest

  abbrev repo_work : List (RepositoryConfig T) → ℕ
  repo_work [] = 0
  repo_work (r ∷ rest) = suc (app_work r.apps + repo_work rest)

  abbrev job_work : List (Job T) → ℕ
  job_work [] = 0
  job_work (j ∷ rest) = phase_work j.phase + job_work rest

  abbrev work : Tick T → ℕ
  work t =
      loop_work t.finished t.crash + (repo_work t.repos + (app_work t.waiting + job_work t.jobs))

  job_work-append :
      (before after : List (Job T)) → job_work (before ++ after) ≡ job_work before + job_work after
  job_work-append [] after = omega arith
  job_work-append (j ∷ before) after = ground (arith, job_work-append before after)

  crashed-work :
      (t : Tick T) (c : Crash) → t.crash ≡ none → work (record t { crash = some c }) < work t
  crashed-work t c e = let less = crash-work t.finished c in rw e (omega arith)

module _ {T : Types} (libs : Libraries T) where
  -- The application of a goroutine that waits for a mutex that stays held, in its life cycle.
  abbrev pub IsWaiting : Tick T → Type 0
  IsWaiting t =
      (before : List (Job T)) × (a : Application T) × (after : List (Job T)) × (t.jobs
        ≡ before ++ record { app = a; phase = starting } ∷ after)
      × ((run_app a (run_life_cycle libs) t.world).0 ≡ blocked)

  Act-work :
      {j : Job T} {w : T.World} {j' : Job T} {v : T.World}
      → Act libs j w j' v
      → phase_work j'.phase < phase_work j.phase
  Act-work (runs a a' r w v e) = omega arith
  Act-work (unlocks a w) = omega arith

  Step-work : {t u : Tick T} → Step libs t u → work u < work t
  Step-work (enters t r rest e f g h) = rw (f, g) (omega arith)
  Step-work (passes t r rest e f g h) = rw (f, g) (omega arith)
  Step-work (starts t a rest e f g) =
      let more = job_work-append t.jobs (record { app = a; phase = starting } ∷ []) in
      rw f (omega arith)
  Step-work (starts_freed t a rest e f g) =
      let free : Application T = record a { held = false } in
      let more = job_work-append t.jobs (record { app = free; phase = starting } ∷ []) in
      rw f (omega arith)
  Step-work (meets_busy t a rest n e f g h) = rw f (omega arith)
  Step-work (meets_busy_at_zero t a rest e f g h) = crashed-work t _ e
  Step-work (meets_nil t rest e f) = crashed-work t _ e
  Step-work (finishes t e f g h i) = rw (e, h) (omega (arith, finish-work))
  Step-work (acts t before after {j} {j'} e f act) =
      let d = job_work-append before (j ∷ after) in
      let d' = job_work-append before (j' ∷ after) in let less = Act-work act in rw f (omega arith)
  Step-work (signals t before after a n e f g) =
      let d = job_work-append before (record { app = a; phase = ran } ∷ after) in
      let d' = job_work-append before (record { app = a; phase = signalled } ∷ after) in
      rw f (omega arith)
  Step-work (signals_at_zero t before after a e f g) = crashed-work t _ e
  Step-work (panics t before after a e f g) = crashed-work t _ e

  ending : (n : ℕ) (t : Tick T) → work t < n → Acc (λ u t. Step libs t u) t
  ending zero t h = absurd (omega arith)
  ending (suc n) t h = Acc.intro t (λ u st. ending n u (omega (arith, Step-work st)))

  -- A goroutine that has not ended can go on, or it waits in its life cycle.
  goes_on :
      (t : Tick T) (before after : List (Job T)) (a : Application T) (p : Phase) (n : ℕ)
      → t.crash ≡ none
      → t.jobs ≡ before ++ record { app = a; phase = p } ∷ after
      → p ≢ ended
      → t.counter ≡ n
      → ((u : Tick T) × Step libs t u) ⊎ IsWaiting t
  goes_on t before after a starting n e f g h =
      elim (Result-cases (run_app a (run_life_cycle libs) t.world).0) [
        | inl ((r, a'), k) ↦ inl (
          _,
          acts t before after e f (
              runs a a' r t.world (run_app a (run_life_cycle libs) t.world).1
                (ap (λ x. (x, (run_app a (run_life_cycle libs) t.world).1)) k)),
        )
        | inr (inl (x, k)) ↦ absurd (run_app-returns a (run_life_cycle libs) t.world x k)
        | inr (inr (inl k)) ↦ inl (_, panics t before after a e f k)
        | inr (inr (inr k)) ↦ inr (before, a, after, f, k)
      ]
  goes_on t before after a ran zero e f g h = inl (_, signals_at_zero t before after a e f h)
  goes_on t before after a ran (suc n) e f g h = inl (_, signals t before after a n e f h)
  goes_on t before after a signalled n e f g h =
      inl (_, acts t before after e f (unlocks a t.world))
  goes_on t before after a ended n e f g h = absurd (g refl)

  meets :
      (t : Tick T) (a : Application T) (rest : List (Option (Application T))) (n : ℕ)
      → t.crash ≡ none
      → t.waiting ≡ some a ∷ rest
      → a.held ≡ true
      → t.counter ≡ n
      → (u : Tick T) × Step libs t u
  meets t a rest zero e f g h = (_, meets_busy_at_zero t a rest e f g h)
  meets t a rest (suc n) e f g h = (_, meets_busy t a rest n e f g h)

  -- The loop can go on where no goroutine is left, or the tick is over.
  loop_goes_on :
      (t : Tick T) (repos : List (RepositoryConfig T)) (waiting : List (Option (Application T)))
      (n : ℕ)
      → t.crash ≡ none
      → All IsEnded t.jobs
      → t.repos ≡ repos
      → t.waiting ≡ waiting
      → t.counter ≡ n
      → (waiting ≡ [] → repos ≡ [] → n ≡ 0)
      → ((u : Tick T) × Step libs t u) ⊎ IsOver t
  loop_goes_on t repos (none ∷ rest) n e d f g h z = inl (_, meets_nil t rest e g)
  loop_goes_on t repos (some a ∷ rest) n e d f g h z = elim (Bool-cases a.held) [
    | inl held ↦ inl (meets t a rest n e g held h)
    | inr free ↦ inl (_, starts t a rest e g free)
  ]
  loop_goes_on t (r ∷ rest) [] n e d f g h z = elim (Bool-cases r.held) [
    | inl held ↦ inl (_, passes t r rest e g f held)
    | inr free ↦ inl (_, enters t r rest e g f free)
  ]
  loop_goes_on t [] [] n e d f g h z = elim (Bool-cases t.finished) [
    | inl over ↦ inr (over, d)
    | inr going ↦ inl (_, finishes t e f g going (h ∙ z refl refl))
  ]

  Reach-progress :
      (repos : List (RepositoryConfig T)) (w : T.World) {t : Tick T}
      → Reach libs (started repos w) t
      → ((u : Tick T) × Step libs t u) ⊎ (IsOver t ⊎ ((t.crash ≢ none) ⊎ IsWaiting t))
  Reach-progress repos w {t} r = elim (Option-cases t.crash) [
    | inr (c, e) ↦ inr (inr (inl (λ h. cc)))
    | inl e ↦ elim (unended t.jobs) [
      | inr (before, a, p, after, f, running) ↦
          elim (goes_on t before after a p t.counter e f running refl) [
            | inl step ↦ inl step
            | inr waits ↦ inr (inr (inr waits))
          ]
      | inl all ↦
          elim (loop_goes_on t t.repos t.waiting t.counter e all refl refl refl
            (λ f g. ground (arith, Reach-Sums repos w r, counted-ended t.jobs all, f, g))) [
              | inl step ↦ inl step
              | inr over ↦ inr (inl over)
            ]
    ]
  ]

  -- Whatever a tick that has been started over some repositories has come to, however the life cycles
  -- end: no order of its steps goes on for ever from there, and a step of the loop or of a goroutine
  -- is possible, or the tick is over, with the handler's mutex freed and no goroutine left, or the
  -- process has ended, or a goroutine waits for a mutex in its life cycle.
  pub Reach-ends :
      (repos : List (RepositoryConfig T)) (w : T.World) {t : Tick T}
      → Reach libs (started repos w) t
      → Acc (λ u t. Step libs t u) t
        × (((u : Tick T) × Step libs t u) ⊎ (IsOver t ⊎ ((t.crash ≢ none) ⊎ IsWaiting t)))
  Reach-ends repos w {t} r = (ending (suc (work t)) t (omega arith), Reach-progress repos w r)
