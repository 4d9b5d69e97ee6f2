-- ===== src/Instance/Handler/Tick/Counting.antt =====
-- server/pkg/instance/handler.go, a tick of Handle: the counter of the wait group.
use dummy_cd.Base.{
  All, ℕ, suc, ◌+◌, ◌<◌, ◌≤◌, ◌≡◌, ◌≢◌, refl, subst, ◌⊎◌, inl, inr, false, Option, none, some, List,
  [], ◌∷◌, ◌++◌, if◌then◌else◌, arith,
}
use dummy_cd.Libs.{Types}
use dummy_cd.Instance.{Libraries}
use dummy_cd.Instance.Application.{Application}
use dummy_cd.Instance.Repository.{RepositoryConfig}
use dummy_cd.Instance.Handler.Tick.{
  IsEnded, Job, Tick, starting, ran, signalled, negative_counter, is_counted, started, Act, runs,
  unlocks, Step, enters, passes, starts, starts_freed, meets_busy, meets_busy_at_zero, meets_nil,
  finishes, acts, signals, signals_at_zero, panics, Reach, here, next,
}

module _ {T : Types} where
  -- The goroutines that are still to call wg.Done().
  abbrev pub counted : List (Job T) → ℕ
  counted [] = 0
  counted (j ∷ rest) = let n = counted rest in if is_counted j.phase then suc n else n

  -- The applications whose mutex is held, among those of one repository, and among those of the
  -- repositories that the loop does not pass over.
  abbrev pub busy : List (Option (Application T)) → ℕ
  busy [] = 0
  busy (none ∷ rest) = busy rest
  busy (some a ∷ rest) = let n = busy rest in if a.held then suc n else n

  abbrev pub busy_in : List (RepositoryConfig T) → ℕ
  busy_in [] = 0
  busy_in (r ∷ rest) = let n = busy_in rest in if r.held then n else busy r.apps + n

  counted-append :
      (before after : List (Job T)) → counted (before ++ after) ≡ counted before + counted after
  counted-append [] after = omega arith
  counted-append (j ∷ before) after = ground (arith, counted-append before after)

  pub counted-ended : (jobs : List (Job T)) → All IsEnded jobs → counted jobs ≡ 0
  counted-ended [] h = refl
  counted-ended (j ∷ rest) (e, h) = ground (arith, e, counted-ended rest h)

  -- Each application whose mutex was held at the start may take one from the counter, or is still to
  -- come.
  abbrev pub Sums : ℕ → Tick T → Type 0
  Sums total t =
      let left = busy t.waiting + busy_in t.repos in
      (counted t.jobs + left ≤ t.counter + total) × (left ≤ total) × (t.counter ≤ counted t.jobs)

  abbrev Sound : ℕ → Tick T → Type 0
  Sound total t = (t.crash ≢ some negative_counter) ⊎ (0 < total)

  abbrev pub LoopOver : Tick T → Type 0
  LoopOver t = (t.finished ≡ false) ⊎ ((t.counter ≡ 0) × (t.waiting ≡ []) × (t.repos ≡ []))

module _ {T : Types} {libs : Libraries T} where
  Act-counted :
      {j : Job T} {w : T.World} {j' : Job T} {v : T.World} (after : List (Job T))
      → Act libs j w j' v
      → counted (j' ∷ after) ≡ counted (j ∷ after)
  Act-counted after (runs a a' r w w' e) = refl
  Act-counted after (unlocks a w) = refl

  -- What a step makes of the counter and of what is still to be counted.
  Step-counter : (total : ℕ) {t u : Tick T} → Step libs t u → Sums total t → Sums total u
  Step-counter total (enters t r rest e f g h) b =
      let now = subst (λ l. Sums total (record t { waiting = l })) f b in
      let all = subst (λ l. Sums total (record t { waiting = []; repos = l })) g now in
      ground (arith, all)
  Step-counter total (passes t r rest e f g h) b =
      let all = subst (λ l. Sums total (record t { repos = l })) g b in ground (arith, all)
  Step-counter total (starts t a rest e f g) b =
      let all = subst (λ l. Sums total (record t { waiting = l })) f b in
      let more = counted-append t.jobs (record { app = a; phase = starting } ∷ []) in
      ground (arith, all, more)
  Step-counter total (starts_freed t a rest e f g) b =
      let all = subst (λ l. Sums total (record t { waiting = l })) f b in
      let more =
        counted-append t.jobs (record { app = record a { held = false }; phase = starting } ∷ []) in
      ground (arith, all, more)
  Step-counter total (meets_busy t a rest n e f g h) b =
      let all = subst (λ l. Sums total (record t { waiting = l })) f b in ground (arith, all)
  Step-counter total (meets_busy_at_zero t a rest e f g h) b = b
  Step-counter total (meets_nil t rest e f) b = b
  Step-counter total (finishes t e f g h i) b = b
  Step-counter total (acts t before after {j} {j'} e f act) b =
      let all = subst (λ l. Sums total (record t { jobs = l })) f b in
      ground (
        arith,
        all,
        counted-append before (j ∷ after),
        counted-append before (j' ∷ after),
        Act-counted after act,
      )
  Step-counter total (signals t before after a n e f g) b =
      let all = subst (λ l. Sums total (record t { jobs = l })) f b in
      ground (
        arith,
        all,
        counted-append before (record { app = a; phase = ran } ∷ after),
        counted-append before (record { app = a; phase = signalled } ∷ after),
      )
  Step-counter total (signals_at_zero t before after a e f g) b = b
  Step-counter total (panics t before after a e f g) b = b

  -- Only an application whose mutex is held brings the counter below zero.
  Step-crash :
      (total : ℕ) {t u : Tick T} → Step libs t u → Sums total t → Sound total t → Sound total u
  Step-crash total (enters t r rest e f g h) b c = c
  Step-crash total (passes t r rest e f g h) b c = c
  Step-crash total (starts t a rest e f g) b c = c
  Step-crash total (starts_freed t a rest e f g) b c = c
  Step-crash total (meets_busy t a rest n e f g h) b c = c
  Step-crash total (meets_busy_at_zero t a rest e f g h) b c =
      let all = subst (λ l. Sums total (record t { waiting = l })) f b in inr (ground (arith, all))
  Step-crash total (meets_nil t rest e f) b c = inl (λ h. cc)
  Step-crash total (finishes t e f g h i) b c = c
  Step-crash total (acts t before after e f act) b c = c
  Step-crash total (signals t before after a n e f g) b c = c
  Step-crash total (signals_at_zero t before after a e f g) b c =
      let all = subst (λ l. Sums total (record t { jobs = l })) f b in
      inr (ground (arith, all, counted-append before (record { app = a; phase = ran } ∷ after)))
  Step-crash total (panics t before after a e f g) b c = inl (λ h. cc)

  -- Once the loop has freed the handler's mutex it is over, and the counter is zero.
  Step-loop : {t u : Tick T} → Step libs t u → LoopOver t → LoopOver u
  Step-loop (enters t r rest e f g h) d = ground arith
  Step-loop (passes t r rest e f g h) d = ground arith
  Step-loop (starts t a rest e f g) d = ground arith
  Step-loop (starts_freed t a rest e f g) d = ground arith
  Step-loop (meets_busy t a rest n e f g h) d = ground arith
  Step-loop (meets_busy_at_zero t a rest e f g h) d = d
  Step-loop (meets_nil t rest e f) d = d
  Step-loop (finishes t e f g h i) d = inr (i, g, f)
  Step-loop (acts t before after e f act) d = d
  Step-loop (signals t before after a n e f g) d = ground arith
  Step-loop (signals_at_zero t before after a e f g) d = d
  Step-loop (panics t before after a e f g) d = d

  -- A tick that has come to `t` from its start over the repositories.
  pub Reach-Sums :
      (repos : List (RepositoryConfig T)) (w : T.World) {t : Tick T}
      → Reach libs (started repos w) t
      → Sums (busy_in repos) t
  Reach-Sums repos w here = (omega arith, omega arith, omega arith)
  Reach-Sums repos w (next r st) = Step-counter (busy_in repos) st (Reach-Sums repos w r)

  pub Reach-Sound :
      (repos : List (RepositoryConfig T)) (w : T.World) {t : Tick T}
      → Reach libs (started repos w) t
      → Sound (busy_in repos) t
  Reach-Sound repos w here = inl (λ h. cc)
  Reach-Sound repos w (next r st) =
      Step-crash (busy_in repos) st (Reach-Sums repos w r) (Reach-Sound repos w r)

  pub Reach-LoopOver :
      (repos : List (RepositoryConfig T)) (w : T.World) {t : Tick T}
      → Reach libs (started repos w) t
      → LoopOver t
  Reach-LoopOver repos w here = inl refl
  Reach-LoopOver repos w (next r st) = Step-loop st (Reach-LoopOver repos w r)

  -- However the loop and the goroutines of a tick are interleaved, and however the life cycles end:
  -- where no application of the repositories that are free has its mutex held at the start, the
  -- counter of the wait group is the number of goroutines that are still to call wg.Done(), it never
  -- falls below zero, and when the tick has freed the handler's mutex no such goroutine is left.
  pub Reach-counted :
      (repos : List (RepositoryConfig T)) (w : T.World) {t : Tick T}
      → busy_in repos ≡ 0
      → Reach libs (started repos w) t
      → (t.counter ≡ counted t.jobs)
        × (t.crash ≢ some negative_counter)
        × ((t.finished ≡ false) ⊎ (counted t.jobs ≡ 0))
  Reach-counted repos w none_busy r =
      let b = Reach-Sums repos w r in
      let c = Reach-Sound repos w r in
      let d = Reach-LoopOver repos w r in
      (
        omega arith,
        elim c [ inl sound ↦ sound | inr more ↦ absurd (omega arith) ],
        elim d [ inl going ↦ inl going | inr (zero_now, e, f) ↦ inr (omega arith) ],
      )
