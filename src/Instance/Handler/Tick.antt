-- ===== src/Instance/Handler/Tick.antt =====
-- server/pkg/instance/handler.go, a tick of Handle with its goroutines. The loop goes over the
-- repositories whose mutexes are free and starts a goroutine for each application whose mutex is
-- free; then it waits for the counter of the wait group to be zero, and frees the handler's mutex. A
-- goroutine runs the life cycle, calls wg.Done() and frees the application's mutex, in that order,
-- since deferred calls run from the last to the first. A mutex that is held when the tick starts may
-- be freed by the goroutine of an earlier tick before the loop comes to its application. A life cycle
-- is one step.
pub mod Counting
pub mod Busy
pub mod Progress
pub mod Orders
use dummy_cd.Base.{
  ℕ, zero, suc, ◌+◌, ◌≡◌, ◌≢◌, String, Bool, true, false, Option, none, some, List, [], ◌∷◌, ◌++◌,
  All, if◌then◌else◌,
}
use dummy_cd.Go.{Returned, Result, ok, panic, blocked}
use dummy_cd.Libs.{Types}
use dummy_cd.Instance.{Libraries}
use dummy_cd.Instance.Application.{Application}
use dummy_cd.Instance.Lifecycle.{run_life_cycle}
use dummy_cd.Instance.Repository.{RepositoryConfig, run_app}

-- A goroutine: before its life cycle, and after it, after wg.Done(), and after the Unlock.
pub data Phase : Type 0 where
  starting : Phase
  ran : Phase
  signalled : Phase
  ended : Phase

-- A goroutine and its application, whose mutex it holds until it has ended.
pub record Job (T : Types) : Type 0 where
  pub app : Application T
  pub phase : Phase

-- What ends the process: wg.Done() where the counter is zero, an entry of the applications that is a
-- nil pointer, and a panic of a life cycle.
pub data Crash : Type 0 where
  negative_counter : Crash
  nil_pointer : Crash
  in_life_cycle : Crash

-- The repositories that are to come and the applications of the present one that are to come, while
-- the loop holds that one's mutex, which nothing else asks for in a tick; the goroutines; the counter of the wait group; that the loop has freed the handler's mutex.
pub record Tick (T : Types) : Type 0 where
  pub repos : List (RepositoryConfig T)
  pub waiting : List (Option (Application T))
  pub jobs : List (Job T)
  pub counter : ℕ
  pub finished : Bool
  pub crash : Option Crash
  pub world : T.World

-- The goroutine is still to call wg.Done().
abbrev pub is_counted : Phase → Bool
is_counted starting = true
is_counted ran = true
is_counted signalled = false
is_counted ended = false

-- The goroutine holds the mutex of its application.
abbrev pub is_holding : Phase → Bool
is_holding starting = true
is_holding ran = true
is_holding signalled = true
is_holding ended = false

module _ {T : Types} where
  -- A tick whose loop has just taken the handler's mutex.
  abbrev pub started : List (RepositoryConfig T) → T.World → Tick T
  started repos w = record {
    repos = repos;
    waiting = [];
    jobs = [];
    counter = 0;
    finished = false;
    crash = none;
    world = w;
  }

  -- The application of a goroutine as the next tick meets it.
  abbrev pub met : Job T → Option (Application T)
  met j = some (record (j.app) { held = is_holding j.phase })

  abbrev pub IsEnded : Job T → Type 0
  IsEnded j = j.phase ≡ ended

  -- The loop has freed the handler's mutex, and no goroutine is left.
  abbrev pub IsOver : Tick T → Type 0
  IsOver t = (t.finished ≡ true) × All IsEnded t.jobs

module _ {T : Types} (libs : Libraries T) where
  -- What a goroutine of an application does next, in a world; its first action runs the life cycle
  -- and logs its error.
  pub data Act : Job T → T.World → Job T → T.World → Type 0 where
    runs :
        (a a' : Application T) (r : Returned (Unit {0})) (w w' : T.World)
        → run_app a (run_life_cycle libs) w ≡ (ok (r, a'), w')
        → Act (record { app = a; phase = starting }) w (record { app = a'; phase = ran }) w'
    unlocks :
        (a : Application T) (w : T.World)
        → Act (record { app = a; phase = signalled }) w (record { app = a; phase = ended }) w

  pub data Step : Tick T → Tick T → Type 0 where
    -- the loop comes to a repository whose mutex is free
    enters :
        (t : Tick T) (r : RepositoryConfig T) (rest : List (RepositoryConfig T))
        → t.crash ≡ none
        → t.waiting ≡ []
        → t.repos ≡ r ∷ rest
        → r.held ≡ false
        → Step t (record t { repos = rest; waiting = r.apps })
    -- and to one whose mutex is held
    passes :
        (t : Tick T) (r : RepositoryConfig T) (rest : List (RepositoryConfig T))
        → t.crash ≡ none
        → t.waiting ≡ []
        → t.repos ≡ r ∷ rest
        → r.held ≡ true
        → Step t (record t { repos = rest })
    -- `wg.Add(1)` and `go func(...)`
    starts :
        (t : Tick T) (a : Application T) (rest : List (Option (Application T)))
        → t.crash ≡ none
        → t.waiting ≡ some a ∷ rest
        → a.held ≡ false
        → Step t (record t {
          waiting = rest;
          jobs = t.jobs ++ record { app = a; phase = starting } ∷ [];
          counter = suc t.counter;
        })
    -- the same for an application whose mutex was held when the tick started, and has been freed by
    -- the goroutine of an earlier tick
    starts_freed :
        (t : Tick T) (a : Application T) (rest : List (Option (Application T)))
        → t.crash ≡ none
        → t.waiting ≡ some a ∷ rest
        → a.held ≡ true
        → Step t (record t {
          waiting = rest;
          jobs = t.jobs ++ record { app = record a { held = false }; phase = starting } ∷ [];
          counter = suc t.counter;
        })
    -- `wg.Done()` for an application whose mutex is held
    meets_busy :
        (t : Tick T) (a : Application T) (rest : List (Option (Application T))) (n : ℕ)
        → t.crash ≡ none
        → t.waiting ≡ some a ∷ rest
        → a.held ≡ true
        → t.counter ≡ suc n
        → Step t (record t { waiting = rest; counter = n })
    meets_busy_at_zero :
        (t : Tick T) (a : Application T) (rest : List (Option (Application T)))
        → t.crash ≡ none
        → t.waiting ≡ some a ∷ rest
        → a.held ≡ true
        → t.counter ≡ 0
        → Step t (record t { crash = some negative_counter })
    meets_nil :
        (t : Tick T) (rest : List (Option (Application T)))
        → t.crash ≡ none
        → t.waiting ≡ none ∷ rest
        → Step t (record t { crash = some nil_pointer })
    -- `wg.Wait()` returns, and the handler's mutex is freed
    finishes :
        (t : Tick T)
        → t.crash ≡ none
        → t.repos ≡ []
        → t.waiting ≡ []
        → t.finished ≡ false
        → t.counter ≡ 0
        → Step t (record t { finished = true })
    acts :
        (t : Tick T) (before after : List (Job T)) {j j' : Job T} {w : T.World}
        → t.crash ≡ none
        → t.jobs ≡ before ++ j ∷ after
        → Act j t.world j' w
        → Step t (record t { jobs = before ++ j' ∷ after; world = w })
    -- `wg.Done()` of a goroutine
    signals :
        (t : Tick T) (before after : List (Job T)) (a : Application T) (n : ℕ)
        → t.crash ≡ none
        → t.jobs ≡ before ++ record { app = a; phase = ran } ∷ after
        → t.counter ≡ suc n
        → Step t (record t {
          jobs = before ++ record { app = a; phase = signalled } ∷ after;
          counter = n;
        })
    signals_at_zero :
        (t : Tick T) (before after : List (Job T)) (a : Application T)
        → t.crash ≡ none
        → t.jobs ≡ before ++ record { app = a; phase = ran } ∷ after
        → t.counter ≡ 0
        → Step t (record t { crash = some negative_counter })
    panics :
        (t : Tick T) (before after : List (Job T)) (a : Application T)
        → t.crash ≡ none
        → t.jobs ≡ before ++ record { app = a; phase = starting } ∷ after
        → (run_app a (run_life_cycle libs) t.world).0 ≡ panic
        → Step t (record t { crash = some in_life_cycle })

  pub data Reach (t : Tick T) : Tick T → Type 0 where
    here : Reach t t
    next : {u v : Tick T} → Reach t u → Step u v → Reach t v
