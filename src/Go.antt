-- ===== src/Go.antt =====
-- How the Go code computes: errors as values, calls that may fail, mutexes and panics.
-- The sentinel errors are those of server/pkg/util/errors.go and of the libraries that the code
-- compares errors with.
use dummy_cd.Base.{
  ℕ, String, ◌≡◌, refl, ◌⊎◌, inl, inr, Bool, true, Option, none, some, nat_eq, if◌then◌else◌,
}

pub data Error : Type 0 where
  -- server/pkg/util/errors.go
  no_err_already_up_todate : Error
  err_failed_to_prepare_known_hosts : Error
  err_repository_already_exist : Error
  err_failed_to_create_repository : Error
  err_repository_config_not_found : Error
  err_application_already_exist : Error
  err_application_not_found : Error
  -- git.NoErrAlreadyUpToDate and git.ErrRepositoryAlreadyExists
  git_already_up_to_date : Error
  git_repository_already_exists : Error
  -- an error for which k8sErrors.IsNotFound holds
  not_found : Error
  -- the texts that the code makes by errors.New
  no_one_resource_file_found : Error
  head_revision_is_zero : Error
  namespace_undefined : Error
  -- any other error of a library
  other : String → Error

-- What a call of a library gives back: a value, or an error.
pub data Returned {ℓ} (A : Type ℓ) : Type ℓ where
  value : A → Returned A
  failed : Error → Returned A

-- How a call of the program's own code ends. `blocked` is a loop `for !m.TryLock() {}` on a mutex
-- that is held: the call waits for as long as the mutex stays held.
pub data Result {ℓ} (A : Type ℓ) : Type ℓ where
  ok : A → Result A
  err : Error → Result A
  panic : Result A
  blocked : Result A

-- What holds of the value of a call that succeeds.
abbrev pub OnOk {ℓ} : {A : Type ℓ} → (A → Type 0) → Result A → Type 0
OnOk P (ok a) = P a
OnOk P (err e) = Unit
OnOk P panic = Unit
OnOk P blocked = Unit

-- Code that reads and writes a state. What was written before an error stays written.
abbrev pub Exec {ℓ} : Type ℓ → Type ℓ → Type ℓ
Exec S A = S → Result A × S

-- A call of a library, which acts on the world outside the program.
abbrev pub Call {ℓ} : Type ℓ → Type ℓ → Type ℓ
Call W A = W → Returned A × W

module _ {ℓ} {S A : Type ℓ} where
  abbrev pub pure : A → Exec S A
  pure a s = (ok a, s)

  abbrev pub raise : Error → Exec S A
  raise e s = (err e, s)

  abbrev pub panics : Exec S A
  panics s = (panic, s)

  -- `if err != nil { return err }`
  abbrev pub check : Returned A → Exec S A
  check (value a) s = (ok a, s)
  check (failed e) s = (err e, s)

  -- `*p` of a pointer that may be nil
  abbrev pub deref : Option A → Exec S A
  deref none s = (panic, s)
  deref (some a) s = (ok a, s)

  abbrev pub gets : (S → A) → Exec S A
  gets f s = (ok (f s), s)

  -- A call of a library, to look at its error, and one whose error is returned at once.
  abbrev pub call : Call S A → Exec S (Returned A)
  call c s = (ok (c s).0, (c s).1)

  abbrev pub must : Call S A → Exec S A
  must c s = check (c s).0 (c s).1

module _ {ℓ} {S A B : Type ℓ} where
  abbrev pub continue : Result A → (A → Exec S B) → Exec S B
  continue (ok a) f s = f a s
  continue (err e) f s = (err e, s)
  continue panic f s = (panic, s)
  continue blocked f s = (blocked, s)

  infixl 10 ◌>>=◌ ◌>>◌
  abbrev pub ◌>>=◌ : Exec S A → (A → Exec S B) → Exec S B
  ◌>>=◌ m f s = continue (m s).0 f (m s).1

  abbrev pub ◌>>◌ : Exec S A → Exec S B → Exec S B
  ◌>>◌ m n s = continue (m s).0 (λ _. n) (m s).1

abbrev pub modify : {S : Type 0} → (S → S) → Exec S (Unit {0})
modify f s = (ok tt, f s)

module _ {ℓ} {S A : Type ℓ} where
  abbrev as_returned : Result A → S → Result (Returned A) × S
  as_returned (ok a) s = (ok (value a), s)
  as_returned (err e) s = (ok (failed e), s)
  as_returned panic s = (panic, s)
  as_returned blocked s = (blocked, s)

  -- `x, err := f()` where the code goes on to look at `err`
  abbrev pub attempt : Exec S A → Exec S (Returned A)
  attempt m s = as_returned (m s).0 (m s).1

  abbrev run_deferred : Result A → (S → S) → S → S
  run_deferred (ok a) f s = f s
  run_deferred (err e) f s = f s
  run_deferred panic f s = f s
  run_deferred blocked f s = s

  -- `defer f()` before the rest of a function; a call that never returns runs no deferred call
  abbrev pub deferred : (S → S) → Exec S A → Exec S A
  deferred f m s = ((m s).0, run_deferred (m s).0 f (m s).1)

-- Code on a part of the state.
module _ {S W A : Type 0} where
  abbrev pub zoom : (S → W) → (W → S → S) → Exec W A → Exec S A
  zoom get put m s = ((m (get s)).0, put (m (get s)).1 s)

-- A mutex is the flag that it is held. `for !m.TryLock() {}` and `m.Lock()`:
module _ {S : Type 0} (held : S → Bool) (set : Bool → S → S) where
  abbrev pub lock : Exec S (Unit {0})
  lock s = if held s then (blocked, s) else (ok tt, set true s)

-- plumbing.Hash: its 20 bytes as a number. The zero hash is 0.
abbrev pub Hash : Type 0
Hash = ℕ

abbrev pub zero_hash : Hash
zero_hash = 0

abbrev pub is_zero : Hash → Bool
is_zero h = nat_eq h zero_hash

pub Returned-cases {ℓ} :
    {A : Type ℓ} (r : Returned A) → ((a : A) × (r ≡ value a)) ⊎ ((e : Error) × (r ≡ failed e))
Returned-cases (value a) = inl (a, refl)
Returned-cases (failed e) = inr (e, refl)

-- A call that succeeds has a value; any other ends in one of three ways.
pub Result-cases {ℓ} :
    {A : Type ℓ} (r : Result A)
    → ((a : A) × (r ≡ ok a)) ⊎ (((e : Error) × (r ≡ err e)) ⊎ ((r ≡ panic) ⊎ (r ≡ blocked)))
Result-cases (ok a) = inl (a, refl)
Result-cases (err e) = inr (inl (e, refl))
Result-cases panic = inr (inr (inl refl))
Result-cases blocked = inr (inr (inr refl))
