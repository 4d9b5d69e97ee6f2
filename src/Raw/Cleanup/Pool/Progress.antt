-- ===== src/Raw/Cleanup/Pool/Progress.antt =====
-- server/pkg/provider/raw.go, cleanResources: the loop and its goroutines come to an end.
use mathlib.Core.WellFounded.{Acc}
use dummy_cd.Base.{
  ℕ, zero, suc, ◌+◌, ◌<◌, ◌≡◌, refl, ◌⊎◌, String, Bool, true, false, List, [], ◌∷◌, ◌++◌, arith,
  inl, inr,
}
use dummy_cd.Go.{Returned, value, failed}
use dummy_cd.Libs.{Types}
use dummy_cd.Libs.Cluster.{KubeLibrary, Requirement}
use dummy_cd.Raw.Cleanup.Pool.{
  Todo, to_list, to_delete, Job, Pool, in_channel, Act, lists, deletes, Step, next_version, starts,
  returns, acts, ends, IsOver, todo_of,
}

abbrev length : {A : Type 0} → List A → ℕ
length [] = 0
length (x ∷ rest) = suc (length rest)

module _ {T : Types} where
  -- The Lists and the Deletes that the goroutines are to make, and their ends.
  abbrev lists_left : Todo T → ℕ
  lists_left to_list = 1
  lists_left (to_delete items) = 0

  abbrev deletes_left : Todo T → ℕ
  deletes_left to_list = 0
  deletes_left (to_delete items) = suc (length items)

  abbrev total : (Todo T → ℕ) → List (Job T) → ℕ
  total f [] = 0
  total f (j ∷ rest) = f j.todo + total f rest

  total-append :
      (f : Todo T → ℕ) (before after : List (Job T))
      → total f (before ++ after) ≡ total f before + total f after
  total-append f [] after = omega arith
  total-append f (j ∷ before) after = ground (arith, total-append f before after)

  abbrev loop_left : Pool T → ℕ
  loop_left p = elim p.returned [ true ↦ length p.versions | false ↦ suc (length p.versions) ]

  abbrev kinds_left : Pool T → ℕ
  kinds_left p = (length p.waiting + length p.waiting) + total lists_left p.jobs

  abbrev items_left : Pool T → ℕ
  items_left p = total deletes_left p.jobs

  -- A step makes one of the three smaller, and leaves those before it.
  abbrev IsLess : Pool T → Pool T → Type 0
  IsLess q p =
      (loop_left q < loop_left p)
      ⊎ (((loop_left q ≡ loop_left p) × (kinds_left q < kinds_left p))
          ⊎ ((loop_left q ≡ loop_left p)
              × (kinds_left q ≡ kinds_left p)
              × (items_left q < items_left p)))

-- A goroutine that has its list has no List to make.
lists_done : (T : Types) (r : Returned (List T.Object)) → lists_left {T = T} (todo_of r) ≡ 0
lists_done T (value items) = refl
lists_done T (failed e) = refl

module _ {T : Types} (kube : KubeLibrary T) (ns : String) (selector : List Requirement) where
  -- A goroutine can always go on.
  goes_on :
      (p : Pool T) (j : Job T) (rest : List (Job T)) (todo : Todo T)
      → p.jobs ≡ j ∷ rest
      → j.todo ≡ todo
      → (q : Pool T) × Step kube ns selector p q
  goes_on p j rest to_list e f = (_, acts p [] rest e (lists j p.world f))
  goes_on p j rest (to_delete []) e f = (_, ends p [] rest j e f)
  goes_on p j rest (to_delete (item ∷ items)) e f =
      (_, acts p [] rest e (deletes j p.world item items f))

  -- Whatever a cleanup has come to: a step of the loop or of a goroutine is possible, or the loop has
  -- returned and no goroutine runs.
  pub Step-progress : (p : Pool T) → ((q : Pool T) × Step kube ns selector p q) ⊎ IsOver p
  unfolding in_channel
  Step-progress p = go p.jobs p.waiting p.versions p.returned refl refl refl refl
    where
      go :
          (jobs : _) (waiting : _) (versions : _) (returned : Bool)
          → p.jobs ≡ jobs
          → p.waiting ≡ waiting
          → p.versions ≡ versions
          → p.returned ≡ returned
          → ((q : Pool T) × Step kube ns selector p q) ⊎ IsOver p
      go (j ∷ rest) waiting versions returned e f g h = inl (goes_on p j rest j.todo e refl)
      go [] (k ∷ rest) versions returned e f g h = inl (_, starts p k rest f (rw e (omega arith)))
      go [] [] versions true e f g h = inr (h, e)
      go [] [] [] false e f g h = inl (_, returns p h g f)
      go [] [] (v ∷ rest) false e f g h = inl (_, next_version p v rest h g f)

  action_less :
      {j : Job T} {w : T.World} {j' : Job T} {v : T.World}
      → Act kube ns selector j w j' v
      → (lists_left j'.todo < lists_left j.todo)
        ⊎ ((lists_left j'.todo ≡ lists_left j.todo) × (deletes_left j'.todo < deletes_left j.todo))
  action_less (lists j w e) = inl (ground (arith, lists_done T (kube.list j.kind ns selector w).0))
  action_less (deletes j w item rest e) = inr (rw e (refl, omega arith))

  Step-IsLess : {p q : Pool T} → Step kube ns selector p q → IsLess q p
  Step-IsLess (next_version p v rest e f g) = inl (rw (e, f) (omega arith))
  Step-IsLess (starts p k rest e room) = inr (inl (refl, rw e (omega arith)))
  Step-IsLess (returns p e f g) = inl (rw (e, f) (omega arith))
  Step-IsLess (acts p before after {j} {j'} e act) =
      let l = total-append lists_left before (j ∷ after) in
      let l' = total-append lists_left before (j' ∷ after) in
      let d = total-append deletes_left before (j ∷ after) in
      let d' = total-append deletes_left before (j' ∷ after) in
      elim (action_less act) [
        | inl less ↦ inr (inl (refl, rw e (omega arith)))
        | inr (same, less) ↦ inr (inr (refl, rw e (omega arith), rw e (omega arith)))
      ]
  Step-IsLess (ends p before after j e f) =
      let l = total-append lists_left before (j ∷ after) in
      let l' = total-append lists_left before after in
      let d = total-append deletes_left before (j ∷ after) in
      let d' = total-append deletes_left before after in
      inr (inr (refl, rw e (ground arith), rw e (ground arith)))

  ending :
      (a b c : ℕ) (p : Pool T)
      → loop_left p < a
      → kinds_left p < b
      → items_left p < c
      → Acc (λ q p. Step kube ns selector p q) p
  ending zero b c p h k l = absurd (omega arith)
  ending (suc a) zero c p h k l = absurd (omega arith)
  ending (suc a) (suc b) zero p h k l = absurd (omega arith)
  ending (suc a) (suc b) (suc c) p h k l = Acc.intro p (λ q st. elim (Step-IsLess st) [
    | inl less ↦
        ending a (suc (kinds_left q)) (suc (items_left q)) q (omega arith) (omega arith)
          (omega arith)
    | inr (inl (e, less)) ↦
        ending (suc a) b (suc (items_left q)) q (omega arith) (omega arith) (omega arith)
    | inr (inr (e, f, less)) ↦ ending (suc a) (suc b) c q (omega arith) (omega arith) (omega arith)
  ])

  -- A cleanup, with its goroutines, ends, in whatever order its steps are taken and whatever the
  -- cluster answers: no order of steps goes on for ever.
  pub Step-terminates : (p : Pool T) → Acc (λ q p. Step kube ns selector p q) p
  Step-terminates p =
      ending (suc (loop_left p)) (suc (kinds_left p)) (suc (items_left p)) p (omega arith)
        (omega arith) (omega arith)
