-- ===== src/Raw/Cleanup/Pool/Bounds.antt =====
-- server/pkg/provider/raw.go, cleanResources: how many goroutines of one version run at once.
use dummy_cd.Base.{
  ℕ, suc, ◌+◌, ◌<◌, ◌≤◌, ◌≡◌, refl, subst, ◌⊎◌, String, List, [], ◌∷◌, ◌++◌, nat_eq_iff, arith, inl,
  inr,
}
use dummy_cd.Libs.{Types}
use dummy_cd.Libs.Cluster.{KubeLibrary, ApiGroup, Requirement}
use dummy_cd.Raw.Cleanup.Pool.{
  Job, Pool, to_list, capacity, in_channel, Act, lists, deletes, Step, next_version, starts,
  returns, acts, ends, Reach, here, next, started,
}

module _ {T : Types} where
  in_channel-append :
      (c : ℕ) (before after : List (Job T))
      → in_channel c (before ++ after) ≡ in_channel c before + in_channel c after
  unfolding in_channel
  in_channel-append c [] after = omega arith
  in_channel-append c (j ∷ before) after = ground (arith, in_channel-append c before after)

  -- A goroutine more is a place more in its own channel.
  in_channel-cons :
      (c : ℕ) (j : Job T) (after : List (Job T))
      → (in_channel c (j ∷ after) ≡ in_channel c after)
        ⊎ ((j.channel ≡ c) × (in_channel c (j ∷ after) ≡ suc (in_channel c after)))
  unfolding in_channel
  in_channel-cons c j after = ground (arith, nat_eq_iff j.channel c)

  in_channel-same :
      (c : ℕ) (j j' : Job T) (after : List (Job T))
      → j.channel ≡ j'.channel
      → in_channel c (j ∷ after) ≡ in_channel c (j' ∷ after)
  unfolding in_channel
  in_channel-same c j j' after e = ground arith

module _ {T : Types} {kube : KubeLibrary T} {ns : String} {selector : List Requirement} where
  Act-channel :
      {j : Job T} {w : T.World} {j' : Job T} {v : T.World}
      → Act kube ns selector j w j' v
      → j.channel ≡ j'.channel
  Act-channel (lists j w e) = refl
  Act-channel (deletes j w item rest e) = refl

  Step-bounded :
      {p q : Pool T}
      → Step kube ns selector p q
      → ((c : ℕ) → in_channel c p.jobs ≤ capacity)
      → (c : ℕ) → in_channel c q.jobs ≤ capacity
  Step-bounded (next_version p v rest e f g) h c = h c
  Step-bounded (starts p k rest e room) h c =
      let j : Job T = record { channel = p.round; kind = k; todo = to_list } in
      elim (in_channel-cons c j p.jobs) [
        | inl same ↦ rw same (h c)
        | inr (at, more) ↦ rw more (subst (λ d. in_channel d p.jobs < capacity) at room)
      ]
  Step-bounded (returns p e f g) h c = h c
  Step-bounded (acts p before after {j} {j'} e act) h c =
      let before_now = subst (λ js. in_channel c js ≤ capacity) e (h c) in
      ground (
        arith,
        before_now,
        in_channel-append c before (j ∷ after),
        in_channel-append c before (j' ∷ after),
        in_channel-same c j j' after (Act-channel act),
      )
  Step-bounded (ends p before after j e f) h c =
      let before_now = subst (λ js. in_channel c js ≤ capacity) e (h c) in
      ground (
        arith,
        before_now,
        in_channel-append c before (j ∷ after),
        in_channel-append c before after,
        in_channel-cons c j after,
      )

  -- However the loop and the goroutines of a cleanup are interleaved, and whatever the cluster
  -- answers, at most ten goroutines of one version run at once.
  pub Reach-bounded :
      (groups : List ApiGroup) (w : T.World) {p : Pool T}
      → Reach kube ns selector (started groups w) p
      → (c : ℕ) → in_channel c p.jobs ≤ capacity
  unfolding in_channel
  Reach-bounded groups w here c = omega arith
  Reach-bounded groups w (next r st) c = Step-bounded st (Reach-bounded groups w r) c
