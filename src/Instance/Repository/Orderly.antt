-- ===== src/Instance/Repository/Orderly.antt =====
-- server/pkg/instance/repository.go: the applications of one repository, by name and by URL.
use mathlib.Core.List.{Nodup}
use dummy_cd.Base.{
  ℕ, zero, String, ◌≡◌, refl, sym, ap, ◌∙◌, subst, ◌⊎◌, Option, none, some, List, [], ◌∷◌, arith,
  All, All-append, Option-cases, inl, inr, true,
}
use dummy_cd.Go.{Error, Result, continue, Result-cases, ok, err, panic, blocked}
use dummy_cd.Slice.{get_elem?, set}
use dummy_cd.Slice.All.{All-set, All-get, All-swap_remove}
use dummy_cd.Slice.Writes.{get_elem?-set}
use dummy_cd.Libs.{Types}
use dummy_cd.Libs.Charts.{RestConfig}
use dummy_cd.Instance.{Libraries}
use dummy_cd.Instance.Application.{Application, ApplicationSpec}
use dummy_cd.Instance.Repository.{
  RepoState, find_first, find_last, place, add_or_update_application, remove_found,
  delete_application,
}
use dummy_cd.Instance.Repository.Keeps.{add_or_update-place, find_first-state, find_last-state}
use dummy_cd.Instance.Repository.Names.{
  names, names-set, set-none-Nodup, swap_remove-Nodup, find_none-not-mem, append-Nodup,
  find_first-named, OnApp,
}
use dummy_cd.Instance.Repository.Outcomes.{
  Fits, Sets, update-Sets, Appends, add-Appends, Removes, remove-Removes,
}

module _ {T : Types} where
  abbrev pub HasUrl : String → Application T → Type 0
  HasUrl url a = a.url ≡ url

  -- No two applications have the same name, and all have the URL.
  abbrev pub IsOrderly : String → List (Option (Application T)) → Type 0
  IsOrderly url apps = Nodup (names apps) × All (OnApp (HasUrl url)) apps

module _ {T : Types} (libs : Libraries T) (rest : RestConfig) (url : String) where
  Fits-HasUrl :
      (app : ApplicationSpec T) (b : Application T) (o : Option (Application T))
      → app.url ≡ url
      → b.url ≡ url
      → Fits libs rest app b o
      → OnApp (HasUrl url) o
  Fits-HasUrl app b none h k f = tt
  Fits-HasUrl app b (some a) h k f = ground arith

  set-IsOrderly :
      (app : ApplicationSpec T) (b : Application T) (i : ℕ) (apps : List (Option (Application T)))
      (o : Option (Application T))
      → get_elem? apps i ≡ some (some b)
      → b.name ≡ app.name
      → app.url ≡ url
      → Fits libs rest app b o
      → IsOrderly url apps
      → IsOrderly url (set apps i o)
  set-IsOrderly app b i apps none at named home f h =
      (set-none-Nodup apps i h.0, All-set (OnApp (HasUrl url)) apps i none tt h.1)
  set-IsOrderly app b i apps (some a) at named home f h =
      let same : a.name ≡ b.name = ground arith in
      let lives = Fits-HasUrl app b (some a) home (All-get (OnApp (HasUrl url)) apps i at h.1) f in
      (
        subst Nodup (sym (names-set apps i a b at same)) h.0,
        All-set (OnApp (HasUrl url)) apps i (some a) lives h.1,
      )

  Sets-IsOrderly :
      (app : ApplicationSpec T) (b : Application T) (i : ℕ)
      (apps apps' : List (Option (Application T)))
      → get_elem? apps i ≡ some (some b)
      → b.name ≡ app.name
      → app.url ≡ url
      → Sets libs rest app b i apps apps'
      → IsOrderly url apps
      → IsOrderly url apps'
  Sets-IsOrderly app b i apps apps' at named home (inl e) h = subst (IsOrderly url) (sym e) h
  Sets-IsOrderly app b i apps apps' at named home (inr (o, f, e)) h =
      subst (IsOrderly url) (sym e) (set-IsOrderly app b i apps o at named home f h)

  Appends-IsOrderly :
      (app : ApplicationSpec T) (s : RepoState T) (apps' : List (Option (Application T)))
      → (find_first app.name s.repository.apps zero s).0 ≡ ok none
      → app.url ≡ url
      → Appends libs rest app s.repository.apps apps'
      → IsOrderly url s.repository.apps
      → IsOrderly url apps'
  Appends-IsOrderly app s apps' new home (inl e) h = subst (IsOrderly url) (sym e) h
  Appends-IsOrderly app s apps' new home (inr (a, same, e)) h =
      let named : a.name ≡ app.name = ap (λ (x : ApplicationSpec T). x.name) same in
      let lives : a.url ≡ url = ap (λ (x : ApplicationSpec T). x.url) same ∙ home in
      let absent = find_none-not-mem app.name s.repository.apps zero s new in
      subst (IsOrderly url) (sym e) (
        append-Nodup s.repository.apps a (rw named absent) h.0,
        All-append (OnApp (HasUrl url)) s.repository.apps (some a ∷ []) h.1 (lives, tt),
      )

  place-IsOrderly :
      (app : ApplicationSpec T) (o : Option ℕ) (s : RepoState T)
      → (find_first app.name s.repository.apps zero s).0 ≡ ok o
      → app.url ≡ url
      → IsOrderly url s.repository.apps
      → IsOrderly url (place libs rest app o s).1.repository.apps
  unfolding place
  place-IsOrderly app none s found home h =
      Appends-IsOrderly app s _ found home (add-Appends libs rest app s) h
  place-IsOrderly app (some k) s found home h =
      let (i, b, at_k, at, named) = find_first-named app.name s.repository.apps 0 k s found in
      let same : k ≡ i = omega arith in
      rw (same, at)
        (Sets-IsOrderly app b i s.repository.apps _ at named home
          (update-Sets libs rest i b app s at) h)

  -- A search that meets a nil pointer ends the request where it is.
  unfound-state :
      (app : ApplicationSpec T) (s : RepoState T)
      → let r = (find_first app.name s.repository.apps zero s).0 in
        ((e : Error) × (r ≡ err e)) ⊎ ((r ≡ panic) ⊎ (r ≡ blocked))
        → (add_or_update_application libs rest app s).1 ≡ s
  unfolding add_or_update_application
  unfound-state app s (inl (x, e)) =
      ground (arith, find_first-state app.name s.repository.apps zero s)
  unfound-state app s (inr (inl e)) =
      ground (arith, find_first-state app.name s.repository.apps zero s)
  unfound-state app s (inr (inr e)) =
      ground (arith, find_first-state app.name s.repository.apps zero s)

  -- However a request on an application of the URL ends, the names stay distinct.
  pub add_or_update-IsOrderly :
      (app : ApplicationSpec T) (s : RepoState T)
      → app.url ≡ url
      → IsOrderly url s.repository.apps
      → IsOrderly url (add_or_update_application libs rest app s).1.repository.apps
  add_or_update-IsOrderly app s home h =
      elim (Result-cases (find_first app.name s.repository.apps zero s).0) [
        | inl (o, e) ↦
            rw (add_or_update-place libs rest app o s e) (place-IsOrderly app o s e home h)
        | inr other ↦
            subst (λ t. IsOrderly url t.repository.apps) (sym (unfound-state app s other)) h
      ]

  Removes-IsOrderly :
      (a : Application T) (i : ℕ) (apps apps' : List (Option (Application T)))
      → get_elem? apps i ≡ some (some a)
      → Removes libs rest a i apps apps'
      → IsOrderly url apps
      → IsOrderly url apps'
  Removes-IsOrderly a i apps apps' at (inl e) h = subst (IsOrderly url) (sym e) h
  Removes-IsOrderly a i apps apps' at (inr (inl e)) h = subst (IsOrderly url) (sym e) (
      set-IsOrderly a.spec a i apps (some (record a { held = true })) at refl
        (All-get (OnApp (HasUrl url)) apps i at h.1) (inl refl) h)
  Removes-IsOrderly a i apps apps' at (inr (inr e)) h =
      let locked : Option (Application T) = some (record a { held = true }) in
      let l =
        set-IsOrderly a.spec a i apps locked at refl (All-get (OnApp (HasUrl url)) apps i at h.1)
          (inl refl) h in
      subst (IsOrderly url) (sym e) (
        swap_remove-Nodup (set apps i locked) i (get_elem?-set apps i locked at) l.0,
        All-swap_remove (OnApp (HasUrl url)) (set apps i locked) i l.1,
      )

  remove_found-IsOrderly :
      (o : Option ℕ) (s : RepoState T)
      → IsOrderly url s.repository.apps
      → IsOrderly url (remove_found libs rest o s).1.repository.apps
  unfolding remove_found
  remove_found-IsOrderly none s h = h
  remove_found-IsOrderly (some i) s h = elim (Option-cases (get_elem? s.repository.apps i)) [
    | inl e ↦ rw (remove_found, e) h
    | inr (none, e) ↦ rw (remove_found, e) h
    | inr (some a, e) ↦
        rw (remove_found, e)
          (Removes-IsOrderly a i s.repository.apps _ e (remove-Removes libs rest i a s) h)
  ]

  -- However a deletion ends, the names stay distinct.
  pub delete-IsOrderly :
      (name : String) (s : RepoState T)
      → IsOrderly url s.repository.apps
      → IsOrderly url (delete_application libs rest name s).1.repository.apps
  unfolding delete_application
  delete-IsOrderly name s h =
      searched (find_last name s.repository.apps zero none s).0 _
        (sym (find_last-state name s.repository.apps zero none s))
    where
      searched :
          (r : Result (Option ℕ)) (t : RepoState T)
          → s ≡ t
          → IsOrderly url (continue r (remove_found libs rest) t).1.repository.apps
      searched (ok o) t e =
          remove_found-IsOrderly o t (subst (λ u. IsOrderly url u.repository.apps) e h)
      searched (err x) t e = subst (λ u. IsOrderly url u.repository.apps) e h
      searched panic t e = subst (λ u. IsOrderly url u.repository.apps) e h
      searched blocked t e = subst (λ u. IsOrderly url u.repository.apps) e h
