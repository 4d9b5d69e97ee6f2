-- ===== src/Instance/Repository/Names.antt =====
-- server/pkg/instance/repository.go: the names of the applications in a list, nil pointers left out.
use mathlib.Core.List.{
  Mem, Perm, Nodup, Nodup-cons, mem-cons, not-mem-nil, perm_append_singleton, filter_map,
  filter_map-cons-none, filter_map-cons-some,
}
use mathlib.Core.List.Perm
use mathlib.Core.Logic.Or
use dummy_cd.Base.{
  ℕ, zero, suc, ◌+◌, String, ◌≡◌, refl, sym, ap, ◌∙◌, subst, Option, none, some, List, [], ◌∷◌,
  ◌++◌, arith, eq_iff, ◌==◌, Bool-cases, inl, inr,
}
use dummy_cd.Go.{ok}
use dummy_cd.Slice.{get_elem?, set, swap_remove}
use dummy_cd.Slice.Removal.{swap_remove-perm}
use dummy_cd.Libs.{Types}
use dummy_cd.Instance.Application.{Application}
use dummy_cd.Instance.Repository.{find_first}

module _ {T : Types} where
  abbrev pub names : List (Option (Application T)) → List String
  names [] = []
  names (none ∷ rest) = names rest
  names (some a ∷ rest) = a.name ∷ names rest

  abbrev name_of : Option (Application T) → Option String
  name_of none = none
  name_of (some a) = some a.name

  names-filter_map : (apps : List (Option (Application T))) → filter_map name_of apps ≡ names apps
  unfolding filter_map
  names-filter_map [] = refl
  names-filter_map (none ∷ rest) =
      filter_map-cons-none name_of none rest refl ∙ names-filter_map rest
  names-filter_map (some a ∷ rest) =
      filter_map-cons-some name_of (some a) rest refl ∙ ap (◌∷◌ a.name) (names-filter_map rest)

  names-append :
      (apps : List (Option (Application T))) (a : Application T)
      → names (apps ++ some a ∷ []) ≡ names apps ++ a.name ∷ []
  names-append [] a = refl
  names-append (none ∷ rest) a = names-append rest a
  names-append (some b ∷ rest) a = ap (◌∷◌ b.name) (names-append rest a)

  -- The place of an application is taken by one of the same name, or by a nil pointer.
  pub names-set :
      (apps : List (Option (Application T))) (i : ℕ) (a b : Application T)
      → get_elem? apps i ≡ some (some b)
      → a.name ≡ b.name
      → names (set apps i (some a)) ≡ names apps
  names-set [] i a b h e = cc
  names-set (none ∷ rest) zero a b h e = cc
  names-set (some c ∷ rest) zero a b h e = let same : c ≡ b = cc in rw (same, e) refl
  names-set (none ∷ rest) (suc i) a b h e = names-set rest i a b h e
  names-set (some c ∷ rest) (suc i) a b h e = ap (◌∷◌ c.name) (names-set rest i a b h e)

  mem-names-set_none :
      (apps : List (Option (Application T))) (i : ℕ) {n : String}
      → Mem n (names (set apps i none))
      → Mem n (names apps)
  mem-names-set_none [] i m = m
  mem-names-set_none (none ∷ rest) zero m = m
  mem-names-set_none (some c ∷ rest) zero m = mem-cons.1 (Or.inr m)
  mem-names-set_none (none ∷ rest) (suc i) m = mem-names-set_none rest i m
  mem-names-set_none (some c ∷ rest) (suc i) m =
      mem-cons.1 (Or.imp (λ e. e) (λ m'. mem-names-set_none rest i m') (mem-cons.0 m))

  pub set-none-Nodup :
      (apps : List (Option (Application T))) (i : ℕ)
      → Nodup (names apps)
      → Nodup (names (set apps i none))
  set-none-Nodup [] i h = h
  set-none-Nodup (none ∷ rest) zero h = h
  set-none-Nodup (some c ∷ rest) zero h = (Nodup-cons.0 h).1
  set-none-Nodup (none ∷ rest) (suc i) h = set-none-Nodup rest i h
  set-none-Nodup (some c ∷ rest) (suc i) h =
      let (new, distinct) = Nodup-cons.0 h in
      Nodup-cons.1 ((λ m. new (mem-names-set_none rest i m)), set-none-Nodup rest i distinct)

  pub names-swap_remove :
      (apps : List (Option (Application T))) (i : ℕ) {a : Application T}
      → get_elem? apps i ≡ some (some a)
      → Perm (names apps) (a.name ∷ names (swap_remove apps i))
  names-swap_remove apps i {a} h =
      subst (λ xs. Perm xs (a.name ∷ names (swap_remove apps i))) (names-filter_map apps)
        (subst (λ xs. Perm (filter_map name_of apps) xs)
          (filter_map-cons-some name_of (some a) (swap_remove apps i) refl
            ∙ ap (◌∷◌ a.name) (names-filter_map (swap_remove apps i)))
          (Perm.filter_map name_of (swap_remove-perm apps i h)))

  pub swap_remove-Nodup :
      (apps : List (Option (Application T))) (i : ℕ) {a : Application T}
      → get_elem? apps i ≡ some (some a)
      → Nodup (names apps)
      → Nodup (names (swap_remove apps i))
  swap_remove-Nodup apps i h distinct =
      (Nodup-cons.0 (Perm.nodup (names-swap_remove apps i h) distinct)).1

  -- A name that is not found is not there.
  pub find_none-not-mem :
      {S : Type 0} (name : String) (apps : List (Option (Application T))) (j : ℕ) (s : S)
      → (find_first name apps j s).0 ≡ ok none
      → ¬ Mem name (names apps)
  unfolding find_first
  find_none-not-mem name [] j s h = not-mem-nil
  find_none-not-mem name (none ∷ rest) j s h = cc
  find_none-not-mem name (some a ∷ rest) j s h = λ m.
      Or.elim (λ x. absurd x) (mem-cons.0 m) (λ e. ground (arith, eq_iff a.name name, e))
        (λ m'. find_none-not-mem name rest (suc j) s (ground arith) m')

  pub append-Nodup :
      (apps : List (Option (Application T))) (a : Application T)
      → ¬ Mem a.name (names apps)
      → Nodup (names apps)
      → Nodup (names (apps ++ some a ∷ []))
  append-Nodup apps a new h =
      subst Nodup (sym (names-append apps a))
        (Perm.nodup (Perm.symm (perm_append_singleton a.name (names apps))) (Nodup-cons.1 (new, h)))

  -- What a search finds is an application of the name, at the index.
  pub find_first-named :
      {S : Type 0} (name : String) (apps : List (Option (Application T))) (j k : ℕ) (s : S)
      → (find_first name apps j s).0 ≡ ok (some k)
      → (i : ℕ) × (b : Application T) × (k ≡ j + i)
        × (get_elem? apps i ≡ some (some b))
        × (b.name ≡ name)
  unfolding find_first
  find_first-named name [] j k s h = cc
  find_first-named name (none ∷ rest) j k s h = cc
  find_first-named name (some a ∷ rest) j k s h = elim (Bool-cases (a.name == name)) [
    | inl e ↦ (0, a, ground arith, refl, (eq_iff a.name name).0 e)
    | inr e ↦
        let (i, b, at, here, named) = find_first-named name rest (suc j) k s (ground arith) in
        (suc i, b, omega arith, here, named)
  ]

  -- A predicate at every application, nil pointers left out.
  module _ (P : Application T → Type 0) where
    abbrev pub OnApp : Option (Application T) → Type 0
    OnApp none = Unit
    OnApp (some a) = P a
