-- ===== src/Instance/Repository/Removed.antt =====
-- server/pkg/instance/repository.go, DeleteApplication: what a deletion that succeeds leaves.
use mathlib.Core.List.{Mem, Nodup, Nodup-cons, mem-cons, not-mem-nil}
use mathlib.Core.List.Perm
use mathlib.Core.Logic.Or
use dummy_cd.Base.{
  ℕ, zero, suc, ◌+◌, String, ◌≡◌, refl, sym, subst, ◌⊎◌, true, Option, none, some, List, [], ◌∷◌,
  arith, eq_iff, ◌==◌, Bool-cases, inl, inr,
}
use dummy_cd.Go.{Result-cases, ok}
use dummy_cd.Slice.{get_elem?, set, swap_remove}
use dummy_cd.Slice.Writes.{get_elem?-set}
use dummy_cd.Libs.{Types}
use dummy_cd.Libs.Charts.{RestConfig}
use dummy_cd.Instance.{Libraries}
use dummy_cd.Instance.Application.{Application}
use dummy_cd.Instance.Repository.{
  RepoState, find_last, remove_application, remove_found, delete_application,
}
use dummy_cd.Instance.Repository.Keeps.{find_last-state}
use dummy_cd.Instance.Repository.Names.{names, names-set, names-swap_remove}

module _ {T : Types} {S : Type 0} (name : String) (s : S) where
  -- The search ends with the index that it came with, or with that of an application of the name.
  find_last-named :
      (apps : List (Option (Application T))) (j k : ℕ) (last : Option ℕ)
      → (find_last name apps j last s).0 ≡ ok (some k)
      → (last ≡ some k)
        ⊎ ((i : ℕ) × (b : Application T) × (k ≡ j + i)
            × (get_elem? apps i ≡ some (some b))
            × (b.name ≡ name))
  unfolding find_last
  find_last-named [] j k last h = inl (ground arith)
  find_last-named (none ∷ rest) j k last h = cc
  find_last-named (some a ∷ rest) j k last h = elim (Bool-cases (a.name == name)) [
    | inl e ↦ elim (find_last-named rest (suc j) k (some j) (ground arith)) [
      | inl here ↦ inr (0, a, ground arith, refl, (eq_iff a.name name).0 e)
      | inr (i, b, at, there, named) ↦ inr (suc i, b, omega arith, there, named)
    ]
    | inr e ↦ elim (find_last-named rest (suc j) k last (ground arith)) [
      | inl before ↦ inl before
      | inr (i, b, at, there, named) ↦ inr (suc i, b, omega arith, there, named)
    ]
  ]

  find_last-none :
      (apps : List (Option (Application T))) (j : ℕ) (last : Option ℕ)
      → (find_last name apps j last s).0 ≡ ok none
      → (last ≡ none) × ¬ Mem name (names apps)
  unfolding find_last
  find_last-none [] j last h = (ground arith, not-mem-nil)
  find_last-none (none ∷ rest) j last h = cc
  find_last-none (some a ∷ rest) j last h = elim (Bool-cases (a.name == name)) [
    | inl e ↦
        let never = (find_last-none rest (suc j) (some j) (ground arith)).0 in absurd (ground arith)
    | inr e ↦
        let (before, absent) = find_last-none rest (suc j) last (ground arith) in
        (
          before,
          λ m.
              Or.elim (λ x. absurd x) (mem-cons.0 m)
                (λ same. ground (arith, eq_iff a.name name, same)) absent,
        )
  ]

module _ {T : Types} (libs : Libraries T) (rest : RestConfig) where
  remove_done :
      (i : ℕ) (a : Application T) (s : RepoState T)
      → (remove_application libs rest i a s).0 ≡ ok tt
      → (remove_application libs rest i a s).1.repository.apps
        ≡ swap_remove (set s.repository.apps i (some (record a { held = true }))) i
  unfolding remove_application
  remove_done i a s h = ground arith

  -- The name of the application that is removed is not there any more.
  gone :
      (i : ℕ) (a : Application T) (apps : List (Option (Application T)))
      → get_elem? apps i ≡ some (some a)
      → Nodup (names apps)
      → ¬ Mem a.name (names (swap_remove (set apps i (some (record a { held = true }))) i))
  gone i a apps at distinct =
      let locked : Application T = record a { held = true } in
      let left = names (swap_remove (set apps i (some locked)) i) in
      let distinct' = subst Nodup (sym (names-set apps i locked a at refl)) distinct in
      let p =
        names-swap_remove (set apps i (some locked)) i (get_elem?-set apps i (some locked) at) in
      (Nodup-cons.0 (Perm.nodup p distinct')).0

  remove_found-absent :
      (name : String) (i : ℕ) (b : Application T) (s : RepoState T)
      → get_elem? s.repository.apps i ≡ some (some b)
      → b.name ≡ name
      → Nodup (names s.repository.apps)
      → (remove_found libs rest (some i) s).0 ≡ ok tt
      → ¬ Mem name (names (remove_found libs rest (some i) s).1.repository.apps)
  unfolding remove_found
  remove_found-absent name i b s at named distinct h =
      let done : (remove_application libs rest i b s).0 ≡ ok tt = ground arith in
      rw at (
        rw (remove_done i b s done) (
          subst
            (λ n.
              ¬ Mem n
                (names (swap_remove (set s.repository.apps i (some (record b { held = true }))) i)))
            named (gone i b s.repository.apps at distinct)))

  remove_searched-absent :
      (name : String) (o : Option ℕ) (s : RepoState T)
      → (find_last name s.repository.apps zero none s).0 ≡ ok o
      → Nodup (names s.repository.apps)
      → (remove_found libs rest o s).0 ≡ ok tt
      → ¬ Mem name (names (remove_found libs rest o s).1.repository.apps)
  unfolding remove_found
  remove_searched-absent name none s e distinct h =
      (find_last-none name s s.repository.apps zero none e).1
  remove_searched-absent name (some k) s e distinct h =
      elim (find_last-named name s s.repository.apps 0 k none e) [
        | inl before ↦ cc
        | inr (i, b, at_k, at, named) ↦
            let same : i ≡ k = omega arith in
            remove_found-absent name k b s
              (subst (λ n. get_elem? s.repository.apps n ≡ some (some b)) same at) named distinct h
      ]

  -- In a repository whose applications have distinct names, a deletion that succeeds leaves no
  -- application of the name.
  pub delete_application-absent :
      (name : String) (s : RepoState T)
      → Nodup (names s.repository.apps)
      → (delete_application libs rest name s).0 ≡ ok tt
      → ¬ Mem name (names (delete_application libs rest name s).1.repository.apps)
  unfolding delete_application
  delete_application-absent name s distinct h =
      elim (Result-cases (find_last name s.repository.apps zero none s).0) [
        | inl (o, e) ↦
            let kept = find_last-state name s.repository.apps zero none s in
            rw (e, kept) (remove_searched-absent name o s e distinct (ground (arith, kept)))
        | inr (inl (x, e)) ↦ ground arith
        | inr (inr (inl e)) ↦ ground arith
        | inr (inr (inr e)) ↦ ground arith
      ]
