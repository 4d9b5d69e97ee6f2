-- ===== src/Instance/Handler/Cleanups.antt =====
-- server/pkg/provider/raw.go, the cleanup that a raw delivery starts, in the handler: its end is an
-- event of its own, for one application of one repository.
use mathlib.Core.List.{Nodup}
use dummy_cd.Base.{
  ℕ, zero, suc, String, ◌≡◌, refl, sym, ap, subst, Option, none, some, List, [], ◌∷◌, All, map,
}
use dummy_cd.Libs.{Types}
use dummy_cd.Raw.Cleanup.{finish_cleanup}
use dummy_cd.Instance.{Libraries}
use dummy_cd.Instance.Application.{
  Application, AppState, DeliveryProvider, helm_provider, raw_provider,
}
use dummy_cd.Instance.Repository.{RepositoryConfig}
use dummy_cd.Instance.Repository.Names.{names, OnApp}
use dummy_cd.Instance.Repository.Orderly.{HasUrl, IsOrderly}

module _ {T : Types} (libs : Libraries T) where
  open libs use {helm as helm_lib, kube}

  -- The cleanup of an application, if one is under way.
  unfoldable pub end_provider : DeliveryProvider T → AppState T → AppState T
  end_provider (helm_provider p) s = s
  end_provider (raw_provider p) s =
      let t =
        finish_cleanup kube s.app.current_revision (helm_lib.hash_string s.app.current_revision)
          (record { provider = p; world = s.world }) in
      record {
        app = record (s.app) { delivery_provider = raw_provider t.provider };
        world = t.world;
      }

  -- That of the application at an index, if there is one.
  unfoldable pub end_in_apps :
      ℕ → List (Option (Application T)) → T.World → List (Option (Application T)) × T.World
  unfolding end_provider
  end_in_apps j [] w = ([], w)
  end_in_apps zero (none ∷ rest) w = (none ∷ rest, w)
  end_in_apps zero (some a ∷ rest) w =
      let s = end_provider a.delivery_provider (record { app = a; world = w }) in
      (some s.app ∷ rest, s.world)
  end_in_apps (suc j) (x ∷ rest) w = let more = end_in_apps j rest w in (x ∷ more.0, more.1)

  -- In the repository at an index.
  unfoldable pub end_in_repos :
      ℕ → ℕ → List (RepositoryConfig T) → T.World → List (RepositoryConfig T) × T.World
  unfolding end_in_apps
  end_in_repos i j [] w = ([], w)
  end_in_repos zero j (r ∷ rest) w =
      let done = end_in_apps j r.apps w in (record r { apps = done.0 } ∷ rest, done.1)
  end_in_repos (suc i) j (r ∷ rest) w = let more = end_in_repos i j rest w in (r ∷ more.0, more.1)

  end_provider-spec :
      (p : DeliveryProvider T) (s : AppState T) → (end_provider p s).app.spec ≡ s.app.spec
  unfolding end_provider
  end_provider-spec (helm_provider p) s = refl
  end_provider-spec (raw_provider p) s = refl

  end_in_apps-names :
      (j : ℕ) (apps : List (Option (Application T))) (w : T.World)
      → names (end_in_apps j apps w).0 ≡ names apps
  unfolding end_in_apps
  end_in_apps-names j [] w = refl
  end_in_apps-names zero (none ∷ rest) w = refl
  end_in_apps-names zero (some a ∷ rest) w =
      ap (λ x. x.name ∷ names rest) (end_provider-spec a.delivery_provider _)
  end_in_apps-names (suc j) (none ∷ rest) w = end_in_apps-names j rest w
  end_in_apps-names (suc j) (some a ∷ rest) w = ap (λ l. a.name ∷ l) (end_in_apps-names j rest w)

  end_in_apps-urls :
      (url : String) (j : ℕ) (apps : List (Option (Application T))) (w : T.World)
      → All (OnApp (HasUrl url)) apps
      → All (OnApp (HasUrl url)) (end_in_apps j apps w).0
  unfolding end_in_apps
  end_in_apps-urls url j [] w h = h
  end_in_apps-urls url zero (none ∷ rest) w h = h
  end_in_apps-urls url zero (some a ∷ rest) w (h, all) =
      (subst (λ x. x.url ≡ url) (sym (end_provider-spec a.delivery_provider _)) h, all)
  end_in_apps-urls url (suc j) (x ∷ rest) w (h, all) = (h, end_in_apps-urls url j rest w all)

  -- The URLs of the repositories stay, and the applications of each stay in order.
  pub end_in_repos-urls :
      (i j : ℕ) (repos : List (RepositoryConfig T)) (w : T.World)
      → map (λ r. r.settings.url) (end_in_repos i j repos w).0 ≡ map (λ r. r.settings.url) repos
  unfolding end_in_repos
  end_in_repos-urls i j [] w = refl
  end_in_repos-urls zero j (r ∷ rest) w = refl
  end_in_repos-urls (suc i) j (r ∷ rest) w =
      ap (λ l. r.settings.url ∷ l) (end_in_repos-urls i j rest w)

  pub end_in_repos-IsOrderly :
      (i j : ℕ) (repos : List (RepositoryConfig T)) (w : T.World)
      → All (λ r. IsOrderly r.settings.url r.apps) repos
      → All (λ r. IsOrderly r.settings.url r.apps) (end_in_repos i j repos w).0
  unfolding end_in_repos
  end_in_repos-IsOrderly i j [] w h = h
  end_in_repos-IsOrderly zero j (r ∷ rest) w (h, all) = (
    (
      subst Nodup (sym (end_in_apps-names j r.apps w)) h.0,
      end_in_apps-urls r.settings.url j r.apps w h.1,
    ),
    all,
  )
  end_in_repos-IsOrderly (suc i) j (r ∷ rest) w (h, all) =
      (h, end_in_repos-IsOrderly i j rest w all)
