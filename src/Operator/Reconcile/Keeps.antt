-- ===== src/Operator/Reconcile/Keeps.antt =====
-- operator/controllers: what every call of the reconcilers keeps, a Reconcile keeps.
use dummy_cd.Base.{ℕ, true, false, arith, Bool, not, if◌then◌else◌}
use dummy_cd.Go.{
  Error, Returned, value, failed, Result, ok, err, panic, blocked, Call, Exec, continue, check,
  must, pure, ◌>>=◌, ◌>>◌,
}
use dummy_cd.Operator.Resources.{Application, Repository, NamespacedName, OperatorLibrary}
use dummy_cd.Operator.Reconcile.{
  ensure_app_finalizer, sync_application, finalize_application, reconcile_found_application,
  reconcile_application, ensure_repo_finalizer, sync_repository, finalize_repository,
  reconcile_found_repository, reconcile_repository, ignore_not_found, deletion_message,
  repository_deletion_message, app_finalizer, repo_finalizer,
}
use dummy_cd.Pb

pub record Keeps {W : Type 0} (lib : OperatorLibrary W) (P : W → Type 0) : Type 0 where
  pub get_application : (n : NamespacedName) (w : W) → P w → P (lib.get_application n w).1
  pub update_application :
      (n : NamespacedName) (a : Application) (w : W) → P w → P (lib.update_application n a w).1
  pub get_repository : (n : NamespacedName) (w : W) → P w → P (lib.get_repository n w).1
  pub update_repository :
      (n : NamespacedName) (r : Repository) (w : W) → P w → P (lib.update_repository n r w).1
  pub rpc_add_repository : (m : Pb.Repository) (w : W) → P w → P (lib.rpc_add_repository m w).1
  pub rpc_delete_repository :
      (m : Pb.Repository) (w : W) → P w → P (lib.rpc_delete_repository m w).1
  pub rpc_add_or_update_application :
      (m : Pb.Application) (w : W) → P w → P (lib.rpc_add_or_update_application m w).1
  pub rpc_delete_application :
      (m : Pb.Application) (w : W) → P w → P (lib.rpc_delete_application m w).1

module _ {W : Type 0} (P : W → Type 0) where
  -- Code that keeps the predicate, however it ends.
  abbrev Kept : {X : Type 0} → Exec W X → Type 0
  Kept m = (w : W) → P w → P (m w).1

  continue-keeps :
      {X Y : Type 0} (r : Result X) (f : X → Exec W Y)
      → ((x : X) → Kept (f x))
      → (w : W) → P w
      → P (continue r f w).1
  continue-keeps (ok x) f k w h = k x w h
  continue-keeps (err e) f k w h = h
  continue-keeps panic f k w h = h
  continue-keeps blocked f k w h = h

  bind-Kept :
      {X Y : Type 0} (m : Exec W X) (f : X → Exec W Y)
      → Kept m
      → ((x : X) → Kept (f x))
      → Kept (m >>= f)
  bind-Kept m f k l w h = continue-keeps (m w).0 f l (m w).1 (k w h)

  check-keeps : {X : Type 0} (r : Returned X) (w : W) → P w → P (check r w).1
  check-keeps (value x) w h = h
  check-keeps (failed e) w h = h

  must-Kept : {X : Type 0} (c : Call W X) → ((w : W) → P w → P (c w).1) → Kept (must c)
  must-Kept c k w h = check-keeps (c w).0 (c w).1 (k w h)

  if-Kept : {X : Type 0} (b : Bool) (m n : Exec W X) → Kept m → Kept n → Kept (if b then m else n)
  if-Kept true m n k l = k
  if-Kept false m n k l = l

  ignore_not_found-Kept : (e : Error) → Kept (ignore_not_found e)
  unfolding ignore_not_found
  ignore_not_found-Kept e w h = ground arith

module _ {W : Type 0} {lib : OperatorLibrary W} {P : W → Type 0} (keeps : Keeps lib P)
    (req : NamespacedName) where
  ensure_app_finalizer-Kept : (a : Application) → Kept P (ensure_app_finalizer lib req a)
  unfolding ensure_app_finalizer
  ensure_app_finalizer-Kept a =
      if-Kept P _ _ _ (λ _ h. h) (must-Kept P _ (keeps.update_application req _))

  sync_application-Kept : (a : Application) → Kept P (sync_application lib req a)
  unfolding sync_application
  sync_application-Kept a =
      bind-Kept P (ensure_app_finalizer lib req a) _ (ensure_app_finalizer-Kept a)
        (λ _. bind-Kept P _ _ (keeps.rpc_add_or_update_application _) (λ _. (λ _ h. h)))

  finalize_application-Kept : (a : Application) → Kept P (finalize_application lib req a)
  unfolding finalize_application
  finalize_application-Kept a =
      let told : Exec W (Unit {0}) = lib.rpc_delete_application (deletion_message req.name a) in
      let stored : Call W (Unit {0}) =
        lib.update_application req
          (record a { meta = lib.remove_finalizer app_finalizer a.meta }) in
      let after : Exec W ℕ = must stored >> pure 0 in
      if-Kept P (not (lib.contains_finalizer a.meta app_finalizer)) (pure 0) (told >> after)
        (λ _ h. h)
        (bind-Kept P told (λ _. after) (keeps.rpc_delete_application (deletion_message req.name a))
          (λ _.
            bind-Kept P (must stored) (λ _. pure 0)
              (must-Kept P stored (keeps.update_application req _)) (λ _ _ h. h)))

  reconcile_found_application-Kept :
      (r : Returned Application) → Kept P (reconcile_found_application lib req r)
  unfolding reconcile_found_application
  reconcile_found_application-Kept (failed e) = ignore_not_found-Kept P e
  reconcile_found_application-Kept (value a) =
      if-Kept P (not a.meta.deleting) _ _ (sync_application-Kept a) (finalize_application-Kept a)

  pub reconcile_application-keeps : (w : W) → P w → P (reconcile_application lib req w).1
  unfolding reconcile_application
  reconcile_application-keeps w h =
      reconcile_found_application-Kept (lib.get_application req w).0 (lib.get_application req w).1
        (keeps.get_application req w h)

  ensure_repo_finalizer-Kept : (a : Repository) → Kept P (ensure_repo_finalizer lib req a)
  unfolding ensure_repo_finalizer
  ensure_repo_finalizer-Kept a =
      if-Kept P _ _ _ (λ _ h. h) (must-Kept P _ (keeps.update_repository req _))

  sync_repository-Kept : (a : Repository) → Kept P (sync_repository lib req a)
  unfolding sync_repository
  sync_repository-Kept a =
      bind-Kept P (ensure_repo_finalizer lib req a) _ (ensure_repo_finalizer-Kept a)
        (λ _. bind-Kept P _ _ (keeps.rpc_add_repository _) (λ _. (λ _ h. h)))

  finalize_repository-Kept : (a : Repository) → Kept P (finalize_repository lib req a)
  unfolding finalize_repository
  finalize_repository-Kept a =
      let told : Exec W (Unit {0}) =
        lib.rpc_delete_repository (repository_deletion_message req.name) in
      let stored : Call W (Unit {0}) =
        lib.update_repository req
          (record a { meta = lib.remove_finalizer repo_finalizer a.meta }) in
      let after : Exec W ℕ = must stored >> pure 0 in
      if-Kept P (not (lib.contains_finalizer a.meta repo_finalizer)) (pure 0) (told >> after)
        (λ _ h. h)
        (bind-Kept P told (λ _. after)
          (keeps.rpc_delete_repository (repository_deletion_message req.name))
          (λ _.
            bind-Kept P (must stored) (λ _. pure 0)
              (must-Kept P stored (keeps.update_repository req _)) (λ _ _ h. h)))

  reconcile_found_repository-Kept :
      (r : Returned Repository) → Kept P (reconcile_found_repository lib req r)
  unfolding reconcile_found_repository
  reconcile_found_repository-Kept (failed e) = ignore_not_found-Kept P e
  reconcile_found_repository-Kept (value a) =
      if-Kept P (not a.meta.deleting) _ _ (sync_repository-Kept a) (finalize_repository-Kept a)

  pub reconcile_repository-keeps : (w : W) → P w → P (reconcile_repository lib req w).1
  unfolding reconcile_repository
  reconcile_repository-keeps w h =
      reconcile_found_repository-Kept (lib.get_repository req w).0 (lib.get_repository req w).1
        (keeps.get_repository req w h)
