-- ===== src/Tests/GitRuns.antt =====
-- Runs of the life cycle over a git repository, in the small world. Its HEAD names the branch main.
use mathlib.Core.Path.{fun_ext}
use dummy_cd.Instance.Lifecycle.Revision.{run_life_cycle-retries}
use dummy_cd.Base.{
  Bool, true, false, ◌&&◌, ◌∙◌, nat_eq, nat_eq_iff, String, ◌≡◌, ◌≢◌, refl, ap, sym, inl, List, [],
  ◌∷◌, ◌==◌, eq_iff, if◌then◌else◌, arith,
}
use dummy_cd.Go.{Returned, value, failed, other, git_already_up_to_date, err, Hash}
use dummy_cd.Libs.Git.{CheckoutOptions, Commit, GitLibrary}
use dummy_cd.Helm.Actions.{delivery}
use dummy_cd.Instance.{Libraries}
use dummy_cd.Instance.Application.{
  AppState, local_reference_name, deliver, provider_delivery, remote_reference_name,
}
use dummy_cd.Instance.Lifecycle.{
  first_revision, run_life_cycle, after_fetch, get_application_head_revision, reconcile, reset_to,
  take_head, update_repository,
}
use dummy_cd.Instance.Lifecycle.Refs.{Refs, move_head, GitLaws, newest, remote_tip}
use dummy_cd.Instance.Lifecycle.Newest.{EndsAt}
use dummy_cd.Instance.Lifecycle.InStep.{fetched, run_life_cycle-EndsAt}
use dummy_cd.Instance.Lifecycle.Lost.{update_lost}
use dummy_cd.Instance.Lifecycle.Deployed.{IsDeployed, run_life_cycle-IsDeployed}
use dummy_cd.Tests.Toy.{toy, toy_git, toy_libs}
use dummy_cd.Tests.HelmRuns.{loading_laws, ready}
use dummy_cd.Tests.InstanceRuns.{web, fresh}

abbrev main_branch : String
main_branch = "refs/heads/main"

abbrev seventh : Commit
seventh = record { hash = 7; message = "seventh" }

abbrev check_branch : CheckoutOptions → Returned (Unit {0})
check_branch o = if o.branch == main_branch then value tt else failed (other "no such branch")

-- The remote branch is at 7. The local branch is at 3 until a reset has moved it, of which the world
-- keeps a note.
abbrev was_reset : List (String × String) → Bool
was_reset [] = false
was_reset ((name, note) ∷ rest) = if note == "reset" then true else was_reset rest

abbrev tip_of : Bool → String → Hash
tip_of true n = 7
tip_of false n = if n == main_branch then 3 else 7

abbrev main_refs : List (String × String) → Refs
main_refs w = record { head = main_branch; tip = tip_of (was_reset w) }

-- The first fetch finds something.
abbrev fetch_once : List (String × String) → Returned (Unit {0}) × List (String × String)
fetch_once [] = (value tt, ("git", "fetched") ∷ [])
fetch_once (x ∷ rest) = (failed git_already_up_to_date, x ∷ rest)

fetch_once-keeps : (w : List (String × String)) → main_refs (fetch_once w).1 ≡ main_refs w
fetch_once-keeps [] = refl
fetch_once-keeps (x ∷ rest) = refl

abbrev pull_level : Bool → Returned (Unit {0})
pull_level true = value tt
pull_level false = failed (other "diverged")

pull_level-moves :
    (b : Bool) (n : String) → pull_level b ≡ value tt → tip_of b main_branch ≡ tip_of b n
pull_level-moves true n e = refl
pull_level-moves false n e = absurd cc

abbrev reset_if : Bool → List (String × String) → Returned (Unit {0}) × List (String × String)
reset_if true w = (value tt, ("git", "reset") ∷ w)
reset_if false w = (failed (other "disk full"), w)

-- Where there is room on the disk, a reset to 7 succeeds.
abbrev can_reset : Bool → Hash → Bool
can_reset room h = room && nat_eq h 7

can_reset-seventh : (room : Bool) (h : Hash) → can_reset room h ≡ true → h ≡ 7
can_reset-seventh room h e = ground (arith, nat_eq_iff h 7)

moved_tips : (b : Bool) (n : String) → tip_of true n ≡ (if n == main_branch then 7 else tip_of b n)
moved_tips true n = ground arith
moved_tips false n = ground arith

reset_if-moves :
    (b : Bool) (h : Hash) (w : List (String × String))
    → (b ≡ true → h ≡ 7)
    → (reset_if b w).0 ≡ value tt
    → main_refs (reset_if b w).1 ≡ move_head h (main_refs w)
reset_if-moves true h w at e =
    ap (λ f. record { head = main_branch; tip = f }) (fun_ext (moved_tips (was_reset w)))
    ∙ ap (λ x. move_head x (main_refs w)) (sym (at refl))
reset_if-moves false h w at e = absurd cc

on_main : (o : CheckoutOptions) → check_branch o ≡ value tt → o.branch ≡ main_branch
on_main o h = ground (arith, eq_iff o.branch main_branch)

module _ (room : Bool) where
  abbrev main_git : GitLibrary toy
  main_git = record toy_git {
    checkout = λ t o w. (check_branch o, w);
    fetch = λ r o w. fetch_once w;
    pull = λ t o w. (pull_level (was_reset w), w);
    reference = λ r n b w. (value (tip_of (was_reset w) n), w);
    hard_reset_sparsely = λ t h d w. reset_if (can_reset room h) w;
    log = λ r f w. (value (seventh ∷ []), w);
  }

  main_laws : GitLaws main_git tt
  main_laws = record {
    refs = main_refs;
    history = λ h f. seventh ∷ [];
    IsOwn = λ t. Unit;
    worktree_own = λ w e. tt;
    worktree_keeps = λ w. refl;
    reference_reads = λ w n e. cc;
    reference_keeps = λ w n. refl;
    checkout_moves = λ w t o own e. ap (λ b. record (main_refs w) { head = b }) (sym (on_main o e));
    reset_moves =
        λ w t h dirs own e. reset_if-moves (can_reset room h) h w (can_reset-seventh room h) e;
    fetch_keeps_head = λ w o. refl;
    fetch_keeps_branch = λ w o b. ap (λ r. r.tip (local_reference_name b)) (fetch_once-keeps w);
    fetch_finds_nothing = λ w o e. fetch_once-keeps w;
    pull_keeps_head = λ w t o. refl;
    pull_moves = λ w t o b own e f. pull_level-moves (was_reset w) (remote_reference_name b) f;
    pull_finds_nothing = λ w t o own e. refl;
    log_reads = λ w f e. cc;
    log_keeps = λ w f. refl;
  }

abbrev git_libs : Libraries toy
git_libs = record toy_libs { git = main_git true }

abbrev git_laws : GitLaws (main_git true) tt
unfolding main_laws
git_laws = main_laws true

run_life_cycle-EndsAt_example :
    (t : AppState toy) × EndsAt git_libs git_laws fresh (run_life_cycle git_libs fresh) t
unfolding run_life_cycle after_fetch update_repository reconcile reset_to take_head
    get_application_head_revision deliver provider_delivery delivery main_laws
run_life_cycle-EndsAt_example =
    run_life_cycle-EndsAt git_libs git_laws fresh (refl, refl, refl, refl) (inl refl) refl

revision_moves : (run_life_cycle git_libs fresh).1.app.current_revision ≡ 7
unfolding run_life_cycle after_fetch update_repository reconcile reset_to take_head
    get_application_head_revision deliver provider_delivery delivery
revision_moves = refl

run_life_cycle-IsDeployed_example :
    let u = (run_life_cycle git_libs fresh).1 in
    (t : AppState toy) × (run_life_cycle git_libs fresh ≡ deliver git_libs t)
    × (u.app.current_revision ≡ newest git_laws web (remote_tip git_laws t))
    × IsDeployed git_libs (loading_laws (value "loaded")) ready t u
unfolding run_life_cycle after_fetch update_repository reconcile reset_to take_head
    get_application_head_revision deliver provider_delivery delivery main_laws
run_life_cycle-IsDeployed_example =
    run_life_cycle-IsDeployed git_libs (loading_laws (value "loaded")) git_laws fresh ready
      (refl, refl, refl, refl) (inl refl) refl refl refl (λ e. omega (arith, revision_moves))

-- There is no room for a reset.
abbrev full_libs : Libraries toy
full_libs = record toy_libs { git = main_git false }

abbrev full_laws : GitLaws (main_git false) tt
unfolding main_laws
full_laws = main_laws false

abbrev third : AppState toy
third = record { app = record web { current_revision = 3 }; world = [] }

update_lost_example :
    let t = (run_life_cycle full_libs third).1 in
    ((run_life_cycle full_libs third).0 ≡ err (other "disk full"))
    × (run_life_cycle full_libs t ≡ deliver full_libs (fetched full_libs full_laws t))
    × ((fetched full_libs full_laws t).app ≡ third.app)
    × (newest full_laws third.app (remote_tip full_laws (fetched full_libs full_laws t)) ≢ 3)
unfolding run_life_cycle after_fetch update_repository reconcile reset_to main_laws first_revision
update_lost_example =
    update_lost full_libs full_laws third 3 7 tt (other "disk full") refl refl refl refl refl
      (λ e. omega (arith, e)) (λ e. omega (arith, e)) refl refl refl refl

run_life_cycle-retries_example :
    let t = (run_life_cycle git_libs fresh).1 in
    run_life_cycle git_libs t
    ≡ deliver git_libs
        (record t { world = (git_libs.git.fetch t.app.repo t.app.fetch_options t.world).1 })
unfolding run_life_cycle after_fetch update_repository reconcile reset_to take_head
    get_application_head_revision deliver provider_delivery delivery
run_life_cycle-retries_example =
    run_life_cycle-retries git_libs fresh (λ e. omega (arith, revision_moves)) refl
