-- ===== src/Tests/HandlerRuns.antt =====
-- Runs of the handler in the small world.
use mathlib.Core.List.{Perm}
use dummy_cd.Base.{◌≡◌, refl, false, [], ◌∷◌}
use dummy_cd.Instance.Application.{provider_uninstall, uninstall}
use dummy_cd.Instance.Repository.{RepositoryConfig}
use dummy_cd.Instance.Handler.{
  HandlerState, delete_repository, delete_at, delete_found, find_last, uninstall_all,
}
use dummy_cd.Instance.Handler.Deletion.{delete_repository-perm}
use dummy_cd.Tests.Toy.{toy, toy_libs}
use dummy_cd.Helm.Actions
use dummy_cd.Tests.InstanceRuns.{toy_remote, one_app}

abbrev two_repositories : HandlerState toy
two_repositories = record {
  handler = record {
    repos = one_app ∷ record one_app { remote = record toy_remote { name = "other" } } ∷ [];
    held = false;
    current_namespace = "dummy";
  };
  world = [];
}

delete_repository-perm_example :
    (r : RepositoryConfig toy) × (r.name ≡ "charts")
    × Perm two_repositories.handler.repos
        (r ∷ (delete_repository toy_libs "charts" two_repositories).1.handler.repos)
unfolding delete_repository delete_found find_last delete_at uninstall_all uninstall
    provider_uninstall dummy_cd.Helm.Actions.uninstall
delete_repository-perm_example = delete_repository-perm toy_libs "charts" two_repositories refl
