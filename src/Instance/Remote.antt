-- ===== src/Instance/Remote.antt =====
-- server/pkg/instance/repository.go, the settings of a repository, its authentication and the
-- options of the git calls.
use dummy_cd.Base.{String, Bool, true, false, Option, none, some, [], ◌∷◌, ◌==◌, if◌then◌else◌}
use dummy_cd.Go.{
  git_repository_already_exists, Returned, value, failed, Exec, pure, raise, deref, check, call,
  must, ◌>>=◌, ◌>>◌,
}
use dummy_cd.Libs.{Types}
use dummy_cd.Libs.Charts.{RestConfig}
use dummy_cd.Libs.Git.{CloneOptions, FetchOptions, PullOptions, CheckoutOptions}
use dummy_cd.Util.{get_user_home}
use dummy_cd.Instance.{Libraries}

pub record RepositorySettings : Type 0 where
  pub url : String
  pub private_key_secret : String
  pub insecure_ignore_host_key : Bool

-- The fields of RepositoryConfig that stay as NewRepositoryConfig sets them.
pub record Remote (T : Types) : Type 0 where
  pub name : String
  pub settings : RepositorySettings
  pub auth : Option T.PublicKeys

module _ {T : Types} (r : Remote T) where
  unfoldable pub get_clone_options : String → CloneOptions T
  get_clone_options reference_name = record {
    url = r.settings.url;
    reference_name = reference_name;
    single_branch = true;
    no_checkout = false;
    auth = r.auth;
  }

  unfoldable pub get_fetch_options : FetchOptions T
  get_fetch_options = record {
    remote_name = "origin";
    remote_url = r.settings.url;
    force = true;
    auth = r.auth;
  }

  unfoldable pub get_pull_options : String → PullOptions T
  get_pull_options reference_name = record {
    remote_name = "origin";
    remote_url = r.settings.url;
    reference_name = reference_name;
    single_branch = true;
    force = true;
    auth = r.auth;
  }

module _ {T : Types} (libs : Libraries T) where
  open libs use {files, kube, git}

  unfoldable pub host_key_callback : RepositorySettings → Exec T.World T.HostKeyCallback
  unfolding get_user_home
  host_key_callback settings =
      if settings.insecure_ignore_host_key then pure git.insecure_ignore_host_key else do
        home ← deref (get_user_home files)
        must (git.new_known_hosts (files.join (home ∷ ".ssh" ∷ "knownhosts" ∷ [])))

  unfoldable pub new_ssh_repository_auth :
      RepositorySettings → RestConfig → String → Exec T.World T.PublicKeys
  unfolding host_key_callback
  new_ssh_repository_auth settings rest current_namespace = do
    check (kube.new_client_set rest)
    key ← must (kube.get_ssh_key current_namespace settings.private_key_secret)
    auth ← check (git.new_public_keys "git" key "")
    callback ← host_key_callback settings
    pure (git.set_host_key_callback callback auth)

  -- A URL that does not parse is taken for one of ssh.
  abbrev pub is_ssh : Returned String → Bool
  is_ssh (failed e) = true
  is_ssh (value scheme) = scheme == "ssh"

  unfoldable pub new_remote :
      String → RepositorySettings → RestConfig → String → Exec T.World (Remote T)
  unfolding new_ssh_repository_auth
  new_remote name settings rest current_namespace =
      if is_ssh (git.parse_scheme settings.url)
      then (do
        auth ← new_ssh_repository_auth settings rest current_namespace
        pure (record { name = name; settings = settings; auth = some auth }))
      else pure (record { name = name; settings = settings; auth = none })

  unfoldable pub open_cloned : String → Returned T.Repository → Exec T.World T.Repository
  open_cloned path (value repo) = pure repo
  open_cloned path (failed git_repository_already_exists) = must (git.plain_open path)
  open_cloned path (failed e) = raise e

  unfoldable pub new_git_repository :
      String → CloneOptions T → CheckoutOptions → Exec T.World T.Repository
  unfolding open_cloned
  new_git_repository path clone_options checkout_options = do
    cloned ← call (git.plain_clone path false clone_options)
    repo ← open_cloned path cloned
    worktree ← must (git.worktree repo)
    must (git.checkout worktree checkout_options)
    pure repo
