-- ===== src/Libs/Git.antt =====
-- go-git, its ssh transport, knownhosts and net/url, as far as the server calls them.
-- A record of options lists the fields that the code sets.
use dummy_cd.Base.{String, Bool, Option, List}
use dummy_cd.Go.{Returned, Call, Hash}
use dummy_cd.Libs.{Types}
use dummy_cd.Libs.Files.{Bytes}

pub record CloneOptions (T : Types) : Type 0 where
  pub url : String
  pub reference_name : String
  pub single_branch : Bool
  pub no_checkout : Bool
  pub auth : Option T.PublicKeys

pub record FetchOptions (T : Types) : Type 0 where
  pub remote_name : String
  pub remote_url : String
  pub force : Bool
  pub auth : Option T.PublicKeys

pub record PullOptions (T : Types) : Type 0 where
  pub remote_name : String
  pub remote_url : String
  pub reference_name : String
  pub single_branch : Bool
  pub force : Bool
  pub auth : Option T.PublicKeys

pub record CheckoutOptions : Type 0 where
  pub sparse_checkout_directories : List String
  pub keep : Bool
  pub branch : String
  pub force : Bool

-- object.Commit
pub record Commit : Type 0 where
  pub hash : Hash
  pub message : String

pub record GitLibrary (T : Types) : Type 0 where
  -- the scheme of url.Parse
  pub parse_scheme : String → Returned String
  pub new_public_keys : String → Bytes → String → Returned T.PublicKeys
  pub insecure_ignore_host_key : T.HostKeyCallback
  pub new_known_hosts : String → Call T.World T.HostKeyCallback
  pub set_host_key_callback : T.HostKeyCallback → T.PublicKeys → T.PublicKeys
  pub plain_clone : String → Bool → CloneOptions T → Call T.World T.Repository
  pub plain_open : String → Call T.World T.Repository
  pub worktree : T.Repository → Call T.World T.Worktree
  pub checkout : T.Worktree → CheckoutOptions → Call T.World (Unit {0})
  pub fetch : T.Repository → FetchOptions T → Call T.World (Unit {0})
  pub pull : T.Worktree → PullOptions T → Call T.World (Unit {0})
  pub reference : T.Repository → String → Bool → Call T.World Hash
  -- Worktree.ResetSparsely with Mode git.HardReset
  pub hard_reset_sparsely : T.Worktree → Hash → List String → Call T.World (Unit {0})
  -- Repository.Log with a path filter: the commits that ForEach visits, newest first
  pub log : T.Repository → (String → Bool) → Call T.World (List Commit)
