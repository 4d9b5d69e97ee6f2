-- ===== src/Libs.antt =====
-- The libraries that the server calls. They are parameters: `Types` names what the code handles
-- without looking inside, and each child states the calls that one library offers.
pub mod Files
pub mod Charts
pub mod Cluster
pub mod Git

-- World is all that lies outside the server's memory: the disk, the cluster and the remotes.
pub record Types : Type 1 where
  pub World : Type 0
  -- *os.File and *regexp.Regexp
  pub File : Type 0
  pub Regexp : Type 0
  -- *chart.Chart and map[string]interface{} of helm
  pub Chart : Type 0
  pub Values : Type 0
  -- *unstructured.Unstructured
  pub Object : Type 0
  -- *git.Repository and *git.Worktree
  pub Repository : Type 0
  pub Worktree : Type 0
  -- *gitssh.PublicKeys and ssh.HostKeyCallback
  pub PublicKeys : Type 0
  pub HostKeyCallback : Type 0
