-- ===== src/Instance.antt =====
-- server/pkg/instance: repositories, applications and the loop that delivers them.
pub mod Remote
pub mod Application
pub mod Lifecycle
pub mod Repository
pub mod Handler
pub mod Connection
pub mod Sentinel
use dummy_cd.Base.{Bool, String}
use dummy_cd.Libs.{Types}
use dummy_cd.Libs.Files.{FilesLibrary}
use dummy_cd.Libs.Charts.{HelmLibrary}
use dummy_cd.Libs.Cluster.{KubeLibrary}
use dummy_cd.Libs.Git.{GitLibrary}

-- The libraries together, the flag helm-debug, and Workspace, the root of the clones.
pub record Libraries (T : Types) : Type 0 where
  pub files : FilesLibrary T
  pub helm : HelmLibrary T
  pub kube : KubeLibrary T
  pub git : GitLibrary T
  pub helm_debug : Bool
  pub workspace : String
