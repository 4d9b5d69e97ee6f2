-- ===== src/Libs/Charts.antt =====
-- The helm packages action, chart, loader, downloader and values, as far as the server calls them.
-- A record of options lists the fields that the code sets.
use dummy_cd.Base.{ℕ, String, Bool, Option, List}
use dummy_cd.Go.{Call, Hash}
use dummy_cd.Libs.{Types}

pub record Release (T : Types) : Type 0 where
  pub name : String
  pub chart : T.Chart
  -- Info.Status is `deployed`
  pub is_deployed : Bool

-- rest.Config of client-go
pub record RestConfig : Type 0 where
  pub host : String
  pub bearer_token : String
  pub ca_file : String
  pub cert_file : String
  pub key_file : String
  pub ca_data : List ℕ
  pub cert_data : List ℕ
  pub key_data : List ℕ
  pub insecure : Bool
  pub qps : ℕ
  pub burst : ℕ

-- genericclioptions.ConfigFlags
pub record ConfigFlags : Type 0 where
  pub api_server : String
  pub bearer_token : String
  pub ca_file : String
  pub cert_file : String
  pub key_file : String
  pub namespace : String
  pub insecure : Bool

-- action.Configuration after Init
pub record Configuration : Type 0 where
  pub flags : ConfigFlags
  pub namespace : String

-- cli.EnvSettings
pub record EnvSettings : Type 0 where
  pub debug : Bool
  pub namespace : String
  pub repository_cache : String

-- downloader.Manager
pub record Manager : Type 0 where
  pub chart_path : String
  pub debug : Bool
  pub repository_cache : String

pub record InstallAction : Type 0 where
  pub release_name : String
  pub namespace : String
  pub wait : Bool
  pub timeout : ℕ
  pub dependency_update : Bool
  pub create_namespace : Bool
  pub include_crds : Bool
  pub atomic : Bool
  pub description : String

pub record UpgradeAction : Type 0 where
  pub namespace : String
  pub install : Bool
  pub cleanup_on_fail : Bool
  pub timeout : ℕ
  pub skip_crds : Bool
  pub wait : Bool
  pub atomic : Bool
  pub dependency_update : Bool
  pub recreate : Bool
  pub description : String

pub record UninstallAction : Type 0 where
  pub timeout : ℕ
  pub wait : Bool
  pub keep_history : Bool

pub record HelmLibrary (T : Types) : Type 0 where
  pub new_settings : EnvSettings
  pub init_configuration : ConfigFlags → String → Call T.World Configuration
  pub update : Manager → Call T.World (Unit {0})
  pub load : String → Call T.World T.Chart
  pub merge_values : EnvSettings → List String → Call T.World T.Values
  -- chartutil.IsChartDir
  pub is_chart_dir : String → Call T.World Bool
  pub list_releases : Configuration → Call T.World (List (Release T))
  pub run_install :
      Configuration → InstallAction → Option T.Chart → Option T.Values → Call T.World (Unit {0})
  pub run_upgrade :
      Configuration
      → UpgradeAction
      → String
      → Option T.Chart
      → Option T.Values
      → Call T.World (Unit {0})
  pub run_uninstall : Configuration → UninstallAction → String → Call T.World (Unit {0})
  -- chart.Metadata.Description, read and written, and chart.Values
  pub description : T.Chart → String
  pub set_description : String → T.Chart → T.Chart
  pub default_values : T.Chart → T.Values
  pub deep_equal : T.Values → Option T.Values → Bool
  -- plumbing.Hash.String
  pub hash_string : Hash → String
