-- ===== src/Tests/Toy.antt =====
-- A small world for the runs: it is the list of the deployed releases, each a name and the
-- description of its chart, and every call of a library succeeds.
use dummy_cd.Base.{
  String, true, false, Option, none, some, List, [], ◌∷◌, map, ◌==◌, nat_eq, if◌then◌else◌,
}
use dummy_cd.Go.{value, failed, git_already_up_to_date, not_found}
use dummy_cd.Libs.{Types}
use dummy_cd.Libs.Files.{FilesLibrary}
use dummy_cd.Libs.Charts.{RestConfig, HelmLibrary, Release}
use dummy_cd.Libs.Cluster.{KubeLibrary}
use dummy_cd.Libs.Git.{GitLibrary}
use dummy_cd.Instance.{Libraries}

abbrev pub toy : Types
toy = record {
  World = List (String × String);
  File = Unit;
  Regexp = Unit;
  Chart = String;
  Values = Unit;
  Object = String;
  Repository = Unit;
  Worktree = Unit;
  PublicKeys = Unit;
  HostKeyCallback = Unit;
}

abbrev pub toy_files : FilesLibrary toy
toy_files = record {
  user_home_dir = value "/root";
  join = λ parts. elim parts [ [] ↦ "" | p ∷ rest ↦ p ];
  read_file = λ p w. (value (1 ∷ []), w);
  open_file = λ p w. (value tt, w);
  write = λ f b w. (value 1, w);
  close = λ f w. w;
  mkdir_all = λ p w. (value tt, w);
  remove_all = λ p w. (value tt, w);
  compile = λ r. value tt;
  match_string = λ rx s. s == "a.yaml";
  walk = λ root w. (value (record { path = "sub/a.yaml"; name = "a.yaml"; error = none } ∷ []), w);
}

abbrev pub description_of : Option String → String
description_of none = ""
description_of (some d) = d

abbrev pub toy_releases : List (String × String) → List (Release toy)
toy_releases = map (λ p. record { name = p.0; chart = p.1; is_deployed = true })

abbrev pub toy_helm : HelmLibrary toy
toy_helm = record {
  new_settings = record { debug = false; namespace = ""; repository_cache = "" };
  init_configuration = λ f n w. (value (record { flags = f; namespace = n }), w);
  update = λ m w. (value tt, w);
  load = λ p w. (value "loaded", w);
  merge_values = λ e fs w. (value tt, w);
  is_chart_dir = λ p w. (value true, w);
  list_releases = λ c w. (value (toy_releases w), w);
  run_install = λ c a ch v w. (value tt, (a.release_name, description_of ch) ∷ w);
  run_upgrade = λ c a n ch v w. (value tt, (n, description_of ch) ∷ w);
  run_uninstall = λ c a n w. (value tt, []);
  description = λ c. c;
  set_description = λ d c. d;
  default_values = λ c. tt;
  deep_equal = λ a b. false;
  hash_string = λ h. if nat_eq h 7 then "seven" else "other";
}

abbrev pub toy_kube : KubeLibrary toy
toy_kube = record {
  new_client_set = λ r. value tt;
  new_dynamic_client = λ r. value tt;
  get_namespace = λ n w. (value tt, w);
  create_namespace = λ n w. (value tt, w);
  get_ssh_key = λ n s w. (value [], w);
  server_groups =
      λ w. (value (record { name = "apps"; versions = ("apps/v1", "v1") ∷ [] } ∷ []), w);
  server_resources = λ g w. (value ("deployments" ∷ []), w);
  get = λ k n o w. (failed not_found, w);
  create = λ k n o w. (value tt, w);
  update = λ k n o w. (value tt, w);
  delete = λ k n o w. (value tt, w);
  list = λ k n s w. (value [], w);
  new_requirement = λ r. value tt;
  unmarshal = λ b. value "nginx";
  is_empty = λ o. false;
  get_api_version = λ o. "apps/v1";
  get_kind = λ o. "Deployment";
  get_name = λ o. o;
  get_labels = λ o. [];
  set_labels = λ l o. o;
  get_resource_version = λ o. "1";
  set_resource_version = λ v o. o;
  to_lower = λ s. s;
}

abbrev pub toy_git : GitLibrary toy
toy_git = record {
  parse_scheme = λ u. value "https";
  new_public_keys = λ u k p. value tt;
  insecure_ignore_host_key = tt;
  new_known_hosts = λ p w. (value tt, w);
  set_host_key_callback = λ c k. k;
  plain_clone = λ p b o w. (value tt, w);
  plain_open = λ p w. (value tt, w);
  worktree = λ r w. (value tt, w);
  checkout = λ t o w. (value tt, w);
  fetch = λ r o w. (failed git_already_up_to_date, w);
  pull = λ t o w. (value tt, w);
  reference = λ r n b w. (value 7, w);
  hard_reset_sparsely = λ t h d w. (value tt, w);
  log = λ r f w. (value (record { hash = 7; message = "seventh" } ∷ []), w);
}

abbrev pub toy_libs : Libraries toy
toy_libs = record {
  files = toy_files;
  helm = toy_helm;
  kube = toy_kube;
  git = toy_git;
  helm_debug = true;
  workspace = "/storage";
}

abbrev pub toy_rest : RestConfig
toy_rest = record {
  host = "https://kubernetes";
  bearer_token = "";
  ca_file = "";
  cert_file = "";
  key_file = "";
  ca_data = [];
  cert_data = [];
  key_data = [];
  insecure = false;
  qps = 50;
  burst = 100;
}
