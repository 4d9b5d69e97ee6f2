-- ===== src/Tests/FileRuns.antt =====
-- A disk with the content of each path, for runs of the connection to the cluster.
use Prim.Native.String.{◌++◌ as append}
use dummy_cd.Base.{
  String, false, ◌≡◌, ◌≢◌, refl, Option, none, some, [], ◌∷◌, List, arith, ◌==◌, eq_iff, eq_refl,
  if◌then◌else◌,
}
use dummy_cd.Go.{value, failed, not_found}
use dummy_cd.Libs.{Types}
use dummy_cd.Libs.Charts.{RestConfig}
use dummy_cd.Libs.Files.{FilesLibrary, Bytes}
use dummy_cd.Util.{write_file}
use dummy_cd.Instance.Connection.{new_kubernetes_config, store_credential, store_credentials}
use dummy_cd.Instance.Connection.Credentials.{
  WriteLaws, Connects, AreApart, AreStored, new_kubernetes_config-Connects,
}
use dummy_cd.Tests.Toy.{toy, toy_rest}

abbrev Disk : Type 0
Disk = String → Option Bytes

abbrev on_disk : Types
on_disk = record toy { World = Disk; File = String }

abbrev write_at : String → Bytes → Disk → Disk
write_at p b w q = if q == p then some b else w q

abbrev joined : List String → String
joined [] = ""
joined (p ∷ rest) = append p (append "/" (joined rest))

abbrev disk_files : FilesLibrary on_disk
disk_files = record {
  user_home_dir = value "/root";
  join = joined;
  read_file = λ p w. (failed not_found, w);
  open_file = λ p w. (value p, write_at p [] w);
  write = λ f b w. (value 1, write_at f b w);
  close = λ f w. w;
  mkdir_all = λ p w. (value tt, w);
  remove_all = λ p w. (value tt, w);
  compile = λ r. value tt;
  match_string = λ rx s. false;
  walk = λ root w. (value [], w);
}

write_at-elsewhere : (p q : String) (b : Bytes) (w : Disk) → q ≢ p → write_at p b w q ≡ w q
write_at-elsewhere p q b w other = ground (arith, eq_iff q p)

disk_laws : WriteLaws disk_files
disk_laws = record {
  content = λ w p. w p;
  path_of = λ f. f;
  open_at = λ w p e. cc;
  open_keeps = λ w p q other. write_at-elsewhere p q [] w other;
  write_stores = λ w f b e. rw (eq_refl f) refl;
  write_keeps = λ w f b q other. write_at-elsewhere f q b w other;
  close_keeps = λ w f q. refl;
}

-- A connection whose authority is given by its data and whose other credentials are in files.
abbrev given : RestConfig
given = record toy_rest { ca_data = 1 ∷ []; cert_file = "/cert"; key_file = "/key" }

abbrev folder : String
folder = joined ("/storage" ∷ "serviceaccount" ∷ [])

abbrev connected : RestConfig
connected = record given { ca_file = joined (folder ∷ "ca.crt" ∷ []) }

abbrev empty_disk : Disk
empty_disk p = none

folder-apart : AreApart disk_files disk_laws folder
folder-apart = (
  λ e. (let never = (eq_iff _ _).1 e in cc),
  λ e. (let never = (eq_iff _ _).1 e in cc),
  λ e. (let never = (eq_iff _ _).1 e in cc),
)

new_kubernetes_config-Connects_example :
    Connects disk_files folder given connected
    × AreStored disk_files disk_laws folder given
        (new_kubernetes_config disk_files "/storage" given empty_disk).1
unfolding new_kubernetes_config store_credentials store_credential write_file
new_kubernetes_config-Connects_example =
    new_kubernetes_config-Connects disk_files disk_laws "/storage" given connected empty_disk
      folder-apart refl
