-- ===== src/Instance/Connection.antt =====
-- server/pkg/instance/handler.go: NewKubernetesConfig, the connection to the cluster, whose
-- credentials are to be found in files, and NewKnownHosts.
pub mod Credentials
use dummy_cd.Base.{
  String, false, not, none, some, Option, ◌&&◌, ◌||◌, List, [], ◌∷◌, ◌==◌, is_nil, if◌then◌else◌,
}
use dummy_cd.Go.{Exec, pure, must, deref, ◌>>=◌, ◌>>◌}
use dummy_cd.Libs.{Types}
use dummy_cd.Libs.Files.{FilesLibrary, Bytes}
use dummy_cd.Libs.Charts.{RestConfig}
use dummy_cd.Util.{get_user_home, write_file}

module _ {T : Types} (files : FilesLibrary T) where
  -- One credential: where it has no file and has data, the data are written to a file of the
  -- folder. The answer is the credential's file.
  unfoldable pub store_credential : String → String → String → Bytes → Exec T.World String
  store_credential dir name file content =
      if file == "" && not (is_nil content)
      then (do let path = files.join (dir ∷ name ∷ []); write_file files path content; pure path)
      else pure file

  unfoldable pub store_credentials : String → RestConfig → Exec T.World RestConfig
  unfolding store_credential
  store_credentials dir cfg = do
    must (files.mkdir_all dir)
    cert ← store_credential dir "cert.crt" cfg.cert_file cfg.cert_data
    ca ← store_credential dir "ca.crt" cfg.ca_file cfg.ca_data
    key ← store_credential dir "private.key" cfg.key_file cfg.key_data
    pure (record cfg { cert_file = cert; ca_file = ca; key_file = key })

  -- `found` is what GetConfigOrDie answers. Where each credential has a file, nothing is stored.
  unfoldable pub new_kubernetes_config : String → RestConfig → Exec T.World RestConfig
  new_kubernetes_config workspace found = do
    let cfg = record found { insecure = false; qps = 50; burst = 100 }
    if cfg.cert_file == "" || cfg.ca_file == "" || cfg.key_file == ""
        then store_credentials (files.join (workspace ∷ "serviceaccount" ∷ [])) cfg
        else pure cfg

module _ {T : Types} (files : FilesLibrary T) (bytes : String → Bytes) where
  -- NewKnownHosts. `bytes` is the conversion of a string to bytes. Nothing calls it.
  unfoldable pub new_known_hosts : String → Exec T.World (Option String)
  unfolding get_user_home
  new_known_hosts known_hosts = if known_hosts == "" then pure none else do
    home ← deref (get_user_home files)
    let dir = files.join (home ∷ "tmp" ∷ [])
    must (files.mkdir_all dir)
    let file = files.join (dir ∷ "known_hosts" ∷ [])
    write_file files file (bytes known_hosts)
    pure (some file)
