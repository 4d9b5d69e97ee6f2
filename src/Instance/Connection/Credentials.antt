-- ===== src/Instance/Connection/Credentials.antt =====
-- server/pkg/instance/handler.go, NewKubernetesConfig: which file holds which credential.
use dummy_cd.Base.{
  ℕ, String, ◌≡◌, ◌≢◌, ◌∙◌, subst, inl, inr, ◌⊎◌, true, Bool-cases, ◌||◌, sym, Option, some, false,
  not, ◌&&◌, [], ◌∷◌, ◌==◌, is_nil, if◌then◌else◌, arith,
}
use dummy_cd.Go.{OnOk, ok, value, Returned-cases, Result-cases}
use dummy_cd.Util.{write_file}
use dummy_cd.Libs.{Types}
use dummy_cd.Libs.Files.{FilesLibrary, Bytes}
use dummy_cd.Libs.Charts.{RestConfig}
use dummy_cd.Instance.Connection.{store_credential, store_credentials, new_kubernetes_config}

-- The documented behaviour of files: what is written to a file that was opened with O_CREATE and
-- O_TRUNC is its content, and the files at other paths are left.
pub record WriteLaws {T : Types} (files : FilesLibrary T) : Type 0 where
  pub content : T.World → String → Option Bytes
  pub path_of : T.File → String
  pub open_at :
      (w : T.World) (p : String) {f : T.File} → (files.open_file p w).0 ≡ value f → path_of f ≡ p
  pub open_keeps :
      (w : T.World) (p q : String) → q ≢ p → content (files.open_file p w).1 q ≡ content w q
  pub write_stores :
      (w : T.World) (f : T.File) (b : Bytes) {n : ℕ}
      → (files.write f b w).0 ≡ value n
      → content (files.write f b w).1 (path_of f) ≡ some b
  pub write_keeps :
      (w : T.World) (f : T.File) (b : Bytes) (q : String)
      → q ≢ path_of f
      → content (files.write f b w).1 q ≡ content w q
  pub close_keeps :
      (w : T.World) (f : T.File) (q : String) → content (files.close f w) q ≡ content w q

module _ {T : Types} (files : FilesLibrary T) where
  -- The file of a credential: its own, or, where it has data alone, the one of that name in the folder.
  abbrev pub file_of : String → String → String → Bytes → String
  file_of dir name file content =
      if file == "" && not (is_nil content) then files.join (dir ∷ name ∷ []) else file

  store_credential-file :
      (dir name file : String) (content : Bytes) (w : T.World)
      → OnOk
          (λ f. f ≡ file_of dir name file content)
          (store_credential files dir name file content w).0
  unfolding store_credential
  store_credential-file dir name file content w = ground arith

  -- What is set of a connection that is made from what was found.
  abbrev pub Connects : String → RestConfig → RestConfig → Type 0
  Connects dir found cfg =
      (cfg.insecure ≡ false)
      × (cfg.qps ≡ 50)
      × (cfg.burst ≡ 100)
      × (cfg.host ≡ found.host)
      × (cfg.cert_file ≡ file_of dir "cert.crt" found.cert_file found.cert_data)
      × (cfg.ca_file ≡ file_of dir "ca.crt" found.ca_file found.ca_data)
      × (cfg.key_file ≡ file_of dir "private.key" found.key_file found.key_data)

  store_credentials-files :
      (dir : String) (cfg : RestConfig) (w : T.World)
      → OnOk
          (λ c.
            (c.insecure ≡ cfg.insecure)
            × (c.qps ≡ cfg.qps)
            × (c.burst ≡ cfg.burst)
            × (c.host ≡ cfg.host)
            × (c.cert_file ≡ file_of dir "cert.crt" cfg.cert_file cfg.cert_data)
            × (c.ca_file ≡ file_of dir "ca.crt" cfg.ca_file cfg.ca_data)
            × (c.key_file ≡ file_of dir "private.key" cfg.key_file cfg.key_data))
          (store_credentials files dir cfg w).0
  unfolding store_credentials
  store_credentials-files dir cfg w = grind (
    arith,
    store_credential-file dir "cert.crt" cfg.cert_file cfg.cert_data,
    store_credential-file dir "ca.crt" cfg.ca_file cfg.ca_data,
    store_credential-file dir "private.key" cfg.key_file cfg.key_data,
  )

  module _ (laws : WriteLaws files) where
    open laws use {content}

    write_file-stores :
        (path : String) (b : Bytes) (w : T.World)
        → (write_file files path b w).0 ≡ ok tt
        → content (write_file files path b w).1 path ≡ some b
    unfolding write_file
    write_file-stores path b w h = elim (Returned-cases (files.open_file path w).0) [
      | inr (x, e) ↦ ground arith
      | inl (f, e) ↦
          let opened = (files.open_file path w).1 in
          elim (Returned-cases (files.write f b opened).0) [
            | inr (x, g) ↦ ground arith
            | inl (n, g) ↦
                let at = laws.open_at w path e in
                let stored = laws.write_stores opened f b g in
                let kept = laws.close_keeps (files.write f b opened).1 f path in
                ground (arith, subst (λ p. content (files.write f b opened).1 p ≡ some b) at stored)
          ]
    ]

    write_file-keeps :
        (path q : String) (b : Bytes) (w : T.World)
        → q ≢ path
        → content (write_file files path b w).1 q ≡ content w q
    unfolding write_file
    write_file-keeps path q b w other = elim (Returned-cases (files.open_file path w).0) [
      | inr (x, e) ↦ ground (arith, laws.open_keeps w path q other)
      | inl (f, e) ↦
          let opened = (files.open_file path w).1 in
          let at = laws.open_at w path e in
          let away : q ≢ laws.path_of f = λ same. other (same ∙ at) in
          ground (
            arith,
            laws.open_keeps w path q other,
            laws.write_keeps opened f b q away,
            laws.close_keeps (files.write f b opened).1 f q,
          )
    ]

    store_credential-stores :
        (dir name file : String) (b : Bytes) (w : T.World) {f : String}
        → (store_credential files dir name file b w).0 ≡ ok f
        → (file == "" && not (is_nil b)) ≡ true
        → content (store_credential files dir name file b w).1 (files.join (dir ∷ name ∷ []))
          ≡ some b
    unfolding store_credential
    store_credential-stores dir name file b w h given =
        ground (arith, write_file-stores (files.join (dir ∷ name ∷ [])) b w)

    store_credential-keeps :
        (dir name file q : String) (b : Bytes) (w : T.World)
        → q ≢ files.join (dir ∷ name ∷ [])
        → content (store_credential files dir name file b w).1 q ≡ content w q
    unfolding store_credential
    store_credential-keeps dir name file q b w other =
        ground (arith, write_file-keeps (files.join (dir ∷ name ∷ [])) q b w other)

    -- A credential that has data and no file is stored in the file of the name in the folder.
    abbrev pub IsStored : String → String → String → Bytes → T.World → Type 0
    IsStored dir name file b w =
        ((file == "" && not (is_nil b)) ≡ false)
        ⊎ (content w (files.join (dir ∷ name ∷ [])) ≡ some b)

    store_credential-IsStored :
        (dir name file : String) (b : Bytes) (w : T.World) {f : String}
        → (store_credential files dir name file b w).0 ≡ ok f
        → IsStored dir name file b (store_credential files dir name file b w).1
    store_credential-IsStored dir name file b w h =
        elim (Bool-cases (file == "" && not (is_nil b))) [
          | inl given ↦ inr (store_credential-stores dir name file b w h given)
          | inr no_data ↦ inl no_data
        ]

    store_credential-stays :
        (dir name file name' file' : String) (b b' : Bytes) (w : T.World)
        → files.join (dir ∷ name ∷ []) ≢ files.join (dir ∷ name' ∷ [])
        → IsStored dir name file b w
        → IsStored dir name file b (store_credential files dir name' file' b' w).1
    store_credential-stays dir name file name' file' b b' w other (inl no_data) = inl no_data
    store_credential-stays dir name file name' file' b b' w other (inr stored) =
        inr (store_credential-keeps dir name' file' _ b' w other ∙ stored)

    -- The files of the three credentials in the folder are different ones.
    abbrev pub AreApart : String → Type 0
    AreApart dir =
        (files.join (dir ∷ "cert.crt" ∷ []) ≢ files.join (dir ∷ "ca.crt" ∷ []))
        × (files.join (dir ∷ "cert.crt" ∷ []) ≢ files.join (dir ∷ "private.key" ∷ []))
        × (files.join (dir ∷ "ca.crt" ∷ []) ≢ files.join (dir ∷ "private.key" ∷ []))

    -- Each of the three is stored.
    abbrev pub AreStored : String → RestConfig → T.World → Type 0
    AreStored dir cfg w =
        IsStored dir "cert.crt" cfg.cert_file cfg.cert_data w
        × IsStored dir "ca.crt" cfg.ca_file cfg.ca_data w
        × IsStored dir "private.key" cfg.key_file cfg.key_data w

    store_credentials-parts :
        (dir : String) (cfg c : RestConfig) (w : T.World)
        → (store_credentials files dir cfg w).0 ≡ ok c
        → let w0 = (files.mkdir_all dir w).1 in
          let cert = store_credential files dir "cert.crt" cfg.cert_file cfg.cert_data w0 in
          let ca = store_credential files dir "ca.crt" cfg.ca_file cfg.ca_data cert.1 in
          let key = store_credential files dir "private.key" cfg.key_file cfg.key_data ca.1 in
          (f1 : String) × (f2 : String) × (f3 : String) × (cert.0 ≡ ok f1)
          × (ca.0 ≡ ok f2)
          × (key.0 ≡ ok f3)
          × ((store_credentials files dir cfg w).1 ≡ key.1)
    unfolding store_credentials
    store_credentials-parts dir cfg c w h =
        let w0 = (files.mkdir_all dir w).1 in
        let cert = store_credential files dir "cert.crt" cfg.cert_file cfg.cert_data w0 in
        let ca = store_credential files dir "ca.crt" cfg.ca_file cfg.ca_data cert.1 in
        let key = store_credential files dir "private.key" cfg.key_file cfg.key_data ca.1 in
        elim (Result-cases cert.0) [
          | inr bad ↦ absurd (ground arith)
          | inl (f1, e1) ↦ elim (Result-cases ca.0) [
            | inr bad ↦ absurd (ground arith)
            | inl (f2, e2) ↦ elim (Result-cases key.0) [
              | inr bad ↦ absurd (ground arith)
              | inl (f3, e3) ↦ (f1, f2, f3, e1, e2, e3, ground arith)
            ]
          ]
        ]

    store_credentials-AreStored :
        (dir : String) (cfg c : RestConfig) (w : T.World)
        → AreApart dir
        → (store_credentials files dir cfg w).0 ≡ ok c
        → AreStored dir cfg (store_credentials files dir cfg w).1
    store_credentials-AreStored dir cfg c w (apart1, apart2, apart3) h =
        let w0 = (files.mkdir_all dir w).1 in
        let cert = store_credential files dir "cert.crt" cfg.cert_file cfg.cert_data w0 in
        let ca = store_credential files dir "ca.crt" cfg.ca_file cfg.ca_data cert.1 in
        let key = store_credential files dir "private.key" cfg.key_file cfg.key_data ca.1 in
        let (f1, f2, f3, e1, e2, e3, same) = store_credentials-parts dir cfg c w h in
        let s1 = store_credential-IsStored dir "cert.crt" cfg.cert_file cfg.cert_data w0 e1 in
        let s2 = store_credential-IsStored dir "ca.crt" cfg.ca_file cfg.ca_data cert.1 e2 in
        let s3 = store_credential-IsStored dir "private.key" cfg.key_file cfg.key_data ca.1 e3 in
        let s1' =
          store_credential-stays dir "cert.crt" cfg.cert_file "ca.crt" cfg.ca_file cfg.cert_data
            cfg.ca_data cert.1 apart1 s1 in
        subst (AreStored dir cfg) (sym same) (
          store_credential-stays dir "cert.crt" cfg.cert_file "private.key" cfg.key_file
              cfg.cert_data cfg.key_data ca.1 apart2 s1',
          store_credential-stays dir "ca.crt" cfg.ca_file "private.key" cfg.key_file cfg.ca_data
              cfg.key_data ca.1 apart3 s2,
          s3,
        )

    -- With files as WriteLaws says, where the three files of the folder `serviceaccount` of the
    -- workspace are different ones: a connection that is made has the limits of the code, and verifies
    -- the cluster; each of its credentials is in the file that was given for it, or, where data alone
    -- were given, in the one of the folder, whose content is then the data.
    pub new_kubernetes_config-Connects :
        (workspace : String) (found cfg : RestConfig) (w : T.World)
        → AreApart (files.join (workspace ∷ "serviceaccount" ∷ []))
        → (new_kubernetes_config files workspace found w).0 ≡ ok cfg
        → let dir = files.join (workspace ∷ "serviceaccount" ∷ []) in
          Connects dir found cfg
          × AreStored dir found (new_kubernetes_config files workspace found w).1
    unfolding new_kubernetes_config
    new_kubernetes_config-Connects workspace found cfg w apart made =
        let dir = files.join (workspace ∷ "serviceaccount" ∷ []) in
        let start : RestConfig = record found { insecure = false; qps = 50; burst = 100 } in
        (
          ground (arith, store_credentials-files dir start w),
          elim (Bool-cases (found.cert_file == "" || found.ca_file == "" || found.key_file == "")) [
            | inr complete ↦ (inl (ground arith), inl (ground arith), inl (ground arith))
            | inl some_missing ↦
                let stored = store_credentials-AreStored dir start cfg w apart (ground arith) in
                rw some_missing stored
          ],
        )
