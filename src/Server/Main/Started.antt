-- ===== src/Server/Main/Started.antt =====
-- server/main.go: what has come up.
use dummy_cd.Base.{ℕ, ◌≡◌, false, [], arith}
use dummy_cd.Go.{OnOk}
use dummy_cd.Libs.{Types}
use dummy_cd.Instance.{Libraries}
use dummy_cd.Server.Main.{Server, MainLibrary, new_server, start}

module _ {T : Types} where
  -- The handler has no repositories, and its mutex is free.
  abbrev pub IsNew : Server T → Type 0
  IsNew server = (server.handler.repos ≡ []) × (server.handler.held ≡ false)

module _ {T : Types} (libs : Libraries T) (main_lib : MainLibrary T.World) where
  pub start-IsNew : (port : ℕ) (w : T.World) → OnOk IsNew (start libs main_lib port w).0
  unfolding start new_server
  start-IsNew port w = ground arith
