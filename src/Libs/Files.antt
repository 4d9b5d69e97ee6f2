-- ===== src/Libs/Files.antt =====
-- The packages os, path, path/filepath and regexp, as far as the server calls them.
use dummy_cd.Base.{ℕ, String, Bool, Option, List}
use dummy_cd.Go.{Error, Returned, Call}
use dummy_cd.Libs.{Types}

abbrev pub Bytes : Type 0
Bytes = List ℕ

-- What filepath.Walk hands to its callback for one file.
pub record WalkEntry : Type 0 where
  pub path : String
  pub name : String
  pub error : Option Error

pub record FilesLibrary (T : Types) : Type 0 where
  pub user_home_dir : Returned String
  pub join : List String → String
  pub read_file : String → Call T.World Bytes
  pub open_file : String → Call T.World T.File
  pub write : T.File → Bytes → Call T.World ℕ
  pub close : T.File → T.World → T.World
  pub mkdir_all : String → Call T.World (Unit {0})
  pub remove_all : String → Call T.World (Unit {0})
  pub compile : String → Returned T.Regexp
  pub match_string : T.Regexp → String → Bool
  pub walk : String → Call T.World (List WalkEntry)
