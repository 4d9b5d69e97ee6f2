-- ===== src/Util.antt =====
-- server/pkg/util/utils.go: files, and the search for files by a regular expression.
pub mod Search
use dummy_cd.Base.{String, Option, none, some, List, [], ◌∷◌, ◌++◌, if◌then◌else◌}
use dummy_cd.Go.{
  Error, Returned, value, failed, Exec, pure, panics, call, must, ◌>>=◌, ◌>>◌, deferred,
}
use dummy_cd.Libs.{Types}
use dummy_cd.Libs.Files.{FilesLibrary, WalkEntry, Bytes}

-- A nil pointer in place of an error.
unfoldable pub pointer {ℓ} : {A : Type ℓ} → Returned A → Option A
pointer (value a) = some a
pointer (failed e) = none

unfoldable pub panic_on_error : {S : Type 0} → Option Error → Exec S (Unit {0})
panic_on_error none = pure tt
panic_on_error (some e) = panics

module _ {T : Types} (files : FilesLibrary T) where
  unfoldable pub get_user_home : Option String
  unfolding pointer
  get_user_home = pointer files.user_home_dir

  unfoldable pub read_file : String → Exec T.World (Option Bytes)
  unfolding pointer
  read_file path = do file ← call (files.read_file path); pure (pointer file)

  unfoldable pub write_file : String → Bytes → Exec T.World (Unit {0})
  write_file path content = do
    file ← must (files.open_file path)
    deferred (files.close file) do must (files.write file content); pure tt

  unfoldable pub get_files_full_path : String → List String → List String
  get_files_full_path path [] = []
  get_files_full_path path (file ∷ rest) =
      files.join (path ∷ file ∷ []) ∷ get_files_full_path path rest

  -- The callback of filepath.Walk: what it adds to the results for one file. It returns nil always.
  unfoldable pub visit : T.Regexp → WalkEntry → List String
  visit rx entry = elim entry.error [
    | none ↦ if files.match_string rx entry.name then entry.name ∷ [] else []
    | some e ↦ []
  ]

  unfoldable pub visit_all : T.Regexp → List WalkEntry → List String
  unfolding visit
  visit_all rx [] = []
  visit_all rx (entry ∷ rest) = visit rx entry ++ visit_all rx rest

  -- A nil slice and an empty one are both `[]`.
  unfoldable pub find_files_with_regex : String → String → Exec T.World (List String)
  unfolding visit_all
  find_files_with_regex root reg_expr = elim (files.compile reg_expr) [
    | failed e ↦ pure []
    | value rx ↦ do
      walked ← call (files.walk root)
      elim walked [ value entries ↦ pure (visit_all rx entries) | failed e ↦ pure [] ]
  ]
