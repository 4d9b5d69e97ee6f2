-- ===== src/Util/Search.antt =====
-- server/pkg/util/utils.go, FindFilesWithRegex and GetFilesFullPath: what they find.
use mathlib.Core.List.{Memᴰ}
use dummy_cd.Base.{
  String, ◌≡◌, refl, sym, ap, subst, ◌⊎◌, inl, inr, true, none, List, [], ◌∷◌, ◌++◌, arith,
}
use dummy_cd.Go.{value, ok}
use dummy_cd.Libs.{Types}
use dummy_cd.Libs.Files.{FilesLibrary, WalkEntry}
use dummy_cd.Util.{visit, visit_all, find_files_with_regex, get_files_full_path}

module _ {T : Types} (files : FilesLibrary T) where
  module _ (rx : T.Regexp) where
    -- An entry that the walk could read, and whose base name fits.
    abbrev pub Fits : WalkEntry → Type 0
    Fits entry = (entry.error ≡ none) × (files.match_string rx entry.name ≡ true)

    visit_cases :
        (entry : WalkEntry)
        → (Fits entry × (visit files rx entry ≡ entry.name ∷ [])) ⊎ (visit files rx entry ≡ [])
    unfolding visit
    visit_cases entry = ground arith

    visit-Fits : (entry : WalkEntry) → Fits entry → visit files rx entry ≡ entry.name ∷ []
    unfolding visit
    visit-Fits entry f = ground arith

    abbrev pub Found : String → List WalkEntry → Type 0
    Found name entries = (entry : WalkEntry) × Memᴰ entry entries × Fits entry × (name ≡ entry.name)

    later :
        (name : String) (e : WalkEntry) (es : List WalkEntry) → Found name es → Found name (e ∷ es)
    later name e es (entry, m, f, n) = (entry, Memᴰ.tail m, f, n)

    visit_all_sound :
        (name : String) (entries : List WalkEntry)
        → Memᴰ name (visit_all files rx entries)
        → Found name entries
    unfolding visit_all
    visit_all_sound name [] m = elim m [ ]
    visit_all_sound name (e ∷ es) m = elim (visit_cases e) [
      | inl hit ↦
          split (subst (λ xs. Memᴰ name (xs ++ visit_all files rx es)) hit.1 m) hit.0
            (visit_all_sound name es)
      | inr miss ↦
          later name e es
            (visit_all_sound name es (subst (λ xs. Memᴰ name (xs ++ visit_all files rx es)) miss m))
    ]
      where
        split :
            Memᴰ name (e.name ∷ visit_all files rx es)
            → Fits e
            → (Memᴰ name (visit_all files rx es) → Found name es)
            → Found name (e ∷ es)
        split (Memᴰ.head n) f go = (e, Memᴰ.head refl, f, n)
        split (Memᴰ.tail m') f go = later name e es (go m')

    visit_all_complete :
        (entry : WalkEntry) (entries : List WalkEntry)
        → Memᴰ entry entries
        → Fits entry
        → Memᴰ entry.name (visit_all files rx entries)
    unfolding visit_all
    visit_all_complete entry [] m f = elim m [ ]
    visit_all_complete entry (e ∷ es) (Memᴰ.head same) f =
        subst (λ xs. Memᴰ entry.name (xs ++ visit_all files rx es))
          (sym (visit-Fits e (subst Fits same f))) (Memᴰ.head (ap (λ (x : WalkEntry). x.name) same))
    visit_all_complete entry (e ∷ es) (Memᴰ.tail m) f =
        let rest = visit_all_complete entry es m f in
        elim (visit_cases e) [
          | inl hit ↦
              subst (λ xs. Memᴰ entry.name (xs ++ visit_all files rx es)) (sym hit.1)
                (Memᴰ.tail rest)
          | inr miss ↦ subst (λ xs. Memᴰ entry.name (xs ++ visit_all files rx es)) (sym miss) rest
        ]

  -- Where the expression compiles and the walk answers, the search answers with the base names of
  -- exactly the entries that the walk could read and whose base name fits, and the state of the
  -- world is what the walk leaves.
  pub find_files_with_regex-exact :
      (root reg_expr : String) (rx : T.Regexp) (w : T.World) (entries : List WalkEntry)
      → files.compile reg_expr ≡ value rx
      → (files.walk root w).0 ≡ value entries
      → (names : List String) × (find_files_with_regex files root reg_expr w
          ≡ (ok names, (files.walk root w).1))
        × ((name : String)
            → (Memᴰ name names → Found rx name entries) × (Found rx name entries → Memᴰ name names))
  unfolding find_files_with_regex
  find_files_with_regex-exact root reg_expr rx w entries compiled walked = (
    visit_all files rx entries,
    ground arith,
    λ name. (
      visit_all_sound rx name entries,
      λ found.
          subst (λ n. Memᴰ n (visit_all files rx entries)) (sym found.3)
            (visit_all_complete rx found.0 entries found.1 found.2),
    ),
  )

  -- The full path of a name that is in a list of names.
  pub get_files_full_path-mem :
      (root name : String) (names : List String)
      → Memᴰ name names
      → Memᴰ (files.join (root ∷ name ∷ [])) (get_files_full_path files root names)
  unfolding get_files_full_path
  get_files_full_path-mem root name [] m = elim m [ ]
  get_files_full_path-mem root name (x ∷ xs) (Memᴰ.head e) =
      Memᴰ.head (ap (λ (n : String). files.join (root ∷ n ∷ [])) e)
  get_files_full_path-mem root name (x ∷ xs) (Memᴰ.tail m) =
      Memᴰ.tail (get_files_full_path-mem root name xs m)
