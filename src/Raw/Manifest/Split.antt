-- ===== src/Raw/Manifest/Split.antt =====
-- server/pkg/provider/raw.go, NewUnstructuredResource: the group and the version of an apiVersion.
use Prim.Native.Char.{code}
use Prim.Native.String.{◌++◌ as append}
use text.Mathlib.TextLemmas.{cons-append, nil-append}
use dummy_cd.Base.{String, ◌≡◌, refl, ap, ◌∙◌, false, [], ◌∷◌, nat_eq}
use dummy_cd.Raw.Manifest.{split_slash, group_version}

-- No character of the text is a slash.
abbrev pub IsSlashFree : String → Type 0
IsSlashFree String.[] = Unit
IsSlashFree (String.◌∷◌ c s) = (nat_eq (code c) b'/' ≡ false) × IsSlashFree s

pub split_slash-free : (s : String) → IsSlashFree s → split_slash s ≡ s ∷ []
unfolding split_slash
split_slash-free String.[] h = refl
split_slash-free (String.◌∷◌ c s) h = rw (h.0, split_slash-free s h.1) refl

pub slash-append : (v : String) → append "/" v ≡ String.◌∷◌ "/" v
slash-append v = cons-append "/" "" v ∙ ap (String.◌∷◌ "/") (nil-append v)

pub split_slash-append :
    (g v : String) → IsSlashFree g → split_slash (append g (append "/" v)) ≡ g ∷ split_slash v
unfolding split_slash
split_slash-append String.[] v h = rw (nil-append (append "/" v), slash-append v) refl
split_slash-append (String.◌∷◌ c g) v h =
    rw (cons-append c g (append "/" v)) (rw (split_slash-append g v h.1, h.0) refl)

-- An apiVersion of a group and a version, with no slash in either, is taken apart into the two; one
-- without a slash is a version of the core group.
pub group_version-split :
    (g v : String)
    → IsSlashFree g
    → IsSlashFree v
    → (group_version (split_slash (append g (append "/" v))) ≡ (g, v))
      × (group_version (split_slash v) ≡ ("", v))
unfolding group_version
group_version-split g v hg hv =
    (rw (split_slash-append g v hg, split_slash-free v hv) refl, rw (split_slash-free v hv) refl)
