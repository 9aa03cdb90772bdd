-- ===== src/Authz/Folder.antt =====
-- internal/authz/folder.go: folder keys, and which jobs a folder covers.
pub mod Laws
use unified_cd.Prelude.{
  ℕ, ◌≤◌, ◌+◌, ◌-◌, Bool, true, false, not, ◌&&◌, ◌||◌, List, [], ◌∷◌, ◌++◌, Option, none, some,
  ◌==◌, leb, if◌then◌else◌, is_empty, any, Text, str, text_eq, has_prefix,
}
use mathlib.Core.List.{reverse}

-- The three ways `NormalizeFolder` refuses a key.
pub data FolderError : Type 0 where
  whitespace pattern_char bad_segment : FolderError

pub data Normalized : Type 0 where
  ok : Text → Normalized
  err : FolderError → Normalized

abbrev pub slash : ℕ
slash = b'/'

-- strings.Split on one byte: always at least one segment. `seg` is the segment read so far.
unfoldable pub split_from : ℕ → Text → Text → List Text
split_from c seg [] = seg ∷ []
split_from c seg (x ∷ rest) =
    let cut = seg ∷ split_from c [] rest in
    let on = split_from c (seg ++ x ∷ []) rest in if x == c then cut else on

unfoldable pub split : ℕ → Text → List Text
unfolding split_from
split c s = split_from c [] s

-- strings.TrimLeft on one byte.
unfoldable pub trim_left : ℕ → Text → Text
trim_left c [] = []
trim_left c (x ∷ s) = let rest = trim_left c s in if x == c then rest else x ∷ s

-- strings.Trim on one byte.
unfoldable pub trim : ℕ → Text → Text
unfolding trim_left
trim c s = reverse (trim_left c (reverse (trim_left c s)))

unfoldable pub is_bad_segment : Text → Bool
unfolding text_eq
is_bad_segment seg = text_eq seg [] || text_eq seg (str ".") || text_eq seg (str "..")

-- strings.ContainsAny(key, "*?[")
abbrev pub is_pattern_char : ℕ → Bool
is_pattern_char c = c == b'*' || c == b'?' || c == b'['

-- `has_space` is whether some rune of the key is a space by the Unicode tables (unicode.IsSpace).
module _ (has_space : Text → Bool) where
  unfoldable pub normalize_folder : Text → Normalized
  unfolding any trim split is_bad_segment
  normalize_folder key =
      if has_space key
      then err whitespace
      else if any is_pattern_char key
      then err pattern_char
      else if any is_bad_segment (split slash (trim slash key))
      then err bad_segment
      else ok (trim slash key)

-- Whether the folder is a proper ancestor of the job.
unfoldable pub covers : Text → Text → Bool
unfolding has_prefix
covers folder job = has_prefix job (folder ++ slash ∷ [])

-- The loop of `Ancestors`: `pre` is `job[:i]`, so it is empty exactly at `i == 0`.
unfoldable pub ancestors_from : Text → Text → List Text
ancestors_from pre [] = []
ancestors_from pre (c ∷ rest) =
    let more = ancestors_from (pre ++ c ∷ []) rest in
    if c == slash && not (is_empty pre) then pre ∷ more else more

unfoldable pub ancestors : Text → List Text
unfolding ancestors_from
ancestors job = ancestors_from [] job
