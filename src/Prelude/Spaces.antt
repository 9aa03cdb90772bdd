-- ===== src/Prelude/Spaces.antt =====
-- Go's strings.TrimSpace, Fields, TrimSuffix and ToUpper, on ASCII text.
use Prim.Native.Nat.{ℕ, ◌-◌}
use mathlib.Core.Bool.{Bool, ◌&&◌, ◌||◌}
use mathlib.Core.List.{List, [], ◌∷◌, map}
use unified_cd.Prelude.Tests.{◌==◌, leb, if◌then◌else◌}
use unified_cd.Prelude.Lists.{is_empty}
use unified_cd.Prelude.Strings.{Text}

-- A tab, newline, vertical tab, form feed, carriage return or space.
abbrev pub is_space : ℕ → Bool
is_space c = c == 32 || leb 9 c && leb c 13

abbrev pub drop_spaces : Text → Text
drop_spaces [] = []
drop_spaces (c ∷ s) = if is_space c then drop_spaces s else c ∷ s

-- A byte before trimmed text; a space before nothing is dropped.
abbrev pub keep_inner : ℕ → Text → Text
keep_inner c [] = if is_space c then [] else c ∷ []
keep_inner c (d ∷ s) = c ∷ d ∷ s

abbrev pub drop_last_spaces : Text → Text
drop_last_spaces [] = []
drop_last_spaces (c ∷ s) = keep_inner c (drop_last_spaces s)

unfoldable pub trim_space : Text → Text
trim_space s = drop_last_spaces (drop_spaces s)

abbrev pub extend_first : ℕ → List Text → List Text
extend_first c [] = (c ∷ []) ∷ []
extend_first c (p ∷ ps) = (c ∷ p) ∷ ps

abbrev pub non_empty_parts : List Text → List Text
non_empty_parts [] = []
non_empty_parts (p ∷ ps) = if is_empty p then non_empty_parts ps else p ∷ non_empty_parts ps

abbrev pub split_spaces : Text → List Text
split_spaces [] = [] ∷ []
split_spaces (c ∷ s) =
    let rest = split_spaces s in if is_space c then [] ∷ rest else extend_first c rest

-- strings.Fields
unfoldable pub fields : Text → List Text
fields s = non_empty_parts (split_spaces s)

-- strings.TrimSuffix, of one byte.
unfoldable pub trim_last : ℕ → Text → Text
trim_last b [] = []
trim_last b (c ∷ []) = if c == b then [] else c ∷ []
trim_last b (c ∷ d ∷ s) = c ∷ trim_last b (d ∷ s)

unfoldable pub to_upper : Text → Text
to_upper s = map (λ c. if leb b'a' c && leb c b'z' then c - 32 else c) s
