-- ===== src/Dsl/Matrix.antt =====
-- internal/dsl/matrix.go: the combinations of a matrix step.
pub mod Bounds
use unified_cd.Prelude.{
  ℕ, zero, suc, ◌*◌, ◌/◌, Bool, true, false, not, ◌&&◌, ◌||◌, List, [], ◌∷◌, ◌++◌, Option, none,
  some, ltb, ◌==◌, if◌then◌else◌, length, is_empty, any, all, keep, Text, text_eq, Table, lookup,
  insert,
}
use unified_cd.Authz.Folder.{slash}

pub record MatrixCombo : Type 0 where
  pub values : Table Text
  pub key : Text

pub record MatrixDimension (S : Type 0) : Type 0 where
  pub name : Text
  pub source : S

pub record MatrixDef (S : Type 0) : Type 0 where
  pub dimensions : List (MatrixDimension S)
  pub exclude : List (Table Text)

pub data MatrixError : Type 0 where
  no_dimensions : MatrixError
  bad_source : Text → MatrixError
  too_many : ℕ → ℕ → MatrixError
  slash_in_value : Text → Text → MatrixError

pub data Expansion : Type 0 where
  combos : List MatrixCombo → Expansion
  failed : MatrixError → Expansion

abbrev pub default_matrix_max_combinations : ℕ
default_matrix_max_combinations = 64

abbrev pub empty_combo : MatrixCombo
empty_combo = record { values = []; key = [] }

-- One more dimension: its value, and the key joined with a slash.
unfoldable pub extend : MatrixCombo → Text → Text → MatrixCombo
extend c name v = record {
  values = insert name v c.values;
  key = if is_empty c.key then v else c.key ++ slash ∷ v;
}

unfoldable pub extend_all : MatrixCombo → Text → List Text → List MatrixCombo
extend_all c name [] = []
extend_all c name (v ∷ vs) = extend c name v ∷ extend_all c name vs

unfoldable pub product : List MatrixCombo → Text → List Text → List MatrixCombo
product [] name items = []
product (c ∷ cs) name items = extend_all c name items ++ product cs name items

-- The first value that holds the separator.
unfoldable pub first_with_slash : List Text → Option Text
first_with_slash [] = none
first_with_slash (v ∷ vs) =
    let rest = first_with_slash vs in if any (λ c. c == slash) v then some v else rest

-- The two loops over the combinations and the values; there is no round without a combination.
abbrev pub product_unless : List MatrixCombo → Text → List Text → Option Text → Expansion
product_unless cs name items none = combos (product cs name items)
product_unless cs name items (some v) =
    if is_empty cs then combos [] else failed (slash_in_value name v)

unfoldable pub exceeds : ℕ → List MatrixCombo → List Text → Bool
exceeds max cs items = not (is_empty items) && ltb (max / length items) (length cs)

abbrev pub add_items : ℕ → Text → List MatrixCombo → Option (List Text) → Expansion
add_items max name cs none = failed (bad_source name)
add_items max name cs (some items) =
    if exceeds max cs items
    then failed (too_many (length cs * length items) max)
    else product_unless cs name items (first_with_slash items)

-- `matchesAnyExclude`: an entry without pairs matches nothing.
abbrev pub value_of : Option Text → Text
value_of none = []
value_of (some v) = v

unfoldable pub matches_entry : Table Text → Table Text → Bool
matches_entry values ex =
    not (is_empty ex) && all (λ e. text_eq (value_of (lookup e.0 values)) e.1) ex

unfoldable pub matches_any_exclude : Table Text → List (Table Text) → Bool
matches_any_exclude values exclude = any (matches_entry values) exclude

abbrev pub and_then : Expansion → (List MatrixCombo → Expansion) → Expansion
and_then (failed e) next = failed e
and_then (combos cs) next = next cs

-- The excluded combinations are dropped, and the count is checked again.
unfoldable pub filtered : ℕ → List (Table Text) → List MatrixCombo → Expansion
filtered max exclude cs =
    let kept = keep (λ c. not (matches_any_exclude c.values exclude)) cs in
    if ltb max (length kept) then failed (too_many (length kept) max) else combos kept

-- `eval_source` is `EvalForeachSource` on the data at hand; `none` is its error.
module _ {S : Type 0} (eval_source : S → Option (List Text)) where
  unfoldable pub expand : ℕ → List (MatrixDimension S) → List MatrixCombo → Expansion
  expand max [] cs = combos cs
  expand max (d ∷ ds) cs = and_then (add_items max d.name cs (eval_source d.source)) (expand max ds)

  -- `maxCombos` of 0 or less, here 0, is the default.
  unfoldable pub eval_matrix : MatrixDef S → ℕ → Expansion
  eval_matrix def max_combos =
      let max = if max_combos == 0 then default_matrix_max_combinations else max_combos in
      if is_empty def.dimensions
      then failed no_dimensions
      else and_then (expand max def.dimensions (empty_combo ∷ [])) (filtered max def.exclude)
