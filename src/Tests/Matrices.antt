-- ===== src/Tests/Matrices.antt =====
-- A matrix of two systems and two architectures, without one of the four.
use unified_cd.Prelude.{
  ◌≡◌, refl, ℕ, ◌≤◌, Bool, true, false, not, List, [], ◌∷◌, Option, none, some, length, is_empty,
  all, keep, Text, str,
}
use unified_cd.Dsl.Matrix.{
  MatrixCombo, MatrixDef, combos, failed, slash_in_value, empty_combo, matches_any_exclude, expand,
  eval_matrix,
}
use unified_cd.Dsl.Matrix.Bounds.{limit_of, eval_matrix-expands}

abbrev literal : List Text → Option (List Text)
literal items = some items

abbrev matrix : MatrixDef (List Text)
matrix = record {
  dimensions =
      record { name = str "os"; source = str "linux" ∷ str "windows" ∷ [] }
      ∷ record { name = str "arch"; source = str "amd64" ∷ str "arm64" ∷ [] }
      ∷ [];
  exclude = ((str "os", str "windows") ∷ (str "arch", str "arm64") ∷ []) ∷ [];
}

abbrev combo : Text → Text → Text → MatrixCombo
combo os arch key = record { values = (str "os", os) ∷ (str "arch", arch) ∷ []; key = key }

abbrev three : List MatrixCombo
three =
    combo (str "linux") (str "amd64") (str "linux/amd64")
    ∷ combo (str "linux") (str "arm64") (str "linux/arm64")
    ∷ combo (str "windows") (str "amd64") (str "windows/amd64")
    ∷ []

abbrev four : List MatrixCombo
four =
    combo (str "linux") (str "amd64") (str "linux/amd64")
    ∷ combo (str "linux") (str "arm64") (str "linux/arm64")
    ∷ combo (str "windows") (str "amd64") (str "windows/amd64")
    ∷ combo (str "windows") (str "arm64") (str "windows/arm64")
    ∷ []

expands : expand literal (limit_of 0) matrix.dimensions (empty_combo ∷ []) ≡ combos four
unfolding expand unified_cd.Dsl.Matrix.exceeds unified_cd.Dsl.Matrix.first_with_slash
    unified_cd.Prelude.any unified_cd.Dsl.Matrix.product unified_cd.Dsl.Matrix.extend_all
    unified_cd.Dsl.Matrix.extend unified_cd.Prelude.insert
expands = refl

evaluates : eval_matrix literal matrix 0 ≡ combos three
unfolding eval_matrix expand unified_cd.Dsl.Matrix.exceeds unified_cd.Dsl.Matrix.first_with_slash
    unified_cd.Prelude.any unified_cd.Dsl.Matrix.product unified_cd.Dsl.Matrix.extend_all
    unified_cd.Dsl.Matrix.filtered keep matches_any_exclude unified_cd.Dsl.Matrix.matches_entry all
    unified_cd.Prelude.text_eq unified_cd.Prelude.lookup unified_cd.Dsl.Matrix.extend
    unified_cd.Prelude.insert
evaluates = refl

eval_matrix-expands_example :
    eval_matrix literal matrix 0
    ≡ combos (keep (λ c. not (matches_any_exclude c.values matrix.exclude)) four)
eval_matrix-expands_example = eval_matrix-expands literal matrix 0 refl expands
