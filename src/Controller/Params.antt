-- ===== src/Controller/Params.antt =====
-- internal/controller/params.go: the parameters of a run against the job's declared inputs.
pub mod Filling
pub mod Empty
pub mod Resolved
pub mod Webhook
use unified_cd.Prelude.{
  Bool, true, false, not, ◌&&◌, ◌||◌, List, [], ◌∷◌, ◌++◌, map, Option, none, some, if◌then◌else◌,
  is_empty, Text, str, text_eq, contains, has_substring, Table, lookup, insert,
}
use unified_cd.Authz.Set.{sort_strings}

-- `default` is the declared default as `fmt.Sprintf("%v", …)` renders it, `none` for nil.
pub record Input : Type 0 where
  pub name : Text
  pub required : Bool
  pub default : Option Text
  pub pattern : Text
  pub choices : List Text
  pub unvalidated : Bool

pub data ParamError : Type 0 where
  missing_params : List Text → ParamError
  invalid_pattern : Text → Text → ParamError
  pattern_mismatch : Text → Text → ParamError
  not_a_choice : Text → List Text → ParamError
  unguarded_mapping : Text → Text → Text → ParamError

pub data Resolution : Type 0 where
  resolved : Table Text → Resolution
  failed : ParamError → Resolution

abbrev pub value_of : Option Text → Text
value_of none = []
value_of (some v) = v

-- Present and not the empty string.
unfoldable pub is_set : Table Text → Text → Bool
is_set m name = not (is_empty (value_of (lookup name m)))

-- The two variables of the first loop.
pub record Filled : Type 0 where
  pub values : Table Text
  pub missing : List Text

abbrev pub fill_unset : Filled → Input → Option Text → Filled
fill_unset f i (some d) = record f { values = insert i.name d f.values }
fill_unset f i none = if i.required then record f { missing = f.missing ++ i.name ∷ [] } else f

unfoldable pub fill_one : Filled → Input → Filled
fill_one f i = if is_set f.values i.name then f else fill_unset f i i.default

unfoldable pub fill_all : Filled → List Input → Filled
fill_all f [] = f
fill_all f (i ∷ rest) = fill_all (fill_one f i) rest

-- The first error of a loop that returns at the first.
abbrev pub or_error : Option ParamError → Option ParamError → Option ParamError
or_error none later = later
or_error (some e) later = some e

abbrev pub choice_error : Input → Text → Option ParamError
choice_error i v =
    if is_empty v || contains i.choices v then none else some (not_a_choice i.name i.choices)

abbrev pub choice_error_at : Input → Option Text → Option ParamError
choice_error_at i none = none
choice_error_at i (some v) = choice_error i v

unfoldable pub check_choice : Table Text → Input → Option ParamError
check_choice m i = if is_empty i.choices then none else choice_error_at i (lookup i.name m)

unfoldable pub check_choices : Table Text → List Input → Option ParamError
check_choices m [] = none
check_choices m (i ∷ rest) = or_error (check_choice m i) (check_choices m rest)

-- `compile` is regexp.Compile with MatchString; `none` is a malformed pattern.
module _ (compile : Text → Option (Text → Bool)) where
  abbrev pub match_error : Input → Text → Option (Text → Bool) → Option ParamError
  match_error i v none = some (invalid_pattern i.name i.pattern)
  match_error i v (some matches) =
      if matches v then none else some (pattern_mismatch i.name i.pattern)

  abbrev pub pattern_error_at : Input → Option Text → Option ParamError
  pattern_error_at i none = none
  pattern_error_at i (some v) = match_error i v (compile i.pattern)

  unfoldable pub check_pattern : Table Text → Input → Option ParamError
  check_pattern m i = if is_empty i.pattern then none else pattern_error_at i (lookup i.name m)

  unfoldable pub check_patterns : Table Text → List Input → Option ParamError
  check_patterns m [] = none
  check_patterns m (i ∷ rest) = or_error (check_pattern m i) (check_patterns m rest)

  abbrev pub resolved_unless : Table Text → Option ParamError → Resolution
  resolved_unless m none = resolved m
  resolved_unless m (some e) = failed e

  unfoldable pub resolve_params : List Input → Table Text → Resolution
  resolve_params inputs supplied =
      let f = fill_all (record { values = supplied; missing = [] }) inputs in
      if not (is_empty f.missing)
      then failed (missing_params f.missing)
      else resolved_unless f.values
          (or_error (check_patterns f.values inputs) (check_choices f.values inputs))

-- `byName`: a later input of a name replaces an earlier one.
abbrev pub by_name : List Input → Table Input → Table Input
by_name [] m = m
by_name (i ∷ rest) m = by_name rest (insert i.name i m)

abbrev pub is_constrained : Option Input → Bool
is_constrained none = false
is_constrained (some i) = not (is_empty i.pattern) || (i.unvalidated || not (is_empty i.choices))

unfoldable pub check_mapping :
    Text → Text → Table Input → Table Text → List Text → Option ParamError
check_mapping receiver job inputs mapping [] = none
check_mapping receiver job inputs mapping (param ∷ rest) =
    let later = check_mapping receiver job inputs mapping rest in
    if not (has_substring (value_of (lookup param mapping)) (str "{{"))
    then later
    else if is_constrained (lookup param inputs)
    then later
    else some (unguarded_mapping receiver param job)

unfoldable pub validate_webhook_payload_mapped_params :
    Text → Table Text → List Input → Text → Option ParamError
validate_webhook_payload_mapped_params receiver mapping inputs job =
    check_mapping receiver job (by_name inputs []) mapping (sort_strings (map (λ e. e.0) mapping))
