-- ===== src/Dsl/Values.antt =====
-- Decoded YAML and JSON: what a Go value of type `any` can be in a job's definition.
use unified_cd.Prelude.{ℕ, Bool, true, false, ◌||◌, [], if◌then◌else◌, Text, text_eq}

-- A number is told apart by what the program asks of it: an `int` by its sign, a `float64` by
-- whether it is a whole number that is not negative.
mutual
  pub data Value : Type 0 where
    null : Value
    bool_value : Bool → Value
    string_value : Text → Value
    int_value : ℕ → Value
    negative_int : ℕ → Value
    whole_float : ℕ → Value
    other_float : Value
    list_value : Values → Value
    map_value : Fields → Value

  pub data Values : Type 0 where
    no_values : Values
    value : Value → Values → Values

  pub data Fields : Type 0 where
    no_fields : Fields
    field : Text → Value → Fields → Fields

-- Whether the map has the key.
unfoldable pub has_field : Text → Fields → Bool
has_field k no_fields = false
has_field k (field j v fs) = text_eq j k || has_field k fs

-- `m[k]`, nil on a missing key.
unfoldable pub get_field : Text → Fields → Value
get_field k no_fields = null
get_field k (field j v fs) = let rest = get_field k fs in if text_eq j k then v else rest

-- `len(m) > 0`, and `len(m) == 1`.
abbrev pub has_fields : Fields → Bool
has_fields no_fields = false
has_fields (field k v fs) = true

abbrev pub has_one_field : Fields → Bool
has_one_field (field k v no_fields) = true
has_one_field _ = false

-- `v.(map[string]any)`, an empty map where it fails.
abbrev pub as_map : Value → Fields
as_map (map_value fs) = fs
as_map _ = no_fields

-- `v.([]any)`, an empty list where it fails.
abbrev pub as_list : Value → Values
as_list (list_value vs) = vs
as_list _ = no_values

-- `v.(string)`, empty where it fails.
abbrev pub as_string : Value → Text
as_string (string_value s) = s
as_string _ = []

abbrev pub is_string : Value → Bool
is_string (string_value s) = true
is_string _ = false

-- A loop over a map or a list that returns at the first hit.
unfoldable pub any_field : (Text → Value → Bool) → Fields → Bool
any_field p no_fields = false
any_field p (field k v fs) = p k v || any_field p fs

unfoldable pub any_value : (Value → Bool) → Values → Bool
any_value p no_values = false
any_value p (value v vs) = p v || any_value p vs
