-- ===== src/Tests/Parameters.antt =====
-- A job with a required parameter, a choice and a free one, triggered by a webhook.
use unified_cd.Prelude.{
  ◌≡◌, refl, Bool, true, false, not, ◌&&◌, ◌||◌, List, [], ◌∷◌, Option, none, some, any, all,
  is_empty, Text, str, text_eq, has_prefix, Table, lookup,
}
use unified_cd.Controller.Params.{Input, resolved, failed, missing_params, is_set, resolve_params}
use unified_cd.Controller.Params.Resolved.{accepts, resolve_params-accepts}

-- A pattern that stands for the values it is a prefix of; `(` alone is malformed.
abbrev if_malformed : Bool → Text → Option (Text → Bool)
if_malformed true p = none
if_malformed false p = some (λ v. has_prefix v p)

abbrev prefix_pattern : Text → Option (Text → Bool)
prefix_pattern p = if_malformed (text_eq p (str "(")) p

abbrev tag : Input
tag = record {
  name = str "tag";
  required = true;
  default = none;
  pattern = str "v";
  choices = [];
  unvalidated = false;
}

abbrev target : Input
target = record {
  name = str "target";
  required = false;
  default = some (str "staging");
  pattern = [];
  choices = str "staging" ∷ str "production" ∷ [];
  unvalidated = false;
}

abbrev inputs : List Input
inputs = tag ∷ target ∷ []

abbrev supplied : Table Text
supplied = (str "tag", str "v1") ∷ (str "note", str "x") ∷ []

abbrev resolved_values : Table Text
resolved_values = (str "tag", str "v1") ∷ (str "note", str "x") ∷ (str "target", str "staging") ∷ []

resolves : resolve_params prefix_pattern inputs supplied ≡ resolved resolved_values
unfolding resolve_params unified_cd.Controller.Params.fill_all unified_cd.Controller.Params.fill_one
    is_set lookup unified_cd.Controller.Params.check_patterns
    unified_cd.Controller.Params.check_pattern unified_cd.Prelude.insert has_prefix
    unified_cd.Controller.Params.check_choices unified_cd.Controller.Params.check_choice
    unified_cd.Prelude.contains
resolves = refl

lacking : resolve_params prefix_pattern inputs [] ≡ failed (missing_params (str "tag" ∷ []))
unfolding resolve_params unified_cd.Controller.Params.fill_all unified_cd.Controller.Params.fill_one
    is_set lookup
lacking = refl

tag_is_set : is_set supplied (str "tag") ≡ true
unfolding is_set lookup
tag_is_set = refl

note_is_undeclared : any (λ i. text_eq i.name (str "note")) inputs ≡ false
unfolding any text_eq
note_is_undeclared = refl

resolve_params-accepts_example :
    all (λ i. accepts prefix_pattern i (lookup i.name resolved_values)) inputs ≡ true
resolve_params-accepts_example = resolve_params-accepts prefix_pattern inputs supplied resolves

abbrev mapping : Table Text
mapping = (str "tag", str "{{ .Payload.ref }}") ∷ []

abbrev optional : Input
optional = record target { default = none }

-- No choice is made: the empty value is none of the choices, and is accepted.
empty_is_accepted :
    resolve_params prefix_pattern (optional ∷ []) ((str "target", []) ∷ [])
    ≡ resolved ((str "target", []) ∷ [])
unfolding resolve_params unified_cd.Controller.Params.fill_all unified_cd.Controller.Params.fill_one
    is_set lookup unified_cd.Controller.Params.check_patterns
    unified_cd.Controller.Params.check_pattern unified_cd.Controller.Params.check_choices
    unified_cd.Controller.Params.check_choice unified_cd.Prelude.contains
empty_is_accepted = refl

-- A required choice is made.
empty_is_missing :
    resolve_params prefix_pattern
      (record optional { required = true } ∷ [])
      ((str "target", []) ∷ [])
    ≡ failed (missing_params (str "target" ∷ []))
unfolding resolve_params unified_cd.Controller.Params.fill_all unified_cd.Controller.Params.fill_one
    is_set lookup
empty_is_missing = refl
