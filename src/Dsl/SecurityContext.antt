-- ===== src/Dsl/SecurityContext.antt =====
-- internal/dsl/securitycontext.go: which securityContext values a host agent honours.
use unified_cd.Prelude.{
  ℕ, Bool, true, false, not, ◌&&◌, ◌||◌, List, [], ◌∷◌, Option, none, some, leb, Text, str, text_eq,
  contains, Table, lookup,
}
use unified_cd.Dsl.Values.{
  Value, Fields, null, bool_value, string_value, int_value, whole_float, list_value, map_value,
  get_field, has_one_field, any_field, any_value,
}

abbrev pub host_honours_hardening_fields : Bool
host_honours_hardening_fields = true

abbrev pub max_security_id : ℕ
max_security_id = 2147483647

-- Whether `securityID` decodes the value without an error.
unfoldable pub is_id : Value → Bool
is_id (int_value n) = leb n max_security_id
is_id (whole_float n) = leb n max_security_id
is_id _ = false

unfoldable pub is_bool : Value → Bool
is_bool (bool_value b) = true
is_bool _ = false

unfoldable pub one_of : List Text → Value → Bool
one_of allowed (string_value s) = contains allowed s
one_of allowed _ = false

unfoldable pub profile_honoured : Value → Bool
profile_honoured (map_value m) =
    has_one_field m && one_of (str "RuntimeDefault" ∷ []) (get_field (str "type") m)
profile_honoured _ = false

unfoldable pub id_list_honoured : Value → Bool
id_list_honoured (list_value vs) = not (any_value (λ e. not (is_id e)) vs)
id_list_honoured _ = false

-- One entry of a `drop` or `add` list is refused.
abbrev pub capability_refused : Text → Value → Bool
capability_refused k (string_value s) =
    text_eq k (str "add") && not (text_eq s (str "NET_BIND_SERVICE"))
capability_refused k _ = true

abbrev pub capability_list_refused : Text → Value → Bool
capability_list_refused k (list_value vs) = any_value (capability_refused k) vs
capability_list_refused k _ = true

unfoldable pub capabilities_honoured : Value → Bool
capabilities_honoured (map_value m) = not (
    any_field
      (λ k v. not (text_eq k (str "drop") || text_eq k (str "add")) || capability_list_refused k v)
      m)
capabilities_honoured _ = false

-- `privileged`: only an explicit false.
unfoldable pub is_false : Value → Bool
is_false (bool_value b) = not b
is_false _ = false

pub record SecurityField : Type 0 where
  pub tier_b : Bool
  pub honoured : Value → Bool

abbrev pub tier_a_field : (Value → Bool) → SecurityField
tier_a_field honoured = record { tier_b = false; honoured = honoured }

abbrev pub tier_b_field : (Value → Bool) → SecurityField
tier_b_field honoured = record { tier_b = true; honoured = honoured }

unfoldable pub pod_security_fields : Table SecurityField
pod_security_fields =
    (str "runAsUser", tier_a_field is_id)
    ∷ (str "runAsGroup", tier_a_field is_id)
    ∷ (str "runAsNonRoot", tier_a_field is_bool)
    ∷ (str "supplementalGroups", tier_a_field id_list_honoured)
    ∷ (str "fsGroup", tier_a_field is_id)
    ∷ (str "fsGroupChangePolicy", tier_a_field (one_of (str "Always" ∷ str "OnRootMismatch" ∷ [])))
    ∷ (str "supplementalGroupsPolicy", tier_a_field (one_of (str "Merge" ∷ [])))
    ∷ (str "seccompProfile", tier_b_field profile_honoured)
    ∷ (str "appArmorProfile", tier_b_field profile_honoured)
    ∷ []

unfoldable pub container_security_fields : Table SecurityField
container_security_fields =
    (str "runAsUser", tier_a_field is_id)
    ∷ (str "runAsGroup", tier_a_field is_id)
    ∷ (str "runAsNonRoot", tier_a_field is_bool)
    ∷ (str "allowPrivilegeEscalation", tier_b_field is_bool)
    ∷ (str "capabilities", tier_b_field capabilities_honoured)
    ∷ (str "privileged", tier_b_field is_false)
    ∷ (str "readOnlyRootFilesystem", tier_b_field is_bool)
    ∷ (str "procMount", tier_b_field (one_of (str "Default" ∷ [])))
    ∷ (str "seccompProfile", tier_b_field profile_honoured)
    ∷ (str "appArmorProfile", tier_b_field profile_honoured)
    ∷ []

abbrev pub field_pinned : Value → Option SecurityField → Bool
field_pinned v none = true
field_pinned v (some f) = f.tier_b && not host_honours_hardening_fields || not (f.honoured v)

-- One round of the loop: nil counts as unset.
unfoldable pub key_pinned : Table SecurityField → Text → Value → Bool
key_pinned table k null = false
key_pinned table k v = field_pinned v (lookup k table)

unfoldable pub security_needs_kubernetes : Table SecurityField → Fields → Bool
security_needs_kubernetes table sc = any_field (key_pinned table) sc

unfoldable pub pod_security_needs_kubernetes : Fields → Bool
pod_security_needs_kubernetes = security_needs_kubernetes pod_security_fields

unfoldable pub container_security_needs_kubernetes : Fields → Bool
container_security_needs_kubernetes = security_needs_kubernetes container_security_fields
