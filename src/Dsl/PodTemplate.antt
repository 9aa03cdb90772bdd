-- ===== src/Dsl/PodTemplate.antt =====
-- internal/dsl/podtemplate.go: which pod templates only a Kubernetes agent can run.
pub mod Privileged
use unified_cd.Prelude.{
  Bool, true, false, not, ◌&&◌, ◌||◌, List, [], ◌∷◌, is_empty, Text, str, text_eq, contains,
}
use unified_cd.Dsl.Values.{
  Value, Values, Fields, null, string_value, map_value, get_field, has_field, has_fields, as_map,
  as_list, as_string, is_string, any_field, any_value,
}
use unified_cd.Dsl.SecurityContext.{
  pod_security_needs_kubernetes, container_security_needs_kubernetes,
}

-- What the routing reads of a pod template; `has_override` is an override that is not nil.
pub record PodTemplate : Type 0 where
  pub name : Text
  pub has_override : Bool
  pub spec : Fields

abbrev pub host_supported_container_fields : List Text
host_supported_container_fields =
    str "name"
    ∷ str "image"
    ∷ str "env"
    ∷ str "resources"
    ∷ str "command"
    ∷ str "args"
    ∷ str "securityContext"
    ∷ []

-- A securityContext: nil is unset, and one that is no map stays pinned.
abbrev pub context_pinned : (Fields → Bool) → Value → Bool
context_pinned needs null = false
context_pinned needs (map_value sc) = needs sc
context_pinned needs _ = true

-- One round of the loop over the keys of the pod's spec.
unfoldable pub spec_key_pinned : Text → Value → Bool
spec_key_pinned key v =
    not (text_eq key (str "containers"))
    && (not (text_eq key (str "securityContext")) || context_pinned pod_security_needs_kubernetes v)

unfoldable pub limit_pinned : Text → Value → Bool
limit_pinned key v = not ((text_eq key (str "cpu") || text_eq key (str "memory")) && is_string v)

unfoldable pub resources_pinned : Fields → Bool
resources_pinned res =
    has_fields (as_map (get_field (str "requests") res))
    || (any_field (λ key v. not (text_eq key (str "limits") || text_eq key (str "requests"))) res
        || any_field limit_pinned (as_map (get_field (str "limits") res)))

abbrev pub env_entry_pinned : Value → Bool
env_entry_pinned (map_value e) =
    not (is_empty (as_string (get_field (str "name") e))) && not (has_field (str "value") e)
env_entry_pinned _ = false

unfoldable pub container_needs_kubernetes : Fields → Bool
container_needs_kubernetes c =
    resources_pinned (as_map (get_field (str "resources") c))
    || (context_pinned container_security_needs_kubernetes (get_field (str "securityContext") c)
        || any_value env_entry_pinned (as_list (get_field (str "env") c)))

-- One round of the loop over the containers: an entry that is no map is skipped.
abbrev pub container_pinned : Value → Bool
container_pinned (map_value c) =
    any_field (λ key v. not (contains host_supported_container_fields key)) c
    || container_needs_kubernetes c
container_pinned _ = false

unfoldable pub containers_of : PodTemplate → Values
containers_of pt = as_list (get_field (str "containers") pt.spec)

unfoldable pub pod_template_needs_kubernetes : PodTemplate → Bool
pod_template_needs_kubernetes pt =
    not (is_empty pt.name)
    || (pt.has_override
        || (any_field spec_key_pinned pt.spec || any_value container_pinned (containers_of pt)))

abbrev pub sets_context : Fields → Bool
sets_context fs = has_fields (as_map (get_field (str "securityContext") fs))

abbrev pub container_sets_context : Value → Bool
container_sets_context (map_value c) = sets_context c
container_sets_context _ = false

unfoldable pub has_security_context : PodTemplate → Bool
has_security_context pt =
    sets_context pt.spec || any_value container_sets_context (containers_of pt)
