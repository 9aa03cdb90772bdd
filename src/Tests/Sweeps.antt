-- ===== src/Tests/Sweeps.antt =====
-- The candidates of a sweep, and the agents for a job.
use unified_cd.Prelude.{
  ◌≡◌, refl, ℕ, ◌+◌, ◌*◌, ◌≤◌, ◌<◌, Bool, true, false, ◌&&◌, ◌||◌, List, [], ◌∷◌, Option, none,
  some, arith, ltb, any, All, length, Text, str, text_eq, contains,
}
use unified_cd.Dsl.Capabilities.{
  Spec, Volume, cap_native, cap_container, cap_pod, cap_security_context, normalize_capabilities,
  required_caps, required_volumes, contains-normalize_capabilities,
}
use unified_cd.Dsl.Values.{
  Fields, string_value, bool_value, list_value, map_value, no_values, value, any_value, no_fields,
  field,
}
use unified_cd.Dsl.PodTemplate.{
  PodTemplate, containers_of, pod_template_needs_kubernetes, has_security_context,
}
use unified_cd.Controller.Schedulability.{
  AgentInfo, fits, judgeable_volumes, static_selector, evaluate_schedulability, no_labels,
}
use unified_cd.Controller.Schedulability.Reasons.{
  IsTruthful, is_satisfiable_reason, evaluate_schedulability-reason,
}
use unified_cd.Controller.Schedulability.Routing.{advertises_pod, evaluate_schedulability-pod}
use unified_cd.Dsl.PodTemplate.Privileged.{is_privileged}
use unified_cd.Controller.Backoff.{
  FailureBackoff, new_failure_backoff, find, wait_for, failure, success, excluded,
}
use unified_cd.Controller.Backoff.Wait.{doubled_up_to, wait_for-sweeps}
use unified_cd.Controller.Backoff.Tracked.{IsTracked, is_distinct}
use unified_cd.Controller.Backoff.Excluded.{failures_of, failure-excluded}
use unified_cd.Agent.Retry.{retry_waits, retry_initial_wait, retry_max_wait, retryable, succeeded}

abbrev second : ℕ
second = 1000000000

abbrev minute : ℕ
minute = 60 * second

abbrev hour : ℕ
hour = 60 * minute

abbrev run : Text
run = str "r-1"

abbrev start : FailureBackoff
start = new_failure_backoff minute hour 2

start-IsTracked : IsTracked start
unfolding new_failure_backoff is_distinct
start-IsTracked = record { distinct = refl; bounded = omega arith }

abbrev once : FailureBackoff
once = failure start run second

left_out_for_a_minute : excluded once (60 * second) ≡ run ∷ []
unfolding excluded failure find new_failure_backoff unified_cd.Controller.Backoff.evict
    unified_cd.Controller.Backoff.bump wait_for
left_out_for_a_minute = refl

back_after_a_minute : excluded once (61 * second) ≡ []
unfolding excluded failure find new_failure_backoff unified_cd.Controller.Backoff.evict
    unified_cd.Controller.Backoff.bump wait_for
back_after_a_minute = refl

room : 1 ≤ start.cap
unfolding new_failure_backoff
room = omega arith

failure-excluded_example :
    contains (excluded (failure start run second) minute) run
    ≡ ltb minute (second + wait_for start.base start.max (failures_of (find run start.order)))
failure-excluded_example = failure-excluded start run second minute room

wait_for-sweeps_example : wait_for minute hour 7 ≡ doubled_up_to minute hour 7
wait_for-sweeps_example = wait_for-sweeps 7

waits_pass_the_bound :
    retry_waits retry_max_wait retry_initial_wait
      (retryable ∷ retryable ∷ retryable ∷ retryable ∷ retryable ∷ retryable ∷ succeeded ∷ [])
    ≡ second ∷ 2 * second ∷ 4 * second ∷ 8 * second ∷ 16 * second ∷ 32 * second ∷ []
unfolding retry_waits
waits_pass_the_bound = refl

initial_wait_is_short : retry_initial_wait < 2 * retry_max_wait
initial_wait_is_short = omega arith

-- A pod whose container asks to be privileged.
abbrev privileged_container : Fields
privileged_container = field (str "name") (string_value (str "build")) (
    field (str "securityContext") (map_value (field (str "privileged") (bool_value true) no_fields))
      no_fields)

abbrev privileged_pod : PodTemplate
privileged_pod = record {
  name = [];
  has_override = false;
  spec =
      field (str "containers") (list_value (value (map_value privileged_container) no_values))
        no_fields;
}

needs_kubernetes : pod_template_needs_kubernetes privileged_pod ≡ true
unfolding pod_template_needs_kubernetes unified_cd.Dsl.Values.any_field
    unified_cd.Dsl.PodTemplate.spec_key_pinned text_eq unified_cd.Dsl.Values.any_value
    unified_cd.Dsl.PodTemplate.containers_of unified_cd.Dsl.Values.get_field contains
    unified_cd.Dsl.PodTemplate.container_needs_kubernetes
    unified_cd.Dsl.PodTemplate.resources_pinned
    unified_cd.Dsl.SecurityContext.container_security_needs_kubernetes
    unified_cd.Dsl.SecurityContext.security_needs_kubernetes
    unified_cd.Dsl.SecurityContext.key_pinned unified_cd.Prelude.lookup
    unified_cd.Dsl.SecurityContext.container_security_fields unified_cd.Dsl.SecurityContext.is_false
needs_kubernetes = refl

abbrev pod_job : Spec
pod_job = record {
  native = false;
  pod_template = some privileged_pod;
  agent_selector = str "linux" ∷ str "{{ .Params.zone }}" ∷ [];
  volumes = record { name = str "cache" ∷ []; alias = []; mount_path = str "." } ∷ [];
}

abbrev host_agent : AgentInfo
host_agent = record { capabilities = none; labels = str "linux" ∷ []; volumes = str "cache" ∷ [] }

abbrev kube_agent : AgentInfo
kube_agent = record {
  capabilities = some (cap_pod ∷ []);
  labels = str "linux" ∷ [];
  volumes = str "cache" ∷ [];
}

abbrev agents : List AgentInfo
agents = host_agent ∷ kube_agent ∷ []

pod_job_is_satisfiable : (evaluate_schedulability pod_job agents).satisfiable ≡ true
unfolding evaluate_schedulability any unified_cd.Controller.Schedulability.fits
    unified_cd.Controller.Schedulability.caps_cover unified_cd.Prelude.all
    unified_cd.Dsl.Capabilities.required_caps pod_template_needs_kubernetes
    unified_cd.Dsl.Values.any_field unified_cd.Dsl.PodTemplate.spec_key_pinned text_eq
    unified_cd.Dsl.Values.any_value unified_cd.Dsl.PodTemplate.containers_of
    unified_cd.Dsl.Values.get_field contains unified_cd.Dsl.PodTemplate.container_needs_kubernetes
    unified_cd.Dsl.PodTemplate.resources_pinned
    unified_cd.Dsl.SecurityContext.container_security_needs_kubernetes
    unified_cd.Dsl.SecurityContext.security_needs_kubernetes judgeable_volumes
    unified_cd.Controller.Schedulability.labels_cover
    unified_cd.Controller.Schedulability.set_covered static_selector
    unified_cd.Controller.Schedulability.volumes_cover normalize_capabilities
    unified_cd.Dsl.Capabilities.required_volumes
    unified_cd.Dsl.SecurityContext.container_security_fields unified_cd.Dsl.SecurityContext.is_false
    unified_cd.Dsl.SecurityContext.key_pinned unified_cd.Prelude.keep unified_cd.Prelude.lookup
    unified_cd.Prelude.has_prefix unified_cd.Prelude.has_substring
pod_job_is_satisfiable = refl

evaluate_schedulability-reason_example :
    let out = evaluate_schedulability pod_job (host_agent ∷ []) in
    let req = required_caps pod_job in
    let vols = judgeable_volumes (required_volumes pod_job.volumes) in
    (out.satisfiable
      ≡ any (fits req (static_selector pod_job.agent_selector) vols) (host_agent ∷ []))
    × (is_satisfiable_reason out.reason ≡ out.satisfiable)
    × IsTruthful (host_agent ∷ []) req (static_selector pod_job.agent_selector) vols out.reason
evaluate_schedulability-reason_example = evaluate_schedulability-reason pod_job (host_agent ∷ [])

evaluate_schedulability-pod_example : any (λ a. advertises_pod a.capabilities) agents ≡ true
evaluate_schedulability-pod_example =
    evaluate_schedulability-pod pod_job agents privileged_pod refl refl needs_kubernetes
      pod_job_is_satisfiable

sets_security_context : has_security_context privileged_pod ≡ true
unfolding has_security_context unified_cd.Dsl.Values.get_field text_eq any_value containers_of
sets_security_context = refl

asks_to_be_privileged : any_value is_privileged (containers_of privileged_pod) ≡ true
unfolding any_value containers_of unified_cd.Dsl.Values.get_field text_eq
asks_to_be_privileged = refl
