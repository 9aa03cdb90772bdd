-- ===== src/Controller/Schedulability.antt =====
-- internal/controller/schedulability.go: whether some agent can run a job.
pub mod Reasons
pub mod Routing
use unified_cd.Prelude.{
  Bool, true, false, not, ◌&&◌, ◌||◌, List, [], ◌∷◌, Option, none, some, if◌then◌else◌, any, all,
  keep, Text, str, contains, has_substring,
}
use unified_cd.Dsl.Capabilities.{
  Spec, normalize_capabilities, legacy_agent_capabilities, required_caps, required_volumes,
}

-- `capabilities` is `none` for an agent that never advertised any.
pub record AgentInfo : Type 0 where
  pub capabilities : Option (List Text)
  pub labels : List Text
  pub volumes : List Text

-- The message, by what it says.
pub data Reason : Type 0 where
  satisfiable_reason : Reason
  undeclared_volume : Text → Reason
  undeclared_volumes : List Text → Reason
  no_capability : List Text → Reason
  no_labels : List Text → Reason
  no_single_agent : List Text → List Text → List (List Text) → Reason

pub record Schedulability : Type 0 where
  pub required_caps : List Text
  pub selector : List Text
  pub satisfiable : Bool
  pub reason : Reason
  pub selector_depends_on_params : Bool
  pub required_volumes : List (List Text)
  pub volumes_depend_on_params : Bool

-- A name that resolves only when the run is queued.
abbrev pub is_templated : Text → Bool
is_templated s = has_substring s (str "{{")

-- `judgeableVolumes`: the sets whose names are all literal.
unfoldable pub judgeable_volumes : List (List Text) → List (List Text)
judgeable_volumes sets = keep (λ set. not (any is_templated set)) sets

unfoldable pub static_selector : List Text → List Text
static_selector sel = keep (λ s. not (is_templated s)) sel

unfoldable pub set_covered : List Text → List Text → Bool
set_covered agent_volumes set = any (contains agent_volumes) set

unfoldable pub volumes_cover : List Text → List (List Text) → Bool
volumes_cover agent_volumes sets = all (set_covered agent_volumes) sets

unfoldable pub set_declared_by : List AgentInfo → List Text → Bool
set_declared_by agents set = any (λ a. set_covered a.volumes set) agents

-- An agent that never advertised capabilities is held to the legacy host agent's.
abbrev pub capabilities_of : Option (List Text) → List Text
capabilities_of none = legacy_agent_capabilities
capabilities_of (some caps) = caps

unfoldable pub caps_cover : Option (List Text) → List Text → Bool
caps_cover agent_caps required =
    all (contains (normalize_capabilities (capabilities_of agent_caps))) required

unfoldable pub labels_cover : List Text → List Text → Bool
labels_cover agent_labels selector = all (contains agent_labels) selector

-- What the loop asks of an agent.
unfoldable pub fits : List Text → List Text → List (List Text) → AgentInfo → Bool
fits req sel vols a =
    caps_cover a.capabilities req && (labels_cover a.labels sel && volumes_cover a.volumes vols)

-- The first set that no agent declares.
unfoldable pub first_undeclared : List AgentInfo → List (List Text) → Option (List Text)
first_undeclared agents [] = none
first_undeclared agents (set ∷ sets) =
    let rest = first_undeclared agents sets in if set_declared_by agents set then rest else some set

abbrev pub undeclared_reason : List Text → Reason
undeclared_reason (name ∷ []) = undeclared_volume name
undeclared_reason set = undeclared_volumes set

abbrev pub reason_unless :
    List AgentInfo → List Text → List Text → List (List Text) → Option (List Text) → Reason
reason_unless agents req sel vols (some set) = undeclared_reason set
reason_unless agents req sel vols none =
    if not (any (λ a. caps_cover a.capabilities req) agents)
    then no_capability req
    else if not (any (λ a. caps_cover a.capabilities req && labels_cover a.labels sel) agents)
    then no_labels sel
    else no_single_agent req sel vols

unfoldable pub reason_no_agent : List AgentInfo → List Text → List Text → List (List Text) → Reason
reason_no_agent agents req sel vols =
    reason_unless agents req sel vols (first_undeclared agents vols)

unfoldable pub evaluate_schedulability : Spec → List AgentInfo → Schedulability
evaluate_schedulability spec agents =
    let req = required_caps spec in
    let sets = required_volumes spec.volumes in
    let vols = judgeable_volumes sets in
    let sel = static_selector spec.agent_selector in
    let runs = any (fits req sel vols) agents in
    record {
      required_caps = req;
      selector = spec.agent_selector;
      satisfiable = runs;
      reason = if runs then satisfiable_reason else reason_no_agent agents req sel vols;
      selector_depends_on_params = any is_templated spec.agent_selector;
      required_volumes = sets;
      volumes_depend_on_params = any (any is_templated) sets;
    }
