-- ===== src/Controller/Schedulability/Routing.antt =====
-- Which agents a job with a pod template waits for.
use unified_cd.Prelude.{
  if◌then◌else◌, ◌≡◌, refl, sym, ap, ◌∙◌, Bool, true, false, ◌&&◌, ◌||◌, List, [], ◌∷◌, Option,
  none, some, arith, any, all, any_imp, Text, contains, text_eq, text_eq_refl,
}
use unified_cd.Dsl.Capabilities.{
  Spec, caps_of_template, normalize_capabilities, cap_container, cap_pod, cap_security_context,
  legacy_agent_capabilities, required_caps, contains-normalize_capabilities,
}
use unified_cd.Dsl.PodTemplate.{PodTemplate, pod_template_needs_kubernetes, has_security_context}
use unified_cd.Controller.Schedulability.{
  capabilities_of, AgentInfo, caps_cover, fits, evaluate_schedulability,
}

abbrev pub advertises_pod : Option (List Text) → Bool
advertises_pod none = false
advertises_pod (some caps) = contains caps cap_pod

pod_only : (a e : Bool) → e ≡ false → ((a || a && e) && true) ≡ a
pod_only a e h = ground (arith, h)

not_pod : text_eq cap_security_context cap_pod ≡ false
unfolding text_eq
not_pod = refl

legacy_without_pod : contains legacy_agent_capabilities cap_pod ≡ false
unfolding contains any text_eq
legacy_without_pod = refl

covers-pod : (o : Option (List Text)) → caps_cover o (cap_pod ∷ []) ≡ advertises_pod o
unfolding caps_cover all
covers-pod none =
    ap (λ b. b && true) (contains-normalize_capabilities legacy_agent_capabilities cap_pod)
    ∙ pod_only (contains legacy_agent_capabilities cap_pod) (text_eq cap_security_context cap_pod)
        not_pod
    ∙ legacy_without_pod
covers-pod (some caps) =
    ap (λ b. b && true) (contains-normalize_capabilities caps cap_pod)
    ∙ pod_only (contains caps cap_pod) (text_eq cap_security_context cap_pod) not_pod

fits-covers :
    (req sel : List Text) (vols : List (List Text)) (a : AgentInfo)
    → fits req sel vols a ≡ true
    → caps_cover a.capabilities req ≡ true
unfolding fits
fits-covers req sel vols a h = ground (arith, h)

pod_caps :
    (spec : Spec) (pt : PodTemplate)
    → spec.native ≡ false
    → spec.pod_template ≡ some pt
    → pod_template_needs_kubernetes pt ≡ true
    → required_caps spec ≡ cap_pod ∷ []
unfolding required_caps
pod_caps spec pt host template kube = rw (host, template, kube)

-- A job that is not native and whose pod template needs Kubernetes is satisfiable only if some
-- agent advertises the pod capability; an agent that never advertised any does not count.
pub evaluate_schedulability-pod :
    (spec : Spec) (agents : List AgentInfo) (pt : PodTemplate)
    → spec.native ≡ false
    → spec.pod_template ≡ some pt
    → pod_template_needs_kubernetes pt ≡ true
    → (evaluate_schedulability spec agents).satisfiable ≡ true
    → any (λ a. advertises_pod a.capabilities) agents ≡ true
unfolding evaluate_schedulability
evaluate_schedulability-pod spec agents pt host template kube runs =
    any_imp (fits _ _ _) (λ a. advertises_pod a.capabilities) agents
      (λ a fit.
        sym (covers-pod a.capabilities)
        ∙ (ap (caps_cover a.capabilities) (sym (pod_caps spec pt host template kube))
            ∙ fits-covers _ _ _ a fit))
      runs

-- What an agent can do, with what that implies.
abbrev pub offers : Text → AgentInfo → Bool
offers c a = contains (normalize_capabilities (capabilities_of a.capabilities)) c

implied_by : (a b e : Bool) → b ≡ true → e ≡ true → (a || b && e) ≡ true
implied_by a b e h k = ground (arith, h, k)

covers-context :
    (needs context : Bool) (caps : List Text)
    → context ≡ true
    → all (contains (normalize_capabilities caps)) (
        if needs
        then cap_pod ∷ []
        else if context
        then cap_container ∷ cap_security_context ∷ []
        else cap_container ∷ [])
      ≡ true
    → contains (normalize_capabilities caps) cap_security_context ≡ true
unfolding all
covers-context true true caps c h =
    let pod =
      sym (
        ap (λ b. b && true) (contains-normalize_capabilities caps cap_pod)
        ∙ pod_only (contains caps cap_pod) (text_eq cap_security_context cap_pod) not_pod)
      ∙ h in
    contains-normalize_capabilities caps cap_security_context
    ∙ implied_by (contains caps cap_security_context) (contains caps cap_pod)
        (text_eq cap_security_context cap_security_context) pod (text_eq_refl cap_security_context)
covers-context false true caps c h = ground (arith, h)
covers-context needs false caps c h = cc

context_caps :
    (spec : Spec) (pt : PodTemplate)
    → spec.native ≡ false
    → spec.pod_template ≡ some pt
    → required_caps spec ≡ caps_of_template (some pt)
unfolding required_caps
context_caps spec pt host template = rw (host, template)

-- A job that is not native and whose pod template sets a securityContext is satisfiable only if
-- the normalized capabilities of some agent hold securitycontext.
pub evaluate_schedulability-context :
    (spec : Spec) (agents : List AgentInfo) (pt : PodTemplate)
    → spec.native ≡ false
    → spec.pod_template ≡ some pt
    → has_security_context pt ≡ true
    → (evaluate_schedulability spec agents).satisfiable ≡ true
    → any (offers cap_security_context) agents ≡ true
unfolding evaluate_schedulability caps_cover
evaluate_schedulability-context spec agents pt host template context runs =
    any_imp (fits _ _ _) (offers cap_security_context) agents
      (λ a fit.
        covers-context (pod_template_needs_kubernetes pt) (has_security_context pt)
          (capabilities_of a.capabilities) context
          (ap (caps_cover a.capabilities) (sym (context_caps spec pt host template))
            ∙ fits-covers _ _ _ a fit))
      runs
