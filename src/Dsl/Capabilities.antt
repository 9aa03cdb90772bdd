-- ===== src/Dsl/Capabilities.antt =====
-- internal/dsl/capabilities.go: what an agent can do, and what a job asks for.
use unified_cd.Prelude.{
  ◌≡◌, refl, sym, ap, ◌∙◌, Bool, true, false, not, ◌&&◌, ◌||◌, List, [], ◌∷◌, ◌++◌, Option, none,
  some, arith, if◌then◌else◌, Bool-cases, inl, inr, any, any-append, Text, str, text_eq,
  text_eq_iff, contains,
}
use unified_cd.Dsl.PodTemplate.{PodTemplate, pod_template_needs_kubernetes, has_security_context}

abbrev pub cap_native : Text
cap_native = str "native"

abbrev pub cap_container : Text
cap_container = str "container"

abbrev pub cap_pod : Text
cap_pod = str "pod"

abbrev pub cap_security_context : Text
cap_security_context = str "securitycontext"

-- `pod` implies `securitycontext`.
unfoldable pub normalize_capabilities : List Text → List Text
normalize_capabilities caps =
    if contains caps cap_pod && not (contains caps cap_security_context)
    then caps ++ cap_security_context ∷ []
    else caps

abbrev pub legacy_agent_capabilities : List Text
legacy_agent_capabilities = cap_native ∷ cap_container ∷ []

unfoldable pub valid_capability : Text → Bool
valid_capability s =
    text_eq s cap_native
    || (text_eq s cap_container || (text_eq s cap_pod || text_eq s cap_security_context))

pub record Volume : Type 0 where
  pub name : List Text
  pub alias : Text
  pub mount_path : Text

-- What the routing reads of a job's definition.
pub record Spec : Type 0 where
  pub native : Bool
  pub pod_template : Option PodTemplate
  pub agent_selector : List Text
  pub volumes : List Volume

abbrev pub caps_of_template : Option PodTemplate → List Text
caps_of_template none = cap_container ∷ []
caps_of_template (some pt) =
    if pod_template_needs_kubernetes pt
    then cap_pod ∷ []
    else if has_security_context pt
    then cap_container ∷ cap_security_context ∷ []
    else cap_container ∷ []

unfoldable pub required_caps : Spec → List Text
required_caps spec = if spec.native then cap_native ∷ [] else caps_of_template spec.pod_template

-- One set of candidate names for a volume, in the order of the declarations.
unfoldable pub required_volumes : List Volume → List (List Text)
required_volumes [] = []
required_volumes (v ∷ vs) = v.name ∷ required_volumes vs

or_nothing : (b : Bool) → (b || false) ≡ b
or_nothing true = refl
or_nothing false = refl

or_nothing' : (b : Bool) → b ≡ (b || false)
or_nothing' b = sym (or_nothing b)

contains-append_one :
    (caps : List Text) (x c : Text) → contains (caps ++ x ∷ []) c ≡ (contains caps c || text_eq x c)
unfolding contains any
contains-append_one caps x c =
    any-append (λ y. text_eq y c) caps (x ∷ [])
    ∙ ap (λ b. any (λ y. text_eq y c) caps || b) (or_nothing (text_eq x c))

implied : (a e : Bool) → (e ≡ true → a ≡ true) → a ≡ (a || e)
implied a e h = ground (arith, h)

-- The normalized capabilities hold exactly the given ones, and securitycontext where pod is among
-- them.
pub contains-normalize_capabilities :
    (caps : List Text) (c : Text)
    → contains (normalize_capabilities caps) c
      ≡ (contains caps c || contains caps cap_pod && text_eq cap_security_context c)
unfolding normalize_capabilities
contains-normalize_capabilities caps c = elim (Bool-cases (contains caps cap_pod)) [
  | inr no_pod ↦ rw no_pod (or_nothing' (contains caps c))
  | inl pod ↦ elim (Bool-cases (contains caps cap_security_context)) [
    | inr lacking ↦ rw (pod, lacking) (contains-append_one caps cap_security_context c)
    | inl there ↦
        rw (pod, there)
          (implied (contains caps c) (text_eq cap_security_context c)
            (λ e. ap (contains caps) (sym ((text_eq_iff cap_security_context c).0 e)) ∙ there))
  ]
]
