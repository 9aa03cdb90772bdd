-- ===== src/Dsl/PodTemplate/Privileged.antt =====
-- A privileged container never runs on a host agent.
use unified_cd.Prelude.{
  ◌≡◌, refl, sym, ap, ◌∙◌, Bool, true, false, not, ◌||◌, arith, Bool-cases, inl, inr, is_empty,
  Text, str, text_eq, text_eq_iff, lookup,
}
use unified_cd.Dsl.Values.{
  Value, Values, Fields, null, bool_value, string_value, int_value, negative_int, whole_float,
  other_float, list_value, map_value, no_values, value, no_fields, field, get_field, as_map,
  any_field, any_value,
}
use unified_cd.Dsl.SecurityContext.{
  container_security_fields, key_pinned, security_needs_kubernetes,
  container_security_needs_kubernetes,
}
use unified_cd.Dsl.PodTemplate.{
  PodTemplate, spec_key_pinned, context_pinned, container_needs_kubernetes, container_pinned,
  containers_of, pod_template_needs_kubernetes,
}

abbrev pub is_true : Value → Bool
is_true (bool_value b) = b
is_true _ = false

-- `securityContext: {privileged: true}`
abbrev pub is_privileged : Value → Bool
is_privileged (map_value c) =
    is_true (get_field (str "privileged") (as_map (get_field (str "securityContext") c)))
is_privileged _ = false

true_value : (v : Value) → is_true v ≡ true → v ≡ bool_value true
true_value (bool_value b) h = ap bool_value h
true_value null h = cc
true_value (string_value s) h = cc
true_value (int_value n) h = cc
true_value (negative_int n) h = cc
true_value (whole_float n) h = cc
true_value other_float h = cc
true_value (list_value vs) h = cc
true_value (map_value m) h = cc

module _ (p : Text → Value → Bool) (k : Text) where
  -- A loop over a map comes past the value of every key, unless that is nil.
  any_field-get_field :
      (fs : Fields) → p k (get_field k fs) ≡ true → p k null ≡ false → any_field p fs ≡ true
  unfolding any_field get_field
  any_field-get_field no_fields h no_null = let clash = sym h ∙ no_null in cc
  any_field-get_field (field j v fs) h no_null = elim (Bool-cases (text_eq j k)) [
    | inl here ↦
        let at_v : p k v ≡ true = rw here at h in
        let at_j = ap (λ i. p i v) ((text_eq_iff j k).0 here) ∙ at_v in ground (arith, at_j)
    | inr other ↦
        let later = any_field-get_field fs (rw other at h) no_null in ground (arith, later)
  ]

pinned_when_true : key_pinned container_security_fields (str "privileged") (bool_value true) ≡ true
unfolding key_pinned lookup container_security_fields unified_cd.Dsl.SecurityContext.is_false
pinned_when_true = refl

context-pinned :
    (v : Value)
    → is_true (get_field (str "privileged") (as_map v)) ≡ true
    → context_pinned container_security_needs_kubernetes v ≡ true
unfolding container_security_needs_kubernetes security_needs_kubernetes
context-pinned (map_value m) h =
    let found = true_value (get_field (str "privileged") m) h in
    any_field-get_field (key_pinned container_security_fields) (str "privileged") m
      (ap (key_pinned container_security_fields (str "privileged")) found ∙ pinned_when_true)
      (unfold key_pinned in refl)
context-pinned null h = unfold get_field in cc
context-pinned (bool_value b) h = refl
context-pinned (string_value s) h = refl
context-pinned (int_value n) h = refl
context-pinned (negative_int n) h = refl
context-pinned (whole_float n) h = refl
context-pinned other_float h = refl
context-pinned (list_value vs) h = refl

privileged-pinned : (v : Value) → is_privileged v ≡ true → container_pinned v ≡ true
unfolding container_needs_kubernetes
privileged-pinned (map_value c) h =
    ground (arith, context-pinned (get_field (str "securityContext") c) h)
privileged-pinned null h = cc
privileged-pinned (bool_value b) h = cc
privileged-pinned (string_value s) h = cc
privileged-pinned (int_value n) h = cc
privileged-pinned (negative_int n) h = cc
privileged-pinned (whole_float n) h = cc
privileged-pinned other_float h = cc
privileged-pinned (list_value vs) h = cc

any_value_imp :
    (p q : Value → Bool) (vs : Values)
    → ((v : Value) → p v ≡ true → q v ≡ true)
    → any_value p vs ≡ true
    → any_value q vs ≡ true
unfolding any_value
any_value_imp p q no_values h m = cc
any_value_imp p q (value v vs) h m = ground (arith, h v, any_value_imp p q vs h)

any_or_last : (a b c d : Bool) → d ≡ true → (a || (b || (c || d))) ≡ true
any_or_last a b c d h = ground (arith, h)

-- A pod template that lists a container whose securityContext sets privileged to true needs
-- Kubernetes.
pub pod_template_needs_kubernetes-privileged :
    (pt : PodTemplate)
    → any_value is_privileged (containers_of pt) ≡ true
    → pod_template_needs_kubernetes pt ≡ true
unfolding pod_template_needs_kubernetes
pod_template_needs_kubernetes-privileged pt h =
    any_or_last (not (is_empty pt.name)) pt.has_override (any_field spec_key_pinned pt.spec)
      (any_value container_pinned (containers_of pt))
      (any_value_imp is_privileged container_pinned (containers_of pt) privileged-pinned h)
