-- ===== src/Controller/Schedulability/Reasons.antt =====
-- What the answer of `EvaluateSchedulability` tells the author of a job.
use unified_cd.Prelude.{
  ◌≡◌, refl, sym, ap, ◌∙◌, Bool, true, false, ◌&&◌, List, [], ◌∷◌, ◌++◌, Option, none, some,
  Bool-cases, inl, inr, any, all, Text, contains,
}
use unified_cd.Dsl.Capabilities.{Spec, required_caps, required_volumes}
use unified_cd.Controller.Schedulability.{
  AgentInfo, Reason, satisfiable_reason, undeclared_volume, undeclared_volumes, no_capability,
  no_labels, no_single_agent, judgeable_volumes, static_selector, set_covered, set_declared_by,
  caps_cover, labels_cover, fits, first_undeclared, undeclared_reason, reason_unless,
  reason_no_agent, evaluate_schedulability,
}

-- The set is the first of the volumes that no agent declares.
pub record IsFirstLacking (agents : List AgentInfo) (vols : List (List Text)) (set : List Text)
    : Type 0 where
  pub earlier : List (List Text)
  pub later : List (List Text)
  pub split : vols ≡ earlier ++ set ∷ later
  pub declared : all (set_declared_by agents) earlier ≡ true
  pub lacking : any (λ a. any (contains a.volumes) set) agents ≡ false

-- What each reason says: of the agents, and of what the job asks for, which the message names.
pub IsTruthful : List AgentInfo → List Text → List Text → List (List Text) → Reason → Type 0
IsTruthful agents req sel vols satisfiable_reason = any (fits req sel vols) agents ≡ true
IsTruthful agents req sel vols (undeclared_volume name) = IsFirstLacking agents vols (name ∷ [])
IsTruthful agents req sel vols (undeclared_volumes set) = IsFirstLacking agents vols set
IsTruthful agents req sel vols (no_capability caps) =
    (caps ≡ req)
    × (all (set_declared_by agents) vols ≡ true)
    × (any (λ a. caps_cover a.capabilities req) agents ≡ false)
IsTruthful agents req sel vols (no_labels labels) =
    (labels ≡ sel)
    × (all (set_declared_by agents) vols ≡ true)
    × (any (λ a. caps_cover a.capabilities req) agents ≡ true)
    × (any (λ a. caps_cover a.capabilities req && labels_cover a.labels sel) agents ≡ false)
IsTruthful agents req sel vols (no_single_agent caps labels sets) =
    (caps ≡ req)
    × (labels ≡ sel)
    × (sets ≡ vols)
    × (all (set_declared_by agents) vols ≡ true)
    × (any (λ a. caps_cover a.capabilities req && labels_cover a.labels sel) agents ≡ true)
    × (any (fits req sel vols) agents ≡ false)

abbrev pub is_satisfiable_reason : Reason → Bool
is_satisfiable_reason satisfiable_reason = true
is_satisfiable_reason _ = false

set_inj : {s t : List Text} → some s ≡ some t → s ≡ t
set_inj h = cc

-- A set that some agent declares stands before the one that is found.
IsFirstLacking-cons :
    (agents : List AgentInfo) (s : List Text) (sets : List (List Text)) (set : List Text)
    → set_declared_by agents s ≡ true
    → IsFirstLacking agents sets set
    → IsFirstLacking agents (s ∷ sets) set
unfolding all
IsFirstLacking-cons agents s sets set declared l = record {
  earlier = s ∷ l.earlier;
  later = l.later;
  split = ap (λ r. s ∷ r) l.split;
  declared = rw declared l.declared;
  lacking = l.lacking;
}

first_undeclared-some :
    (agents : List AgentInfo) (sets : List (List Text)) (set : List Text)
    → first_undeclared agents sets ≡ some set
    → IsFirstLacking agents sets set
unfolding first_undeclared all set_declared_by set_covered
first_undeclared-some agents [] set h = cc
first_undeclared-some agents (s ∷ sets) set h = elim (Bool-cases (set_declared_by agents s)) [
  | inl declared ↦
      IsFirstLacking-cons agents s sets set declared
        (first_undeclared-some agents sets set (rw declared at h))
  | inr lacking ↦
      let found : some s ≡ some set = rw lacking at h in
      let same : s ≡ set = set_inj found in
      record {
        earlier = [];
        later = sets;
        split = ap (λ r. r ∷ sets) same;
        declared = refl;
        lacking = ap (set_declared_by agents) (sym same) ∙ lacking;
      }
]

first_undeclared-none :
    (agents : List AgentInfo) (sets : List (List Text))
    → first_undeclared agents sets ≡ none
    → all (set_declared_by agents) sets ≡ true
unfolding first_undeclared all
first_undeclared-none agents [] h = refl
first_undeclared-none agents (s ∷ sets) h = elim (Bool-cases (set_declared_by agents s)) [
  | inl declared ↦ rw declared (first_undeclared-none agents sets (rw declared at h))
  | inr lacking ↦ let no_way : some s ≡ none = rw lacking at h in cc
]

undeclared_reason-IsTruthful :
    (agents : List AgentInfo) (req sel : List Text) (vols : List (List Text)) (set : List Text)
    → IsFirstLacking agents vols set
    → IsTruthful agents req sel vols (undeclared_reason set)
unfolding IsTruthful
undeclared_reason-IsTruthful agents req sel vols [] l = l
undeclared_reason-IsTruthful agents req sel vols (name ∷ []) l = l
undeclared_reason-IsTruthful agents req sel vols (name ∷ n ∷ ns) l = l

not_satisfiable : (set : List Text) → is_satisfiable_reason (undeclared_reason set) ≡ false
not_satisfiable [] = refl
not_satisfiable (name ∷ []) = refl
not_satisfiable (name ∷ n ∷ ns) = refl

reason_unless-IsTruthful :
    (agents : List AgentInfo) (req sel : List Text) (vols : List (List Text))
    (o : Option (List Text))
    → first_undeclared agents vols ≡ o
    → any (fits req sel vols) agents ≡ false
    → IsTruthful agents req sel vols (reason_unless agents req sel vols o)
      × (is_satisfiable_reason (reason_unless agents req sel vols o) ≡ false)
unfolding IsTruthful
reason_unless-IsTruthful agents req sel vols (some set) found unfit = (
  undeclared_reason-IsTruthful agents req sel vols set
      (first_undeclared-some agents vols set found),
  not_satisfiable set,
)
reason_unless-IsTruthful agents req sel vols none found unfit =
    let declared = first_undeclared-none agents vols found in
    elim (Bool-cases (any (λ a. caps_cover a.capabilities req) agents)) [
      | inr unable ↦ rw unable ((refl, declared, unable), refl)
      | inl able ↦
          elim (Bool-cases
            (any (λ a. caps_cover a.capabilities req && labels_cover a.labels sel) agents)) [
              | inr unmatched ↦ rw (able, unmatched) ((refl, declared, able, unmatched), refl)
              | inl matched ↦
                  rw (able, matched) ((refl, refl, refl, declared, matched, unfit), refl)
            ]
    ]

-- A job is satisfiable exactly when one of the agents fits it, and its reason says so exactly
-- then; each other reason names the capabilities, the labels and the volumes that the job asks
-- for, or the first set of its volumes that no agent declares, and what its message says of them
-- holds of the agents.
pub evaluate_schedulability-reason :
    (spec : Spec) (agents : List AgentInfo)
    → let out = evaluate_schedulability spec agents in
      let req = required_caps spec in
      let sel = static_selector spec.agent_selector in
      let vols = judgeable_volumes (required_volumes spec.volumes) in
      (out.satisfiable ≡ any (fits req sel vols) agents)
      × (is_satisfiable_reason out.reason ≡ out.satisfiable)
      × IsTruthful agents req sel vols out.reason
unfolding evaluate_schedulability reason_no_agent IsTruthful
evaluate_schedulability-reason spec agents =
    let req = required_caps spec in
    let sel = static_selector spec.agent_selector in
    let vols = judgeable_volumes (required_volumes spec.volumes) in
    elim (Bool-cases (any (fits req sel vols) agents)) [
      | inl runs ↦ rw runs (refl, refl, runs)
      | inr unfit ↦
          let why =
            reason_unless-IsTruthful agents req sel vols (first_undeclared agents vols) refl
              unfit in
          rw unfit (refl, why.1, why.0)
    ]
