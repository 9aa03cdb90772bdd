-- ===== src/Controller/Principal/Ceiling.antt =====
-- What a capped token may do: never more than its owner and its ceiling, but for one implied permission.
use unified_cd.Prelude.{
  ◌≡◌, refl, ap, ◌∙◌, Bool, true, false, ◌&&◌, ◌||◌, List, [], ◌∷◌, Option, none, some, arith,
  Bool-cases, inl, inr, any, contains, Text, text_eq, text_eq_iff,
}
use unified_cd.Authz.Catalogue.{
  Permission, agent_enroll, agent_manage, parse, parse-same, parse-none, is_known,
}
use unified_cd.Authz.Set.{Set, has, with_one}
use unified_cd.Authz.Set.Laws.{has-with_one, has-empty}
use unified_cd.Authz.Grants.{Grants, no_grants, can}
use unified_cd.Authz.Grants.Invariant.{IsBuilt, no_grants-IsBuilt, add-IsBuilt, join-IsBuilt}
use unified_cd.Authz.Grants.Algebra.{can-join, can-restrict, can-add_global}
use unified_cd.Controller.Rbac.{Server, identity_grants, ceiling_set, known_set, with_parsed}
use unified_cd.Controller.Rbac.Laws.{identity_grants-IsBuilt}
use unified_cd.Controller.Principal.{
  Pat, Owner, values_of, enroll_grants, with_implied_enroll, capped, owner_principal,
}

pub enroll_grants-IsBuilt : (by : Text) → IsBuilt (enroll_grants by)
unfolding enroll_grants
enroll_grants-IsBuilt by = add-IsBuilt no_grants [] (with_one 0 agent_enroll) by no_grants-IsBuilt

enroll_only :
    (p : Permission) → (has 0 p || is_known p && text_eq agent_enroll p) ≡ text_eq agent_enroll p
enroll_only p = rw (has-empty p) (elim (Bool-cases (text_eq agent_enroll p)) [
  | inl same ↦ rw (same, ← (text_eq_iff agent_enroll p).0 same) (unfold is_known in refl)
  | inr other ↦ rw other (ground arith)
])

-- Enrollment grants hold exactly the one permission.
pub can-enroll_grants :
    (by : Text) (p : Permission) (job : Text)
    → can (enroll_grants by) p job ≡ text_eq agent_enroll p
unfolding enroll_grants
can-enroll_grants by p job =
    can-add_global (with_one 0 agent_enroll) by p job
    ∙ has-with_one 0 agent_enroll p
    ∙ enroll_only p

or_no : (a b : Bool) → a ≡ (a || false && b)
or_no true b = refl
or_no false b = refl

pub with_implied_enroll-IsBuilt :
    {g : Grants} → IsBuilt g → (c : Set) → IsBuilt (with_implied_enroll c g)
unfolding with_implied_enroll
with_implied_enroll-IsBuilt {g} built c =
    elim (Bool-cases (has c agent_enroll && can g agent_manage [])) [
      | inl implied ↦ rw implied (join-IsBuilt g _)
      | inr plain ↦ rw plain built
    ]

module _ {g : Grants} (built : IsBuilt g) (p : Permission) (job : Text) where
  can-with_implied_enroll :
      (c : Set)
      → can (with_implied_enroll c g) p job
        ≡ (can g p job || (has c agent_enroll && can g agent_manage []) && text_eq agent_enroll p)
  unfolding with_implied_enroll
  can-with_implied_enroll c = elim (Bool-cases (has c agent_enroll && can g agent_manage [])) [
    | inl implied ↦ rw implied (
        can-join built (enroll_grants-IsBuilt _) p job
        ∙ ap (λ b. can g p job || b) (can-enroll_grants _ p job))
    | inr plain ↦ rw plain (or_no (can g p job) (text_eq agent_enroll p))
  ]

  -- Under a ceiling: what the owner may do, or the implied enrollment, and only what the ceiling holds.
  pub can-capped :
      (c : Set)
      → can (capped (some c) g) p job ≡ (
          (can g p job || (has c agent_enroll && can g agent_manage []) && text_eq agent_enroll p)
          && has c p)
  unfolding capped
  can-capped c =
      can-restrict (with_implied_enroll-IsBuilt built c) c _ p job
      ∙ ap (λ b. b && has c p) (can-with_implied_enroll c)

has-with_parsed :
    (set : Set) (name : Text) (p : Permission) (o : Option Permission)
    → parse name ≡ o
    → has (with_parsed set o) p ≡ (has set p || is_known p && text_eq name p)
has-with_parsed set name p none e = elim (Bool-cases (text_eq name p)) [
  | inl same ↦ rw (same, ← (text_eq_iff name p).0 same, parse-none name e) (ground arith)
  | inr other ↦ rw other (ground arith)
]
has-with_parsed set name p (some q) e = rw (← parse-same name e) (has-with_one set q p)

enroll_known : is_known agent_enroll ≡ true
unfolding is_known
enroll_known = refl

-- The ceiling of a permission list holds its known names.
pub has-known_set :
    (set : Set) (names : List Text) (p : Permission)
    → has (known_set set names) p ≡ (has set p || is_known p && contains names p)
unfolding known_set contains any
has-known_set set [] p = ground arith
has-known_set set (name ∷ rest) p = ground (
  arith,
  has-known_set (with_parsed set (parse name)) rest p,
  has-with_parsed set name p (parse name) refl,
)

-- A token with an owner and a permission list may do on a job exactly what the owner may do there
-- and the list names among the known permissions; besides, it may enroll agents where the list
-- names agent.enroll and the owner holds agent.manage globally.
pub can-owner_principal :
    (quote hash : Text → Text) (srv : Option Server) (pat : Pat) (owner : Owner) (perms : List Text)
    (p : Permission) (job : Text)
    → pat.permissions ≡ some perms
    → let g = (identity_grants quote srv (values_of owner.claims) owner.email owner.sub).grants in
      can (owner_principal quote hash srv pat owner).grants p job ≡ (
        (can g p job
          || (contains perms agent_enroll && can g agent_manage []) && text_eq agent_enroll p)
        && (is_known p && contains perms p))
unfolding owner_principal ceiling_set
can-owner_principal quote hash srv pat owner perms p job listed =
    rw (listed, ceiling_set)
      (can-capped (identity_grants-IsBuilt quote srv (values_of owner.claims) owner.email owner.sub)
          p job (known_set 0 perms)
        ∙ rw (
          has-known_set 0 perms p,
          has-known_set 0 perms agent_enroll,
          has-empty p,
          has-empty agent_enroll,
          enroll_known,
        ))
