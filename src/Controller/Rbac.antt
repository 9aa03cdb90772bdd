-- ===== src/Controller/Rbac.antt =====
-- internal/controller/rbac.go: roles, and the grants of an OIDC identity.
pub mod Laws
use unified_cd.Prelude.{
  ℕ, ◌<◌, Bool, true, false, not, ◌&&◌, ◌||◌, List, [], ◌∷◌, ◌++◌, Option, none, some, ltb, ◌==◌,
  if◌then◌else◌, is_empty, String, Text, str, text_eq, Table, lookup,
}
use unified_cd.Authz.Catalogue.{Permission, parse}
use unified_cd.Authz.Set.{Set, bundle, with_one}
use unified_cd.Authz.Grants.{Grants, no_grants, role_grants, join, or_empty}
use unified_cd.Authz.Policy.{Policy}
use unified_cd.Authz.Policy.Matching.{Identity, match}

-- The strict hierarchy; 0 for an unknown or empty role.
unfoldable pub role_rank : Text → ℕ
role_rank role =
    if text_eq role (str "viewer")
    then 1
    else if text_eq role (str "developer")
    then 2
    else if text_eq role (str "admin")
    then 3
    else 0

pub record RoleMapping : Type 0 where
  pub roles_claim : Text
  pub role_map : Table Text
  pub user_map : Table Text
  pub default_role : Text

-- What the model reads of the OIDC configuration, and of the server.
pub record OidcConfig : Type 0 where
  pub mapping : RoleMapping
  pub policy : Option Policy

pub record Server : Type 0 where
  pub oidc : Option OidcConfig
  pub token : Text

-- Rejects empty, "deny" and unknown roles.
unfoldable pub normalize_role : Text → Option Text
normalize_role r = if role_rank r == 0 then none else some r

-- A role with its source; `none` is a denial.
abbrev pub from_source : Text → Option Text → Option (Text × Text)
from_source source none = none
from_source source (some r) = some (r, source)

abbrev pub rank_of : Option Text → ℕ
rank_of none = 0
rank_of (some r) = role_rank r

abbrev pub or_best : Text × Text → Text → Option Text → Text × Text
or_best best v none = best
or_best best v (some r) = if ltb (role_rank best.0) (role_rank r) then (r, v) else best

-- The loop over the claim values: the highest role so far and the value that gave it.
unfoldable pub best_role : Table Text → Text × Text → List Text → Text × Text
best_role m best [] = best
best_role m best (v ∷ vs) = best_role m (or_best best v (lookup v m)) vs

-- `userMap[key]` for a non-empty key.
abbrev pub user_entry : Text → Table Text → Option Text
user_entry key m = if is_empty key then none else lookup key m

-- The role, the grants and whether the identity is admitted.
pub record Resolved : Type 0 where
  pub role : Text
  pub grants : Grants
  pub admitted : Bool

abbrev pub empty_mapping : RoleMapping
empty_mapping = record { roles_claim = []; role_map = []; user_map = []; default_role = [] }

abbrev pub mapping_of : Option OidcConfig → RoleMapping
mapping_of none = empty_mapping
mapping_of (some c) = c.mapping

abbrev pub policy_of : Option OidcConfig → Option Policy
policy_of none = none
policy_of (some c) = c.policy

-- The legacy grants of a resolved role.
abbrev pub legacy_grants : Option (Text × Text) → Grants
legacy_grants none = no_grants
legacy_grants (some (r, source)) =
    role_grants r (str "role:" ++ (r ++ (str " (" ++ (source ++ str ")"))))

abbrev pub role_or_empty : Option (Text × Text) → Text
role_or_empty none = []
role_or_empty (some (r, source)) = r

abbrev pub is_resolved : Option (Text × Text) → Bool
is_resolved none = false
is_resolved (some _) = true

module _ (quote : Text → Text) where
  abbrev pub labelled : String → Text → Text
  labelled field key = str field ++ (str "[" ++ (quote key ++ str "]"))

  -- The part after the user map: the claim values, then the default.
  unfoldable pub resolve_values : List Text → RoleMapping → Option (Text × Text)
  resolve_values values m =
      let best = best_role m.role_map ([], []) values in
      if not (is_empty best.0)
      then some (best.0, labelled "roleMap" best.1)
      else from_source (str "defaultRole") (normalize_role m.default_role)

  abbrev pub by_sub : Text → List Text → RoleMapping → Option Text → Option (Text × Text)
  by_sub sub values m (some r) = from_source (labelled "userMap" sub) (normalize_role r)
  by_sub sub values m none = resolve_values values m

  abbrev pub by_email : Text → Text → List Text → RoleMapping → Option Text → Option (Text × Text)
  by_email email sub values m (some r) = from_source (labelled "userMap" email) (normalize_role r)
  by_email email sub values m none = by_sub sub values m (user_entry sub m.user_map)

  unfoldable pub resolve_role_source : List Text → Text → Text → RoleMapping → Option (Text × Text)
  resolve_role_source values email sub m = by_email email sub values m (user_entry email m.user_map)

  unfoldable pub resolve_role : List Text → Text → Text → RoleMapping → Option Text
  resolve_role values email sub m = elim (resolve_role_source values email sub m) [
    | none ↦ none
    | some (r, source) ↦ some r
  ]

  -- A nil server resolves nothing.
  unfoldable pub identity_grants : Option Server → List Text → Text → Text → Resolved
  identity_grants none values email sub = record { role = []; grants = no_grants; admitted = false }
  identity_grants (some s) values email sub =
      let legacy = resolve_role_source values email sub (mapping_of s.oidc) in
      let (granted, matched) =
        match quote (policy_of s.oidc) (record { values = values; email = email; sub = sub }) in
      record {
        role = role_or_empty legacy;
        grants = join (legacy_grants legacy) granted;
        admitted = is_resolved legacy || matched;
      }

abbrev pub with_parsed : Set → Option Permission → Set
with_parsed set none = set
with_parsed set (some p) = with_one set p

-- The loop of `ceilingSet` over the names.
unfoldable pub known_set : Set → List Text → Set
known_set set [] = set
known_set set (name ∷ rest) = known_set (with_parsed set (parse name)) rest

-- A ceiling: the explicit permission list when there is one, else the role's bundle, else none.
unfoldable pub ceiling_set : Text → Option (List Text) → Option Set
ceiling_set role (some perms) = some (known_set 0 perms)
ceiling_set role none = if is_empty role then none else some (or_empty (bundle role))
