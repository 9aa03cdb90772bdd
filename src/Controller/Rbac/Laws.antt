-- ===== src/Controller/Rbac/Laws.antt =====
-- The role hierarchy, the resolution of a role, and what an identity may do.
use unified_cd.Prelude.{
  ℕ, zero, suc, ◌≤◌, ◌<◌, ◌≡◌, refl, sym, ◌∙◌, true, false, ◌||◌, List, [], ◌∷◌, Option, none, some,
  arith, Bool-cases, inl, inr, is_empty, any, contains, Text, str, text_eq, text_eq_iff, Table,
  lookup,
}
use native.Mathlib.Nat.{le_trans}
use unified_cd.Authz.Catalogue.{Permission}
use unified_cd.Authz.Set.{Set, has, bundle, viewer_set, developer_set, all_set}
use unified_cd.Authz.Set.Laws.{has-with_all, has-all_set, has-is_known, has-empty}
use unified_cd.Authz.Grants.{can, or_empty}
use unified_cd.Authz.Grants.Invariant.{
  IsBuilt, no_grants-IsBuilt, role_grants-IsBuilt, join-IsBuilt,
}
use unified_cd.Authz.Grants.Algebra.{can-join, can-no_grants, can-role_grants}
use unified_cd.Authz.Policy.Matching.{Identity, scopes_of}
use unified_cd.Authz.Policy.Meaning.{scope_grants, can-match, match-IsBuilt}
use unified_cd.Controller.Rbac.{
  role_rank, normalize_role, RoleMapping, Server, from_source, rank_of, or_best, best_role,
  user_entry, by_email, by_sub, labelled, resolve_values, resolve_role_source, mapping_of,
  policy_of, legacy_grants, role_or_empty, identity_grants,
}

-- The bundle of each rank.
abbrev ranked : ℕ → Set
ranked zero = 0
ranked (suc zero) = viewer_set
ranked (suc (suc zero)) = developer_set
ranked (suc (suc (suc n))) = all_set

bundle-ranked : (r : Text) → or_empty (bundle r) ≡ ranked (role_rank r)
unfolding bundle role_rank
bundle-ranked r = elim (Bool-cases (text_eq r (str "viewer"))) [
  | inl v ↦ rw v
  | inr nv ↦ elim (Bool-cases (text_eq r (str "developer"))) [
    | inl d ↦ rw (nv, d)
    | inr nd ↦ elim (Bool-cases (text_eq r (str "admin"))) [
      | inl a ↦ rw (nv, nd, a)
      | inr na ↦ rw (nv, nd, na)
    ]
  ]
]

viewer-developer : (p : Permission) → has viewer_set p ≡ true → has developer_set p ≡ true
viewer-developer p h = rw (has-with_all viewer_set _ p, h)

set-all : (set : Set) (p : Permission) → has set p ≡ true → has all_set p ≡ true
set-all set p h = has-all_set p ∙ has-is_known set p h

ranked_mono : (n m : ℕ) (p : Permission) → n ≤ m → has (ranked n) p ≡ true → has (ranked m) p ≡ true
ranked_mono zero m p le h = let no_way : false ≡ true = rw (has-empty p) at h in cc
ranked_mono (suc zero) zero p le h = absurd (omega arith)
ranked_mono (suc zero) (suc zero) p le h = h
ranked_mono (suc zero) (suc (suc zero)) p le h = viewer-developer p h
ranked_mono (suc zero) (suc (suc (suc m))) p le h = set-all viewer_set p h
ranked_mono (suc (suc zero)) zero p le h = absurd (omega arith)
ranked_mono (suc (suc zero)) (suc zero) p le h = absurd (omega arith)
ranked_mono (suc (suc zero)) (suc (suc zero)) p le h = h
ranked_mono (suc (suc zero)) (suc (suc (suc m))) p le h = set-all developer_set p h
ranked_mono (suc (suc (suc n))) zero p le h = absurd (omega arith)
ranked_mono (suc (suc (suc n))) (suc zero) p le h = absurd (omega arith)
ranked_mono (suc (suc (suc n))) (suc (suc zero)) p le h = absurd (omega arith)
ranked_mono (suc (suc (suc n))) (suc (suc (suc m))) p le h = h

-- What the bundle of a role holds, the bundle of every role of at least its rank holds.
pub role_hierarchy :
    (low high : Text) (p : Permission)
    → role_rank low ≤ role_rank high
    → has (or_empty (bundle low)) p ≡ true
    → has (or_empty (bundle high)) p ≡ true
role_hierarchy low high p le h =
    rw (bundle-ranked high)
      (ranked_mono (role_rank low) (role_rank high) p le (rw (bundle-ranked low) at h))

-- One round keeps the best role and looks at the new one.
or_best-max :
    (best : Text × Text) (v : Text) (o : Option Text)
    → (role_rank best.0 ≤ role_rank (or_best best v o).0)
      × (rank_of o ≤ role_rank (or_best best v o).0)
or_best-max best v none = omega arith
or_best-max best v (some r) = ground arith

best_role-start :
    (m : Table Text) (best : Text × Text) (vs : List Text)
    → role_rank best.0 ≤ role_rank (best_role m best vs).0
unfolding best_role
best_role-start m best [] = omega arith
best_role-start m best (w ∷ vs) =
    omega
      (arith, or_best-max best w (lookup w m), best_role-start m (or_best best w (lookup w m)) vs)

-- The best role is at least as high as every claim value's.
best_role-max :
    (m : Table Text) (best : Text × Text) (vs : List Text) (v : Text)
    → contains vs v ≡ true
    → rank_of (lookup v m) ≤ role_rank (best_role m best vs).0
unfolding best_role contains any
best_role-max m best [] v h = cc
best_role-max m best (w ∷ vs) v h = elim (Bool-cases (text_eq w v)) [
  | inl same ↦ rw (← (text_eq_iff w v).0 same) (
      omega (
        arith,
        or_best-max best w (lookup w m),
        best_role-start m (or_best best w (lookup w m)) vs,
      ))
  | inr other ↦ best_role-max m (or_best best w (lookup w m)) vs v (rw other at h)
]

-- A best role that is not empty comes from the table.
or_best-valid :
    (best : Text × Text) (w : Text) (o : Option Text)
    → (is_empty best.0 ≡ false → 0 < role_rank best.0)
    → is_empty (or_best best w o).0 ≡ false
    → 0 < role_rank (or_best best w o).0
or_best-valid best w none valid h = valid h
or_best-valid best w (some r) valid h = ground arith

best_role-valid :
    (m : Table Text) (best : Text × Text) (vs : List Text)
    → (is_empty best.0 ≡ false → 0 < role_rank best.0)
    → is_empty (best_role m best vs).0 ≡ false
    → 0 < role_rank (best_role m best vs).0
unfolding best_role
best_role-valid m best [] valid h = valid h
best_role-valid m best (w ∷ vs) valid h =
    best_role-valid m (or_best best w (lookup w m)) vs (or_best-valid best w (lookup w m) valid) h

normalize_role-rank : (r : Text) {r' : Text} → normalize_role r ≡ some r' → 0 < role_rank r'
unfolding normalize_role
normalize_role-rank r h = ground arith

role_rank-empty : (r : Text) → is_empty r ≡ true → role_rank r ≡ 0
unfolding role_rank text_eq
role_rank-empty [] h = refl
role_rank-empty (c ∷ r) h = cc

from_source-rank :
    (source r : Text) (o : Option Text) {role by : Text}
    → normalize_role r ≡ o
    → from_source source o ≡ some (role, by)
    → 0 < role_rank role
from_source-rank source r none e h = cc
from_source-rank source r (some r') {role} e h =
    let same : r' ≡ role = cc in rw (← same) (normalize_role-rank r e)

module _ (quote : Text → Text) where
  resolve_values-rank :
      (values : List Text) (m : RoleMapping) {role by : Text}
      → resolve_values quote values m ≡ some (role, by)
      → 0 < role_rank role
  unfolding resolve_values
  resolve_values-rank values m {role} {by} h =
      let best = best_role m.role_map ([], []) values in
      elim (Bool-cases (is_empty best.0)) [
        | inl none_found ↦
            from_source-rank _ m.default_role (normalize_role m.default_role) refl
              (rw none_found at h)
        | inr found ↦
            let same : some (best.0, labelled quote "roleMap" best.1) ≡ some (role, by) =
              rw found at h in
            let same' : best.0 ≡ role = cc same in
            rw (← same') (best_role-valid m.role_map ([], []) values (λ e. cc) found)
      ]

  by_sub-rank :
      (sub : Text) (values : List Text) (m : RoleMapping) (o : Option Text) {role by : Text}
      → by_sub quote sub values m o ≡ some (role, by)
      → 0 < role_rank role
  by_sub-rank sub values m none h = resolve_values-rank values m h
  by_sub-rank sub values m (some r) h = from_source-rank _ r (normalize_role r) refl h

  by_email-rank :
      (email sub : Text) (values : List Text) (m : RoleMapping) (o : Option Text) {role by : Text}
      → by_email quote email sub values m o ≡ some (role, by)
      → 0 < role_rank role
  by_email-rank email sub values m none h = by_sub-rank sub values m (user_entry sub m.user_map) h
  by_email-rank email sub values m (some r) h = from_source-rank _ r (normalize_role r) refl h

  -- A role that is resolved is a built-in role.
  pub resolve_role_source-rank :
      (values : List Text) (email sub : Text) (m : RoleMapping) {role by : Text}
      → resolve_role_source quote values email sub m ≡ some (role, by)
      → 0 < role_rank role
  unfolding resolve_role_source
  resolve_role_source-rank values email sub m h =
      by_email-rank email sub values m (user_entry email m.user_map) h

  resolve_values-highest :
      (values : List Text) (m : RoleMapping) {role by : Text} (v : Text)
      → resolve_values quote values m ≡ some (role, by)
      → contains values v ≡ true
      → rank_of (lookup v m.role_map) ≤ role_rank role
  unfolding resolve_values
  resolve_values-highest values m {role} {by} v h member =
      let best = best_role m.role_map ([], []) values in
      let bound = best_role-max m.role_map ([], []) values v member in
      elim (Bool-cases (is_empty best.0)) [
        | inl none_found ↦ le_trans bound (rw (role_rank-empty best.0 none_found) (omega arith))
        | inr found ↦
            let same : some (best.0, labelled quote "roleMap" best.1) ≡ some (role, by) =
              rw found at h in
            let same' : best.0 ≡ role = cc same in rw (← same') bound
      ]

  -- When neither the email nor the sub has an entry in the user map and a role is resolved, no
  -- claim value maps to a role of a higher rank.
  pub resolve_role_source-highest :
      (values : List Text) (email sub : Text) (m : RoleMapping) {role by : Text} (v : Text)
      → user_entry email m.user_map ≡ none
      → user_entry sub m.user_map ≡ none
      → resolve_role_source quote values email sub m ≡ some (role, by)
      → contains values v ≡ true
      → rank_of (lookup v m.role_map) ≤ role_rank role
  unfolding resolve_role_source
  resolve_role_source-highest values email sub m v no_email no_sub h member =
      resolve_values-highest values m v (rw no_sub at (rw no_email at h)) member

  -- What the legacy role grants is its bundle, on every job.
  can-legacy_grants :
      (o : Option (Text × Text)) (p : Permission) (job : Text)
      → (IsBuilt (legacy_grants o))
        × (can (legacy_grants o) p job ≡ has (or_empty (bundle (role_or_empty o))) p)
  can-legacy_grants none p job =
      (no_grants-IsBuilt, can-no_grants p job ∙ sym (unfold bundle text_eq in has-empty p))
  can-legacy_grants (some (r, source)) p job = (role_grants-IsBuilt r _, can-role_grants r _ p job)

  -- An OIDC identity of a configured server may do on a job exactly what the bundle of its
  -- resolved role holds, and what the matching entries of the scopes of the policy over that job
  -- hold.
  pub can-identity_grants :
      (s : Server) (values : List Text) (email sub : Text) (p : Permission) (job : Text)
      → can (identity_grants quote (some s) values email sub).grants p job ≡ (
          has (or_empty (bundle (identity_grants quote (some s) values email sub).role)) p
          || any
              (scope_grants (record { values = values; email = email; sub = sub }) p job)
              (scopes_of (policy_of s.oidc)))
  unfolding identity_grants
  can-identity_grants s values email sub p job =
      let id : Identity = record { values = values; email = email; sub = sub } in
      let legacy = resolve_role_source quote values email sub (mapping_of s.oidc) in
      let (built, same) = can-legacy_grants legacy p job in
      rw (
        can-join built (match-IsBuilt quote (policy_of s.oidc) id) p job,
        same,
        can-match quote (policy_of s.oidc) id p job,
      )

pub identity_grants-IsBuilt :
    (quote : Text → Text) (s : Option Server) (values : List Text) (email sub : Text)
    → IsBuilt (identity_grants quote s values email sub).grants
unfolding identity_grants
identity_grants-IsBuilt quote none values email sub = no_grants-IsBuilt
identity_grants-IsBuilt quote (some s) values email sub = join-IsBuilt _ _
