-- ===== src/Authz/Policy/Meaning.antt =====
-- What `Match` grants: the entries that match, on the folders of their scopes, and nothing else.
use unified_cd.Prelude.{
  ◌≡◌, refl, ◌∙◌, Bool, false, ◌&&◌, ◌||◌, List, [], ◌∷◌, Option, none, some, arith, Bool-cases,
  inl, inr, is_empty, any, Text,
}
use unified_cd.Authz.Catalogue.{Permission}
use unified_cd.Authz.Set.{has}
use unified_cd.Authz.Folder.{covers}
use unified_cd.Authz.Grants.{Grants, no_grants, can}
use unified_cd.Authz.Grants.Invariant.{IsBuilt, no_grants-IsBuilt, add-IsBuilt, any-add}
use unified_cd.Authz.Grants.Decision.{grants_on, grants_on-SkipsEmpty, can-any}
use unified_cd.Authz.Policy.{PolicyGrant, PolicyScope, Policy}
use unified_cd.Authz.Policy.Matching.{
  Identity, group_matches, user_matches, match_one, match_entries, match_scopes, match, scopes_of,
  group_label, user_label,
}

-- A matching entry that holds the permission.
abbrev pub entry_grants : (PolicyGrant → Bool) → Permission → PolicyGrant → Bool
entry_grants matches p e = matches e && has e.set p

-- The scope grants `p` on `job` to the identity.
abbrev pub scope_grants : Identity → Permission → Text → PolicyScope → Bool
scope_grants id p job s =
    (is_empty s.folder || covers s.folder job)
    && (any (entry_grants (group_matches id) p) s.groups
        || any (entry_grants (user_matches id) p) s.users)

module _ (quote : Text → Text) where
  module _ (matches : PolicyGrant → Bool) (label : Text → PolicyGrant → Text) (folder : Text) where
    match_one-IsBuilt :
        (acc : Grants × Bool) (e : PolicyGrant)
        → IsBuilt acc.0
        → IsBuilt (match_one quote matches label folder acc e).0
    unfolding match_one
    match_one-IsBuilt acc e built = elim (Bool-cases (matches e)) [
      | inl hit ↦ rw hit (add-IsBuilt acc.0 folder e.set (label folder e) built)
      | inr miss ↦ rw miss built
    ]

    match_entries-IsBuilt :
        (acc : Grants × Bool) (es : List PolicyGrant)
        → IsBuilt acc.0
        → IsBuilt (match_entries quote matches label folder acc es).0
    unfolding match_entries
    match_entries-IsBuilt acc [] built = built
    match_entries-IsBuilt acc (e ∷ es) built =
        match_entries-IsBuilt (match_one quote matches label folder acc e) es
          (match_one-IsBuilt acc e built)

    match_entries-flag :
        (acc : Grants × Bool) (es : List PolicyGrant)
        → (match_entries quote matches label folder acc es).1 ≡ (acc.1 || any matches es)
    unfolding match_entries match_one any
    match_entries-flag acc [] = ground arith
    match_entries-flag acc (e ∷ es) =
        ground (arith, match_entries-flag (match_one quote matches label folder acc e) es)

    module _ (p : Permission) (job : Text) where
      any-match_one :
          (acc : Grants × Bool) (e : PolicyGrant)
          → any (grants_on p job) (match_one quote matches label folder acc e).0.sources ≡ (
              any (grants_on p job) acc.0.sources
              || (is_empty folder || covers folder job) && entry_grants matches p e)
      unfolding match_one
      any-match_one acc e = elim (Bool-cases (matches e)) [
        | inl hit ↦ rw hit (
            rw
              (any-add acc.0 folder e.set (label folder e) (grants_on p job) (
                grants_on-SkipsEmpty p job
                  (record { folder = folder; perms = e.set; by = label folder e })))
              (ground arith))
        | inr miss ↦ rw miss (ground arith)
      ]

      any-match_entries :
          (acc : Grants × Bool) (es : List PolicyGrant)
          → any (grants_on p job) (match_entries quote matches label folder acc es).0.sources ≡ (
              any (grants_on p job) acc.0.sources
              || (is_empty folder || covers folder job) && any (entry_grants matches p) es)
      unfolding match_entries any
      any-match_entries acc [] = ground arith
      any-match_entries acc (e ∷ es) = ground (
        arith,
        any-match_entries (match_one quote matches label folder acc e) es,
        any-match_one acc e,
      )

  -- One scope: its groups, then its users.
  match_scope : Identity → Grants × Bool → PolicyScope → Grants × Bool
  match_scope id acc s =
      match_entries quote (user_matches id) (user_label quote) s.folder
        (match_entries quote (group_matches id) (group_label quote) s.folder acc s.groups) s.users

  match_scopes-IsBuilt :
      (id : Identity) (acc : Grants × Bool) (ss : List PolicyScope)
      → IsBuilt acc.0
      → IsBuilt (match_scopes quote id acc ss).0
  unfolding match_scopes match_scope
  match_scopes-IsBuilt id acc [] built = built
  match_scopes-IsBuilt id acc (s ∷ ss) built = match_scopes-IsBuilt id (match_scope id acc s) ss (
      match_entries-IsBuilt (user_matches id) (user_label quote) s.folder _ s.users
        (match_entries-IsBuilt (group_matches id) (group_label quote) s.folder acc s.groups built))

  any-match_scopes :
      (id : Identity) (p : Permission) (job : Text) (acc : Grants × Bool) (ss : List PolicyScope)
      → any (grants_on p job) (match_scopes quote id acc ss).0.sources
        ≡ (any (grants_on p job) acc.0.sources || any (scope_grants id p job) ss)
  unfolding match_scopes match_scope any
  any-match_scopes id p job acc [] = ground arith
  any-match_scopes id p job acc (s ∷ ss) = ground (
    arith,
    any-match_scopes id p job (match_scope id acc s) ss,
    any-match_entries (user_matches id) (user_label quote) s.folder p job
        (match_entries quote (group_matches id) (group_label quote) s.folder acc s.groups) s.users,
    any-match_entries (group_matches id) (group_label quote) s.folder p job acc s.groups,
  )

  match_scopes-flag :
      (id : Identity) (acc : Grants × Bool) (ss : List PolicyScope)
      → (match_scopes quote id acc ss).1
        ≡ (acc.1 || any (λ s. any (group_matches id) s.groups || any (user_matches id) s.users) ss)
  unfolding match_scopes match_scope any
  match_scopes-flag id acc [] = ground arith
  match_scopes-flag id acc (s ∷ ss) = ground (
    arith,
    match_scopes-flag id (match_scope id acc s) ss,
    match_entries-flag (user_matches id) (user_label quote) s.folder
        (match_entries quote (group_matches id) (group_label quote) s.folder acc s.groups) s.users,
    match_entries-flag (group_matches id) (group_label quote) s.folder acc s.groups,
  )

  pub match-IsBuilt : (p : Option Policy) (id : Identity) → IsBuilt (match quote p id).0
  unfolding match
  match-IsBuilt none id = no_grants-IsBuilt
  match-IsBuilt (some p) id = match_scopes-IsBuilt id (no_grants, false) p.scopes no_grants-IsBuilt

  any-match :
      (pol : Option Policy) (id : Identity) (p : Permission) (job : Text)
      → any (grants_on p job) (match quote pol id).0.sources
        ≡ any (scope_grants id p job) (scopes_of pol)
  unfolding match no_grants any
  any-match none id p job = refl
  any-match (some pol) id p job = any-match_scopes id p job (no_grants, false) pol.scopes

  -- What Match gives an identity grants a permission on a job exactly when some scope of the
  -- policy is global or on a folder over the job, and has an entry that matches the identity and
  -- holds the permission.
  pub can-match :
      (pol : Option Policy) (id : Identity) (p : Permission) (job : Text)
      → can (match quote pol id).0 p job ≡ any (scope_grants id p job) (scopes_of pol)
  can-match pol id p job = can-any (match-IsBuilt pol id) p job ∙ any-match pol id p job

  -- An identity is matched exactly when some entry of some scope matches it.
  pub match_matched :
      (pol : Option Policy) (id : Identity)
      → (match quote pol id).1
        ≡ any
            (λ s. any (group_matches id) s.groups || any (user_matches id) s.users)
            (scopes_of pol)
  unfolding match any
  match_matched none id = refl
  match_matched (some pol) id = match_scopes-flag id (no_grants, false) pol.scopes
