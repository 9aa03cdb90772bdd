-- ===== src/Authz/Policy/Matching.antt =====
-- `Match` of internal/authz/policy.go, and the flags of a policy.
use unified_cd.Prelude.{
  Bool, true, false, not, ◌&&◌, ◌||◌, List, [], ◌∷◌, ◌++◌, Option, none, some, if◌then◌else◌,
  is_empty, any, Text, str, text_eq, contains,
}
use unified_cd.Authz.Grants.{Grants, no_grants, add}
use unified_cd.Authz.Policy.{PolicyGrant, PolicyScope, Policy}

pub record Identity : Type 0 where
  pub values : List Text
  pub email : Text
  pub sub : Text

abbrev pub group_matches : Identity → PolicyGrant → Bool
group_matches id e = contains id.values e.key

-- users keys match the email and the sub, both.
abbrev pub user_matches : Identity → PolicyGrant → Bool
user_matches id e =
    not (is_empty id.email) && text_eq id.email e.key
    || not (is_empty id.sub) && text_eq id.sub e.key

unfoldable pub scope_label : Text → Text
scope_label folder = if is_empty folder then str "global" else str "folder:" ++ folder

-- `quote` is the %q of a key in the label of a source.
module _ (quote : Text → Text) where
  abbrev pub group_label : Text → PolicyGrant → Text
  group_label folder e = scope_label folder ++ (str " (groups[" ++ (quote e.key ++ str "])"))

  abbrev pub user_label : Text → PolicyGrant → Text
  user_label folder e = scope_label folder ++ (str " (users[" ++ (quote e.key ++ str "])"))

  -- One round: a matching entry is recorded.
  unfoldable pub match_one :
      (PolicyGrant → Bool)
      → (Text → PolicyGrant → Text)
      → Text
      → Grants × Bool
      → PolicyGrant
      → Grants × Bool
  match_one matches label folder acc e =
      if matches e then (add acc.0 folder e.set (label folder e), true) else acc

  -- The loop over the entries of one kind, with the grants and `matched` so far.
  unfoldable pub match_entries :
      (PolicyGrant → Bool)
      → (Text → PolicyGrant → Text)
      → Text
      → Grants × Bool
      → List PolicyGrant
      → Grants × Bool
  match_entries matches label folder acc [] = acc
  match_entries matches label folder acc (e ∷ es) =
      match_entries matches label folder (match_one matches label folder acc e) es

  unfoldable pub match_scopes : Identity → Grants × Bool → List PolicyScope → Grants × Bool
  match_scopes id acc [] = acc
  match_scopes id acc (s ∷ ss) =
      match_scopes id
        (match_entries (user_matches id) user_label s.folder
          (match_entries (group_matches id) group_label s.folder acc s.groups) s.users)
        ss

  -- A nil policy is empty.
  unfoldable pub match : Option Policy → Identity → Grants × Bool
  match none id = (no_grants, false)
  match (some p) id = match_scopes id (no_grants, false) p.scopes

abbrev pub scopes_of : Option Policy → List PolicyScope
scopes_of none = []
scopes_of (some p) = p.scopes

unfoldable pub configured : Option Policy → Bool
configured p = any (λ s. not (is_empty s.groups) || not (is_empty s.users)) (scopes_of p)

unfoldable pub has_group_keyed_grants : Option Policy → Bool
has_group_keyed_grants p = any (λ s. not (is_empty s.groups)) (scopes_of p)

unfoldable pub has_folder_grants : Option Policy → Bool
has_folder_grants p = any (λ s. not (is_empty s.folder)) (scopes_of p)
