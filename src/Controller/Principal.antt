-- ===== src/Controller/Principal.antt =====
-- internal/controller/auth.go: the principal behind a personal access token (PAT) or a session.
pub mod Ceiling
pub mod Built
use unified_cd.Prelude.{
  ◌<◌, Bool, true, false, not, ◌&&◌, ◌||◌, List, [], ◌∷◌, ◌++◌, Option, none, some, ltb, ◌==◌,
  if◌then◌else◌, is_empty, Text, str, text_eq,
}
use unified_cd.Authz.Catalogue.{agent_enroll, agent_manage}
use unified_cd.Authz.Set.{Set, has, with_one}
use unified_cd.Authz.Grants.{Grants, no_grants, add, can, role_grants, all_grants, join, restrict}
use unified_cd.Controller.Rbac.{Server, Resolved, role_rank, identity_grants, ceiling_set}

pub data Kind : Type 0 where
  pat_kind oidc_kind session_kind : Kind

-- `none` is a nil slice of claims.
pub record Owner : Type 0 where
  pub claims : Option (List Text)
  pub email : Text
  pub sub : Text

pub record Pat : Type 0 where
  pub id : Text
  pub name : Text
  pub role : Text
  pub permissions : Option (List Text)
  pub owner : Option Owner
  pub enroll_labels : Option (List Text)

pub record Session : Type 0 where
  pub email : Text
  pub sub : Text
  pub role : Text
  pub claims : Option (List Text)

pub record Principal : Type 0 where
  pub name : Text
  pub kind : Kind
  pub role : Text
  pub sub : Text
  pub email : Text
  pub claims : Option (List Text)
  pub claims_known : Bool
  pub grants : Grants
  pub ceiling : Option Set
  pub ceiling_role : Text
  pub ceiling_perms : Option (List Text)
  pub owner_pat_id : Text
  pub break_glass : Bool
  pub enroll_labels : Option (List Text)

-- The zero value but for the name and the kind.
abbrev pub bare_principal : Text → Kind → Principal
bare_principal name kind = record {
  name = name;
  kind = kind;
  role = [];
  sub = [];
  email = [];
  claims = none;
  claims_known = false;
  grants = no_grants;
  ceiling = none;
  ceiling_role = [];
  ceiling_perms = none;
  owner_pat_id = [];
  break_glass = false;
  enroll_labels = none;
}

abbrev pub values_of : Option (List Text) → List Text
values_of none = []
values_of (some vs) = vs

unfoldable pub non_nil_claims : Option (List Text) → Option (List Text)
non_nil_claims vs = some (values_of vs)

unfoldable pub is_only_enroll : Option (List Text) → Bool
is_only_enroll none = false
is_only_enroll (some []) = false
is_only_enroll (some (p ∷ [])) = text_eq p agent_enroll
is_only_enroll (some (p ∷ q ∷ rest)) = false

unfoldable pub is_enroll_pat : Pat → Bool
is_enroll_pat pat = is_empty pat.role && is_only_enroll pat.permissions

unfoldable pub enroll_grants : Text → Grants
enroll_grants by = add no_grants [] (with_one 0 agent_enroll) by

-- `agent.manage` covers `agent.enroll` for the owner of a PAT whose ceiling holds it.
unfoldable pub with_implied_enroll : Set → Grants → Grants
with_implied_enroll ceiling grants =
    if has ceiling agent_enroll && can grants agent_manage []
    then join grants (enroll_grants (str "agent.manage (implies agent.enroll)"))
    else grants

-- The owner's grants under a ceiling; no ceiling leaves them alone.
unfoldable pub capped : Option Set → Grants → Grants
capped none grants = grants
capped (some ceiling) grants =
    restrict (with_implied_enroll ceiling grants) ceiling (str " & pat-ceiling")

-- The legacy role of a PAT: none under a permission list, never above the PAT's own.
unfoldable pub capped_role : Option Set → Option (List Text) → Text → Text → Text
capped_role none perms pat_role role = role
capped_role (some ceiling) (some perms) pat_role role = []
capped_role (some ceiling) none pat_role role =
    if ltb (role_rank pat_role) (role_rank role) then pat_role else role

abbrev pub has_no_owner : Option Owner → Bool
has_no_owner none = true
has_no_owner (some _) = false

-- `quote` is Go's %q and `hash` is SHA-256 in hexadecimal.
module _ (quote : Text → Text) (hash : Text → Text) where
  -- The PAT name alone never grants break-glass.
  unfoldable pub is_break_glass : Option Server → Pat → Text → Bool
  is_break_glass none pat presented = false
  is_break_glass (some s) pat presented =
      not (is_empty s.token) && has_no_owner pat.owner && text_eq presented (hash s.token)

  -- A PAT without an owner that is not break-glass: enrollment only, or role only.
  unfoldable pub ownerless_principal : Pat → Option Principal
  ownerless_principal pat =
      let bare = bare_principal pat.name Kind.pat_kind in
      if is_enroll_pat pat
      then some (record bare {
        grants = enroll_grants (str "pat:" ++ pat.name);
        enroll_labels = pat.enroll_labels;
      })
      else if role_rank pat.role == 0
      then none
      else some (record bare {
        role = pat.role;
        grants = role_grants pat.role (str "role:" ++ (pat.role ++ str " (pat)"));
      })

  -- The owner's grants under the current configuration, capped by the ceiling.
  unfoldable pub owner_principal : Option Server → Pat → Owner → Principal
  owner_principal srv pat owner =
      let resolved = identity_grants quote srv (values_of owner.claims) owner.email owner.sub in
      let ceiling = ceiling_set pat.role pat.permissions in
      record {
        name = pat.name;
        kind = Kind.pat_kind;
        role = capped_role ceiling pat.permissions pat.role resolved.role;
        sub = owner.sub;
        email = owner.email;
        claims = non_nil_claims owner.claims;
        claims_known = true;
        grants = capped ceiling resolved.grants;
        ceiling = ceiling;
        ceiling_role = pat.role;
        ceiling_perms = pat.permissions;
        owner_pat_id = pat.id;
        break_glass = false;
        enroll_labels = pat.enroll_labels;
      }

  abbrev pub owned_principal : Option Server → Pat → Option Owner → Option Principal
  owned_principal srv pat none = ownerless_principal pat
  owned_principal srv pat (some owner) = some (owner_principal srv pat owner)

  -- `none` is the refusal "forbidden: no role".
  unfoldable pub pat_principal : Option Server → Pat → Text → Option Principal
  pat_principal srv pat presented =
      let bare = bare_principal pat.name Kind.pat_kind in
      if is_break_glass srv pat presented
      then some (record bare {
        role = str "admin";
        break_glass = true;
        grants = all_grants (str "break-glass");
      })
      else owned_principal srv pat pat.owner

  abbrev pub session_name : Session → Text
  session_name sess = if is_empty sess.email then sess.sub else sess.email

  abbrev pub claimed_session : Option Server → Session → Option (List Text) → Option Principal
  claimed_session srv sess (some claims) =
      let resolved = identity_grants quote srv claims sess.email sess.sub in
      let bare = bare_principal (session_name sess) Kind.session_kind in
      some (record bare {
        sub = sess.sub;
        email = sess.email;
        role = resolved.role;
        grants = resolved.grants;
        claims = some claims;
        claims_known = true;
      })
  claimed_session srv sess none =
      let bare = bare_principal (session_name sess) Kind.session_kind in
      if role_rank sess.role == 0
      then none
      else some (record bare {
        sub = sess.sub;
        email = sess.email;
        role = sess.role;
        grants = role_grants sess.role (str "role:" ++ (sess.role ++ str " (session)"));
      })

  unfoldable pub session_principal : Option Server → Session → Option Principal
  session_principal srv sess = claimed_session srv sess sess.claims
