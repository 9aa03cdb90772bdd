-- ===== src/Controller/Principal/Built.antt =====
-- The grants of every principal are built by `Add`.
use unified_cd.Prelude.{
  Bool, true, false, List, Option, none, some, Text, str, ◌++◌, ◌==◌, if◌then◌else◌,
}
use unified_cd.Authz.Set.{Set, all_set}
use unified_cd.Authz.Grants.{Grants, no_grants, all_grants}
use unified_cd.Authz.Grants.Invariant.{
  IsBuilt, no_grants-IsBuilt, add-IsBuilt, restrict-IsBuilt, role_grants-IsBuilt,
}
use unified_cd.Controller.Rbac.{Server, role_rank}
use unified_cd.Controller.Rbac.Laws.{identity_grants-IsBuilt}
use unified_cd.Controller.Principal.{
  Pat, Owner, Session, Principal, is_enroll_pat, capped, with_implied_enroll, is_break_glass,
  ownerless_principal, owner_principal, owned_principal, pat_principal, claimed_session,
  session_principal,
}
use unified_cd.Controller.Principal.Ceiling.{enroll_grants-IsBuilt}

-- What is built of a principal, where there is one.
abbrev pub IsBuiltPrincipal : Option Principal → Type 0
IsBuiltPrincipal none = Unit
IsBuiltPrincipal (some p) = IsBuilt p.grants

all_grants-IsBuilt : (by : Text) → IsBuilt (all_grants by)
unfolding all_grants
all_grants-IsBuilt by = add-IsBuilt no_grants (str "") all_set by no_grants-IsBuilt

capped-IsBuilt : (o : Option Set) {g : Grants} → IsBuilt g → IsBuilt (capped o g)
unfolding capped
capped-IsBuilt none built = built
capped-IsBuilt (some c) {g} built =
    restrict-IsBuilt (with_implied_enroll c g) c (str " & pat-ceiling")

if-IsBuiltPrincipal :
    (b : Bool) (o u : Option Principal)
    → IsBuiltPrincipal o
    → IsBuiltPrincipal u
    → IsBuiltPrincipal (if b then o else u)
if-IsBuiltPrincipal true o u h k = h
if-IsBuiltPrincipal false o u h k = k

module _ (quote hash : Text → Text) where
  ownerless-IsBuilt : (pat : Pat) → IsBuiltPrincipal (ownerless_principal quote hash pat)
  unfolding ownerless_principal
  ownerless-IsBuilt pat =
      if-IsBuiltPrincipal (is_enroll_pat pat) _ _ (enroll_grants-IsBuilt (str "pat:" ++ pat.name))
        (if-IsBuiltPrincipal (role_rank pat.role == 0) _ _ tt (role_grants-IsBuilt pat.role _))

  owned-IsBuilt :
      (srv : Option Server) (pat : Pat) (o : Option Owner)
      → IsBuiltPrincipal (owned_principal quote hash srv pat o)
  unfolding owner_principal
  owned-IsBuilt srv pat none = ownerless-IsBuilt pat
  owned-IsBuilt srv pat (some owner) =
      capped-IsBuilt _ (identity_grants-IsBuilt quote srv _ owner.email owner.sub)

  pat_principal-IsBuilt :
      (srv : Option Server) (pat : Pat) (presented : Text)
      → IsBuiltPrincipal (pat_principal quote hash srv pat presented)
  unfolding pat_principal
  pat_principal-IsBuilt srv pat presented =
      if-IsBuiltPrincipal (is_break_glass quote hash srv pat presented) _ _
        (all_grants-IsBuilt (str "break-glass")) (owned-IsBuilt srv pat pat.owner)

  claimed-IsBuilt :
      (srv : Option Server) (sess : Session) (o : Option (List Text))
      → IsBuiltPrincipal (claimed_session quote hash srv sess o)
  claimed-IsBuilt srv sess (some claims) =
      identity_grants-IsBuilt quote srv claims sess.email sess.sub
  claimed-IsBuilt srv sess none =
      if-IsBuiltPrincipal (role_rank sess.role == 0) _ _ tt (role_grants-IsBuilt sess.role _)

  session_principal-IsBuilt :
      (srv : Option Server) (sess : Session)
      → IsBuiltPrincipal (session_principal quote hash srv sess)
  unfolding session_principal
  session_principal-IsBuilt srv sess = claimed-IsBuilt srv sess sess.claims

  -- Whatever the server, the token and the session, the grants of the principal that a token or a
  -- session becomes, if it becomes one, are built by Add: their global and folder sets are those
  -- of their sources.
  pub principal-IsBuilt :
      (srv : Option Server) (pat : Pat) (presented : Text) (sess : Session)
      → IsBuiltPrincipal (pat_principal quote hash srv pat presented)
        × IsBuiltPrincipal (session_principal quote hash srv sess)
  principal-IsBuilt srv pat presented sess =
      (pat_principal-IsBuilt srv pat presented, session_principal-IsBuilt srv sess)
