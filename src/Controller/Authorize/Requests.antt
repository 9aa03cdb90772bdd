-- ===== src/Controller/Authorize/Requests.antt =====
-- The whole of `authorize`, for a person and for an agent.
use unified_cd.Prelude.{
  ◌≡◌, refl, sym, ap, ◌∙◌, Bool, true, false, ◌&&◌, List, [], ◌∷◌, some, arith, if◌then◌else◌,
  Bool-cases, inl, inr, is_empty, any, Text, text_eq,
}
use unified_cd.Authz.Catalogue.{job_read}
use unified_cd.Authz.Grants.{Grants, can, is_empty_grants}
use unified_cd.Authz.Grants.Invariant.{IsBuilt}
use unified_cd.Authz.Grants.Decision.{grants_on, can-any}
use unified_cd.Authz.Grants.Algebra.{can-held_anywhere}
use unified_cd.Controller.Principal.{Principal}
use unified_cd.Controller.Routes.Rules.{RouteRule, scope_job_path, scope_job_run_id, m_get}
use unified_cd.Controller.Routes.Lookup.{
  lookup_route, is_open, is_guarded, lookup_route-guarded, lookup_route-get,
}
use unified_cd.Controller.Authorize.{
  deny, Request, Store, run_of, parse_job_wildcard, holds_any, authorize_scope, authorize_principal,
  authorize_rule, authorize_human, authorize, authorize_agent,
}
use unified_cd.Controller.Authorize.Runs.{passes, require_job_of-passes, authorize_run-passes}

passes-agent : (rule : RouteRule) → passes (authorize_agent rule) ≡ rule.agent_bypass
passes-agent rule = elim (Bool-cases rule.agent_bypass) [
  | inl skips ↦ rw skips
  | inr asks ↦ rw asks
]

guarded-bypass :
    (rule : RouteRule)
    → is_guarded rule ≡ true
    → rule.agent_bypass ≡ true
    → text_eq rule.method m_get ≡ true
guarded-bypass rule h i = ground arith

if_false {ℓ} : {A : Type ℓ} (b : Bool) (x y : A) → b ≡ false → (if b then x else y) ≡ y
if_false true x y h = cc
if_false false x y h = refl

-- An agent that passes a route which is neither public, nor self, nor of the agents alone has sent
-- a GET.
pub authorize-agent_reads :
    (st : Store) (r : Request) {rule : RouteRule}
    → r.is_agent ≡ true
    → lookup_route r.method r.pattern ≡ some rule
    → is_open rule.scope ≡ false
    → passes (authorize st r) ≡ true
    → r.method ≡ m_get
unfolding authorize
authorize-agent_reads st r {rule} agent found shut passed =
    let at_rule : passes (authorize_agent rule) ≡ true = rw (found, shut, agent) at passed in
    lookup_route-get r.method r.pattern found (
      guarded-bypass rule (lookup_route-guarded r.method r.pattern found)
        (sym (passes-agent rule) ∙ at_rule))

none_any {ℓ} : {A : Type ℓ} (q : A → Bool) (xs : List A) → is_empty xs ≡ true → any q xs ≡ false
unfolding any
none_any q [] h = refl
none_any q (x ∷ xs) h = cc

module _ {g : Grants} (built : IsBuilt g) (rule : RouteRule) (job : Text) where
  -- Without any source nothing is granted.
  can-empty : is_empty_grants g ≡ true → can g rule.perm job ≡ false
  unfolding is_empty_grants
  can-empty h = rw (can-any built rule.perm job) (none_any (grants_on rule.perm job) g.sources h)

  can-not_held : holds_any g rule ≡ false → can g rule.perm job ≡ false
  unfolding holds_any
  can-not_held h = ground (arith, h, can-held_anywhere built rule.perm job)

and_no : (a b : Bool) → b ≡ false → false ≡ (a && b)
and_no true b h = sym h
and_no false b h = refl

-- The checks before the scope's own do not change the answer for a job.
authorize_principal-on_job :
    (st : Store) (r : Request) (p : Principal) (rule : RouteRule) (job : Text)
    → IsBuilt p.grants
    → passes (authorize_scope st r p.grants rule rule.scope)
      ≡ (can p.grants job_read job && can p.grants rule.perm job)
    → passes (authorize_principal st r p rule)
      ≡ (can p.grants job_read job && can p.grants rule.perm job)
unfolding authorize_principal deny
authorize_principal-on_job st r p rule job built scoped =
    elim (Bool-cases (is_empty_grants p.grants)) [
      | inl nothing ↦ rw nothing (and_no _ _ (can-empty built rule job nothing))
      | inr something ↦ elim (Bool-cases (holds_any p.grants rule)) [
        | inl held ↦ rw (something, held) scoped
        | inr unheld ↦ rw (something, unheld) (and_no _ _ (can-not_held built rule job unheld))
      ]
    ]

module _ (st : Store) (r : Request) {rule : RouteRule} {p : Principal} (built : IsBuilt p.grants)
    (known : r.is_agent ≡ false) (person : r.principal ≡ some p)
    (found : lookup_route r.method r.pattern ≡ some rule) where
  authorize-person : is_open rule.scope ≡ false → authorize st r ≡ authorize_principal st r p rule
  unfolding authorize
  authorize-person shut =
      ap (authorize_rule st r) found
      ∙ if_false (is_open rule.scope) _ _ shut
      ∙ if_false r.is_agent _ _ known
      ∙ ap (λ o. authorize_human st r o rule) person

  -- A request of a person whose grants Add built, to a route classified by the job in its path,
  -- reaches the handler exactly when the person holds both job.read and the permission of the
  -- route on the job that the path addresses.
  pub authorize-job_path :
      rule.scope ≡ scope_job_path
      → let job = (parse_job_wildcard r).0 in
        passes (authorize st r) ≡ (can p.grants job_read job && can p.grants rule.perm job)
  authorize-job_path scope =
      ap passes (authorize-person (ap is_open scope))
      ∙ authorize_principal-on_job st r p rule (parse_job_wildcard r).0 built (
          ap (λ s. passes (authorize_scope st r p.grants rule s)) scope
          ∙ require_job_of-passes built rule.perm (parse_job_wildcard r).0 _)

  -- A request of a person whose grants Add built, to a route classified by a run whose job the
  -- store knows, reaches the handler exactly when the person holds both job.read and the
  -- permission of the route on the job of that run; the fast path that skips the lookup does not
  -- change this.
  pub authorize-run_job :
      (job : Text)
      → rule.scope ≡ scope_job_run_id
      → st.run_job_name (r.url_param rule.run_param) ≡ run_of job
      → passes (authorize st r) ≡ (can p.grants job_read job && can p.grants rule.perm job)
  authorize-run_job job scope run =
      ap passes (authorize-person (ap is_open scope))
      ∙ authorize_principal-on_job st r p rule job built (
          ap (λ s. passes (authorize_scope st r p.grants rule s)) scope
          ∙ authorize_run-passes built st r rule job run)
