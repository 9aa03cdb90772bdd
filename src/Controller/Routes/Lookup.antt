-- ===== src/Controller/Routes/Lookup.antt =====
-- `lookupRoute` of internal/controller/authz_routes.go, and what the table guarantees.
use unified_cd.Prelude.{
  ◌≡◌, ◌⊎◌, refl, Bool, true, false, not, ◌&&◌, ◌||◌, List, [], ◌∷◌, Option, none, some, arith,
  if◌then◌else◌, Bool-cases, inl, inr, is_empty, all, Text, text_eq, text_eq_iff, sym, ◌∙◌,
}
use unified_cd.Authz.Catalogue.{is_known}
use unified_cd.Controller.Routes.Rules.{
  RouteScope, RouteRule, scope_public, scope_self, scope_agent, scope_job_run_id, m_any, m_get,
}
use unified_cd.Controller.Routes.Table.{route_table}

abbrev pub or_else : Option RouteRule → Option RouteRule → Option RouteRule
or_else none o = o
or_else (some r) o = some r

abbrev pub is_rule_of : Text → Text → RouteRule → Bool
is_rule_of method pattern r = text_eq r.method method && text_eq r.pattern pattern

-- `routeIndex`: of two rows for one method and pattern the index keeps the later.
unfoldable pub find_rule : Text → Text → List RouteRule → Option RouteRule
find_rule method pattern [] = none
find_rule method pattern (r ∷ rs) =
    or_else (find_rule method pattern rs) (if is_rule_of method pattern r then some r else none)

-- An exact method first, then a row for any method.
unfoldable pub lookup_route : Text → Text → Option RouteRule
lookup_route method pattern =
    or_else (find_rule method pattern route_table) (find_rule m_any pattern route_table)

-- The scopes whose routes `authorize` passes on to their own middleware.
abbrev pub is_open : RouteScope → Bool
is_open scope_public = true
is_open scope_self = true
is_open scope_agent = true
is_open _ = false

or_else-some :
    (a b : Option RouteRule) {r : RouteRule} → or_else a b ≡ some r → (a ≡ some r) ⊎ (b ≡ some r)
or_else-some none b h = inr h
or_else-some (some s) b h = inl h

if_some {ℓ} :
    {A : Type ℓ} (b : Bool) (a : A) {c : A} → (if b then some a else none) ≡ some c → a ≡ c
if_some true a h = cc
if_some false a h = cc

-- What holds of every row holds of the row that is found.
find_rule-all :
    (test : RouteRule → Bool) (method pattern : Text) (rs : List RouteRule) {r : RouteRule}
    → all test rs ≡ true
    → find_rule method pattern rs ≡ some r
    → test r ≡ true
unfolding find_rule all
find_rule-all test method pattern [] h e = cc
find_rule-all test method pattern (s ∷ rs) h e =
    elim (or_else-some (find_rule method pattern rs)
      (if is_rule_of method pattern s then some s else none) e) [
        | inl later ↦ find_rule-all test method pattern rs (ground arith) later
        | inr here ↦ rw (← if_some (is_rule_of method pattern s) s here) (ground arith)
      ]

abbrev pub is_run_scope : RouteScope → Bool
is_run_scope scope_job_run_id = true
is_run_scope _ = false

-- A row a human may use asks for a known permission, a run row names its run parameter, and an
-- agent skips the check only to read.
abbrev pub is_guarded : RouteRule → Bool
is_guarded r =
    (is_open r.scope || is_known r.perm)
    && ((not (is_run_scope r.scope) || not (is_empty r.run_param))
        && ((is_empty r.alt_perm || is_known r.alt_perm)
            && (not r.agent_bypass || text_eq r.method m_get)))

table_guarded : all is_guarded route_table ≡ true
unfolding all route_table is_known text_eq
table_guarded = refl

-- Every row by which a request is classified either has a scope that leaves the check to other
-- middleware or asks for a known permission; it names its run parameter if its job is that of a
-- run; its alternative permission, if any, is known; and an agent bypasses it only with GET.
pub lookup_route-guarded :
    (method pattern : Text) {r : RouteRule}
    → lookup_route method pattern ≡ some r
    → is_guarded r ≡ true
unfolding lookup_route
lookup_route-guarded method pattern h =
    elim (or_else-some (find_rule method pattern route_table) (find_rule m_any pattern route_table)
      h) [
        | inl exact ↦ find_rule-all is_guarded method pattern route_table table_guarded exact
        | inr any_method ↦
            find_rule-all is_guarded m_any pattern route_table table_guarded any_method
      ]

find_rule-is_rule_of :
    (method pattern : Text) (rs : List RouteRule) {r : RouteRule}
    → find_rule method pattern rs ≡ some r
    → is_rule_of method pattern r ≡ true
unfolding find_rule
find_rule-is_rule_of method pattern [] e = cc
find_rule-is_rule_of method pattern (s ∷ rs) {r} e =
    elim (or_else-some (find_rule method pattern rs)
      (if is_rule_of method pattern s then some s else none) e) [
        | inl later ↦ find_rule-is_rule_of method pattern rs later
        | inr here ↦ elim (Bool-cases (is_rule_of method pattern s)) [
          | inl is_row ↦ rw (← if_some (is_rule_of method pattern s) s here) is_row
          | inr skipped ↦ let no_row : none ≡ some r = rw skipped at here in cc
        ]
      ]

row_method :
    (method pattern : Text) {r : RouteRule}
    → find_rule method pattern route_table ≡ some r
    → r.method ≡ method
row_method method pattern {r} e =
    let is_row = find_rule-is_rule_of method pattern route_table e in
    (text_eq_iff r.method method).0 (ground arith)

-- A row that asks for GET is found only by a request for GET.
pub lookup_route-get :
    (method pattern : Text) {r : RouteRule}
    → lookup_route method pattern ≡ some r
    → text_eq r.method m_get ≡ true
    → method ≡ m_get
unfolding lookup_route
lookup_route-get method pattern {r} h get =
    elim (or_else-some (find_rule method pattern route_table) (find_rule m_any pattern route_table)
      h) [
        | inl exact ↦
            let same = row_method method pattern exact in
            sym same ∙ (text_eq_iff r.method m_get).0 get
        | inr any_method ↦
            let no_get : text_eq m_any m_get ≡ true =
              rw (row_method m_any pattern any_method) at get in
            unfold text_eq in cc
      ]
