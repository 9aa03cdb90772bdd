-- ===== src/Controller/Authorize.antt =====
-- internal/controller/authz_decide.go: the single permission check for every human route.
pub mod Runs
pub mod Requests
use unified_cd.Prelude.{
  ℕ, Bool, true, false, not, ◌&&◌, ◌||◌, List, [], ◌∷◌, ◌++◌, Option, none, some, if◌then◌else◌,
  is_empty, Text, str, text_eq, has_suffix, trim_suffix, trim_byte,
}
use unified_cd.Authz.Folder.{slash}
use unified_cd.Authz.Catalogue.{Permission, job_read}
use unified_cd.Authz.Grants.{Grants, can, decide, held_anywhere, is_empty_grants}
use unified_cd.Controller.Principal.{Principal}
use unified_cd.Controller.Routes.Rules.{
  RouteScope, RouteRule, scope_global, scope_job_path, scope_job_run_id, scope_job_query,
  scope_job_body, scope_schedule_body, scope_schedule_path, scope_filtered, scope_public,
  scope_self, scope_agent, m_get,
}
use unified_cd.Controller.Routes.Lookup.{lookup_route, is_open}

-- What is kept for the audit log, without the resource that only a handler sets.
pub record Decision : Type 0 where
  pub permission : Permission
  pub scope : Text
  pub granted_by : Text
  pub denied : Bool
  pub status : ℕ

-- The body of a refusal, by the message that it is.
pub data Body : Type 0 where
  unclassified_route unauthorized internal_error no_permissions owner_no_permissions : Body
  missing_perm : Permission → Body
  missing_perm_on_job : Permission → Text → Body
  job_not_found run_spec_not_found archive_unavailable no_pending_approval artifact_not_found : Body
  run_not_found : Text → Body
  no_content : Body

pub record Answer : Type 0 where
  pub status : ℕ
  pub body : Body

-- The handler runs, or the request is answered here; each with what was recorded, if anything.
pub data Outcome : Type 0 where
  pass : Option Decision → Outcome
  answer : Answer → Option Decision → Outcome

-- What the check reads of a request: the method, the pattern of its route, the catch-all of the
-- path, the `jobName` of the query, the parameters of the path, and who is authenticated.
pub record Request : Type 0 where
  pub method : Text
  pub pattern : Text
  pub wildcard : Text
  pub job_query : Text
  pub url_param : Text → Text
  pub is_agent : Bool
  pub principal : Option Principal

-- The two lookups of the store that the check makes.
pub data RunLookup : Type 0 where
  run_of : Text → RunLookup
  no_run run_failed : RunLookup

pub data ScheduleLookup : Type 0 where
  schedule_of : Text → ScheduleLookup
  no_schedule schedule_failed : ScheduleLookup

pub record Store : Type 0 where
  pub run_job_name : Text → RunLookup
  pub get_schedule : Text → ScheduleLookup

abbrev pub scope_global_name : Text
scope_global_name = []

abbrev pub refused : Permission → Text → ℕ → Option Decision
refused perm scope status =
    some
      (record { permission = perm; scope = scope; granted_by = []; denied = true; status = status })

abbrev pub granted : Permission → Text → Text → Option Decision
granted perm scope by =
    some (record { permission = perm; scope = scope; granted_by = by; denied = false; status = 0 })

-- `deny` records a refusal and answers it.
unfoldable pub deny : Permission → Text → ℕ → Body → Outcome
deny perm scope status body =
    answer (record { status = status; body = body }) (refused perm scope status)

-- A hidden answer, recorded with the status that the caller saw.
unfoldable pub hide_with : Permission → Text → Answer → Outcome
hide_with perm scope hidden = answer hidden (refused perm scope hidden.status)

abbrev pub not_found : Body → Answer
not_found body = record { status = 404; body = body }

-- What the handler of a run route writes for a run that does not exist.
unfoldable pub missing_run_answer : Text → Text → Answer
missing_run_answer pattern run_id =
    if text_eq pattern (str "/api/v1/runs/{id}/yaml")
    then not_found run_spec_not_found
    else if text_eq pattern (str "/api/v1/runs/{id}/logs/archive")
    then not_found archive_unavailable
    else if text_eq pattern (str "/api/v1/runs/{runID}/approvals/{stepIndex}")
    then not_found no_pending_approval
    else if text_eq pattern (str "/api/v1/runs/{runID}/artifacts/{name}")
    then not_found artifact_not_found
    else not_found (run_not_found run_id)

abbrev pub hidden_or_told : Permission → Text → Option Answer → Outcome
hidden_or_told perm job none = deny perm job 403 (missing_perm_on_job perm job)
hidden_or_told perm job (some hidden) = hide_with perm job hidden

-- `requireJob` for a request with a principal; `hide` is `none` for a nil function.
unfoldable pub require_job_of : Grants → Permission → Text → Option Answer → Outcome
require_job_of g perm job hide =
    if not (decide g job_read job).0
    then hidden_or_told perm job hide
    else if not (decide g perm job).0
    then deny perm job 403 (missing_perm_on_job perm job)
    else pass (granted perm job (decide g perm job).1)

abbrev pub can_read_of : Option Principal → Text → Bool
can_read_of none job = false
can_read_of (some p) job = can p.grants job_read job

-- `requireJob`
unfoldable pub require_job : Option Principal → Permission → Text → Option Answer → Outcome
require_job none perm job hide = answer (record { status = 401; body = unauthorized }) none
require_job (some p) perm job hide = require_job_of p.grants perm job hide

-- Agents read every job.
unfoldable pub can_read_job : Request → Text → Bool
can_read_job r job = r.is_agent || can_read_of r.principal job

-- Whether both permissions are held everywhere, so that the job cannot change the answer.
unfoldable pub is_held_everywhere : Grants → Permission → Bool
is_held_everywhere g perm = can g perm [] && can g job_read []

-- Best effort: the job of the run in the audit record.
abbrev pub run_scope : RunLookup → Text
run_scope (run_of job) = job
run_scope _ = scope_global_name

abbrev pub authorize_found : Grants → RouteRule → Text → RunLookup → Outcome
authorize_found g rule run_id run_failed =
    answer (record { status = 500; body = internal_error }) none
authorize_found g rule run_id no_run =
    hide_with rule.perm scope_global_name (missing_run_answer rule.pattern run_id)
authorize_found g rule run_id (run_of job) =
    require_job_of g rule.perm job (some (missing_run_answer rule.pattern run_id))

unfoldable pub authorize_run : Store → Request → Grants → RouteRule → Outcome
authorize_run st r g rule =
    let run_id = r.url_param rule.run_param in
    let found = st.run_job_name run_id in
    let scope = if text_eq r.method m_get then scope_global_name else run_scope found in
    if is_held_everywhere g rule.perm
    then pass (granted rule.perm scope (decide g rule.perm []).1)
    else authorize_found g rule run_id found

abbrev pub authorize_target : Grants → RouteRule → ScheduleLookup → Outcome
authorize_target g rule no_schedule = pass none
authorize_target g rule schedule_failed =
    answer (record { status = 500; body = internal_error }) none
authorize_target g rule (schedule_of job) =
    require_job_of g rule.perm job (some (record { status = 204; body = no_content }))

unfoldable pub authorize_schedule : Store → Request → Grants → RouteRule → Outcome
authorize_schedule st r g rule =
    if is_held_everywhere g rule.perm
    then pass (granted rule.perm scope_global_name (decide g rule.perm []).1)
    else authorize_target g rule (st.get_schedule (r.url_param (str "name")))

-- `jobVariant`: the representation of a job that a GET asks for.
pub data JobVariant : Type 0 where
  job_variant_job job_variant_yaml job_variant_schedulability : JobVariant

-- The job that the catch-all of a /jobs/* route addresses.
unfoldable pub parse_job_wildcard : Request → Text × JobVariant
parse_job_wildcard r =
    let wild = trim_byte slash r.wildcard in
    if not (text_eq r.method m_get)
    then (wild, job_variant_job)
    else if has_suffix wild (str "/schedulability")
    then (trim_suffix wild (str "/schedulability"), job_variant_schedulability)
    else if has_suffix wild (str "/yaml")
    then (trim_suffix wild (str "/yaml"), job_variant_yaml)
    else (wild, job_variant_job)

-- `AltPerm` stands in for the permission of a global route where the row names one.
unfoldable pub global_answer : RouteRule → Bool × Text → Bool × Text → Outcome
global_answer rule first alt =
    if first.0
    then pass (granted rule.perm scope_global_name first.1)
    else if not (is_empty rule.alt_perm) && alt.0
    then pass (granted rule.perm scope_global_name alt.1)
    else deny rule.perm scope_global_name 403 (missing_perm rule.perm)

-- The last switch of `authorize`: the scopes of the default branch are decided in the handlers.
abbrev pub authorize_scope : Store → Request → Grants → RouteRule → RouteScope → Outcome
authorize_scope st r g rule scope_global =
    global_answer rule (decide g rule.perm []) (decide g rule.alt_perm [])
authorize_scope st r g rule scope_job_path =
    require_job_of g rule.perm (parse_job_wildcard r).0 (some (not_found job_not_found))
authorize_scope st r g rule scope_job_query =
    if is_empty r.job_query
    then pass none
    else require_job_of g rule.perm r.job_query (some (not_found job_not_found))
authorize_scope st r g rule scope_job_run_id = authorize_run st r g rule
authorize_scope st r g rule scope_schedule_path = authorize_schedule st r g rule
authorize_scope st r g rule _ = pass none

-- The pre-check, before any body or database read.
unfoldable pub holds_any : Grants → RouteRule → Bool
holds_any g rule =
    held_anywhere g rule.perm || (not (is_empty rule.alt_perm) && held_anywhere g rule.alt_perm)

unfoldable pub authorize_principal : Store → Request → Principal → RouteRule → Outcome
authorize_principal st r p rule =
    let g = p.grants in
    if is_empty_grants g
    then deny rule.perm scope_global_name 403
        (if is_empty p.owner_pat_id then no_permissions else owner_no_permissions)
    else if not (holds_any g rule)
    then deny rule.perm scope_global_name 403 (missing_perm rule.perm)
    else authorize_scope st r g rule rule.scope

abbrev pub authorize_human : Store → Request → Option Principal → RouteRule → Outcome
authorize_human st r none rule = answer (record { status = 401; body = unauthorized }) none
authorize_human st r (some p) rule = authorize_principal st r p rule

abbrev pub authorize_agent : RouteRule → Outcome
authorize_agent rule =
    if rule.agent_bypass
    then pass none
    else answer (record { status = 403; body = missing_perm rule.perm }) none

abbrev pub authorize_rule : Store → Request → Option RouteRule → Outcome
authorize_rule st r none = answer (record { status = 403; body = unclassified_route }) none
authorize_rule st r (some rule) =
    if is_open rule.scope
    then pass none
    else if r.is_agent
    then authorize_agent rule
    else authorize_human st r r.principal rule

-- The check of every human route; `r.pattern` is empty without a route context.
unfoldable pub authorize : Store → Request → Outcome
authorize st r = authorize_rule st r (lookup_route r.method r.pattern)
