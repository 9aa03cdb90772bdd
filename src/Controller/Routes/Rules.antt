-- ===== src/Controller/Routes/Rules.antt =====
-- internal/controller/authz_routes.go: how a route is classified.
use unified_cd.Prelude.{Bool, false, String, Text, str}
use unified_cd.Authz.Catalogue.{Permission}

pub data RouteScope : Type 0 where
  scope_global scope_job_path scope_job_run_id scope_job_query scope_job_body : RouteScope
  scope_schedule_body scope_schedule_path scope_filtered scope_public scope_self : RouteScope
  scope_agent : RouteScope

pub record RouteRule : Type 0 where
  pub method : Text
  pub pattern : Text
  pub perm : Permission
  pub alt_perm : Permission
  pub scope : RouteScope
  pub run_param : Text
  pub agent_bypass : Bool
  pub filters_rows : Bool

abbrev pub m_get : Text
m_get = str "GET"

abbrev pub m_post : Text
m_post = str "POST"

abbrev pub m_put : Text
m_put = str "PUT"

abbrev pub m_delete : Text
m_delete = str "DELETE"

abbrev pub m_any : Text
m_any = str "*"

-- A row with the zero values of the fields that it does not name.
abbrev pub rule : Text → String → Permission → RouteScope → RouteRule
rule method pattern perm scope = record {
  method = method;
  pattern = str pattern;
  perm = perm;
  alt_perm = str "";
  scope = scope;
  run_param = str "";
  agent_bypass = false;
  filters_rows = false;
}

abbrev pub global : Text → String → Permission → RouteRule
global method pattern perm = rule method pattern perm scope_global

abbrev pub of_run : Text → String → Permission → String → RouteRule
of_run method pattern perm run_param = record (rule method pattern perm scope_job_run_id) {
  run_param = str run_param;
}

abbrev pub unauthenticated : Text → String → RouteRule
unauthenticated method pattern = rule method pattern (str "") scope_public

abbrev pub agent_only : Text → String → RouteRule
agent_only method pattern = rule method pattern (str "") scope_agent
