-- ===== src/Controller/Routes/Table.antt =====
-- The rows of `routeTable` in internal/controller/authz_routes.go, in order.
use unified_cd.Prelude.{true, List, [], ◌∷◌, str}
use unified_cd.Controller.Routes.Rules.{
  RouteRule, scope_job_path, scope_job_run_id, scope_job_query, scope_job_body, scope_schedule_body,
  scope_schedule_path, scope_filtered, scope_self, scope_global, m_get, m_post, m_put, m_delete,
  m_any, rule, global, of_run, unauthenticated, agent_only,
}

unfoldable pub route_table : List RouteRule
route_table =
    global m_get "/api/v1/audit" (str "audit.read")
    ∷ global m_get "/api/v1/authz/policy" (str "authz.read")
    ∷ global m_post "/api/v1/authz/explain" (str "authz.read")
    ∷ rule m_post "/api/v1/jobs" (str "job.configure") scope_job_body
    ∷ rule m_get "/api/v1/jobs" (str "job.read") scope_filtered
    ∷ rule m_get "/api/v1/jobs/*" (str "job.read") scope_job_path
    ∷ rule m_delete "/api/v1/jobs/*" (str "job.delete") scope_job_path
    ∷ rule m_post "/api/v1/runs" (str "run.trigger") scope_job_body
    ∷ of_run m_post "/api/v1/runs/{id}/replay" (str "run.replay") "id"
    ∷ rule m_get "/api/v1/runs" (str "job.read") scope_job_query
    ∷ rule m_get "/api/v1/runs/active" (str "job.read") scope_filtered
    ∷ record (rule m_get "/api/v1/runs/{id}" (str "job.read") scope_job_run_id) {
      run_param = str "id";
      agent_bypass = true;
    }
    ∷ record (rule m_get "/api/v1/runs/{id}/outputs" (str "job.read") scope_job_run_id) {
      run_param = str "id";
      agent_bypass = true;
    }
    ∷ of_run m_get "/api/v1/runs/{id}/yaml" (str "job.read") "id"
    ∷ of_run m_post "/api/v1/runs/{id}/cancel" (str "run.cancel") "id"
    ∷ of_run m_delete "/api/v1/runs/{id}" (str "run.delete") "id"
    ∷ of_run m_get "/api/v1/runs/{id}/events" (str "job.read") "id"
    ∷ of_run m_get "/api/v1/runs/{id}/logs" (str "job.read") "id"
    ∷ of_run m_get "/api/v1/runs/{id}/steps" (str "job.read") "id"
    ∷ of_run m_get "/api/v1/runs/{id}/logs/archive" (str "job.read") "id"
    ∷ of_run m_get "/api/v1/runs/{id}/logs/stats" (str "job.read") "id"
    ∷ of_run m_get "/api/v1/runs/{id}/logs/range" (str "job.read") "id"
    ∷ of_run m_get "/api/v1/runs/{id}/logs/search" (str "job.read") "id"
    ∷ of_run m_get "/api/v1/runs/{runID}/approvals" (str "job.read") "runID"
    ∷ of_run m_post "/api/v1/runs/{runID}/approvals/{stepIndex}" (str "run.approve") "runID"
    ∷ record (rule m_get "/api/v1/runs/{runID}/artifacts" (str "job.read") scope_job_run_id) {
      run_param = str "runID";
      agent_bypass = true;
    }
    ∷ record (rule m_get "/api/v1/runs/{runID}/artifacts/{name}" (str "job.read")
        scope_job_run_id) { run_param = str "runID"; agent_bypass = true }
    ∷ global m_post "/api/v1/secrets" (str "secret.write")
    ∷ global m_get "/api/v1/secrets" (str "secret.list")
    ∷ global m_delete "/api/v1/secrets/{name}" (str "secret.write")
    ∷ global m_post "/api/v1/gitcredentials" (str "gitcredential.write")
    ∷ global m_get "/api/v1/gitcredentials" (str "gitcredential.read")
    ∷ global m_delete "/api/v1/gitcredentials/{name}" (str "gitcredential.write")
    ∷ global m_post "/api/v1/tokens" (str "token.create")
    ∷ record (rule m_get "/api/v1/tokens" (str "token.create") scope_global) {
      alt_perm = str "token.manage";
    }
    ∷ record (rule m_delete "/api/v1/tokens/{id}" (str "token.create") scope_global) {
      alt_perm = str "token.manage";
    }
    ∷ record (rule m_post "/api/v1/agent-enrollments" (str "agent.manage") scope_global) {
      alt_perm = str "agent.enroll";
    }
    ∷ global m_get "/api/v1/agent-enrollments" (str "agent.read")
    ∷ global m_delete "/api/v1/agent-enrollments/{id}" (str "agent.manage")
    ∷ global m_post "/api/v1/agent-enrollment-policies" (str "agent.manage")
    ∷ global m_get "/api/v1/agent-enrollment-policies" (str "agent.read")
    ∷ global m_get "/api/v1/agent-enrollment-policies/{name}" (str "agent.read")
    ∷ global m_put "/api/v1/agent-enrollment-policies/{name}" (str "agent.manage")
    ∷ global m_delete "/api/v1/agent-enrollment-policies/{name}" (str "agent.manage")
    ∷ global m_get "/api/v1/agent-identities/{agentId}" (str "agent.read")
    ∷ global m_post "/api/v1/agent-identities/{agentId}/enable" (str "agent.manage")
    ∷ global m_post "/api/v1/agent-identities/{agentId}/disable" (str "agent.manage")
    ∷ global m_post "/api/v1/agent-identities/{agentId}/credentials/revoke" (str "agent.manage")
    ∷ global m_get "/api/v1/agents" (str "agent.read")
    ∷ record (rule m_get "/api/v1/agents/{agentId}" (str "agent.read") scope_global) {
      agent_bypass = true;
    }
    ∷ record (rule m_get "/api/v1/agents/{agentId}/runs" (str "agent.read") scope_global) {
      agent_bypass = true;
      filters_rows = true;
    }
    ∷ global m_post "/api/v1/webhooks" (str "webhook.write")
    ∷ global m_get "/api/v1/webhooks" (str "webhook.read")
    ∷ global m_delete "/api/v1/webhooks/{name}" (str "webhook.write")
    ∷ global m_post "/api/v1/vars" (str "vars.write")
    ∷ global m_get "/api/v1/vars" (str "vars.read")
    ∷ global m_delete "/api/v1/vars/{name}" (str "vars.write")
    ∷ rule m_post "/api/v1/schedules" (str "schedule.configure") scope_schedule_body
    ∷ rule m_get "/api/v1/schedules" (str "job.read") scope_filtered
    ∷ rule m_delete "/api/v1/schedules/{name}" (str "schedule.configure") scope_schedule_path
    ∷ global m_post "/api/v1/appsources" (str "appsource.write")
    ∷ global m_get "/api/v1/appsources" (str "appsource.read")
    ∷ global m_get "/api/v1/appsources/{name}" (str "appsource.read")
    ∷ global m_delete "/api/v1/appsources/{name}" (str "appsource.write")
    ∷ global m_post "/api/v1/appsources/{name}/sync" (str "appsource.write")
    ∷ unauthenticated m_get "/healthz"
    ∷ unauthenticated m_get "/readyz"
    ∷ unauthenticated m_get "/metrics"
    ∷ unauthenticated m_get "/api/v1/auth/oidc-config"
    ∷ unauthenticated m_get "/api/v1/ui-config"
    ∷ unauthenticated m_get "/api/v1/auth/oidc-login"
    ∷ unauthenticated m_get "/api/v1/auth/oidc-callback"
    ∷ unauthenticated m_post "/api/v1/auth/logout"
    ∷ rule m_get "/api/v1/auth/me" (str "") scope_self
    ∷ unauthenticated m_any "/dex"
    ∷ unauthenticated m_any "/dex/*"
    ∷ unauthenticated m_any "/device/callback"
    ∷ unauthenticated m_post "/webhook/{name}"
    ∷ unauthenticated m_post "/api/v1/agents/enroll"
    ∷ unauthenticated m_post "/api/v1/agents/token/refresh"
    ∷ unauthenticated m_post "/api/v1/store-credentials"
    ∷ unauthenticated m_any "/ui"
    ∷ unauthenticated m_any "/ui/*"
    ∷ unauthenticated m_get "/"
    ∷ agent_only m_post "/api/v1/agents/register"
    ∷ agent_only m_post "/api/v1/agents/{agentId}/heartbeat"
    ∷ agent_only m_delete "/api/v1/agents/{agentId}"
    ∷ agent_only m_post "/api/v1/agents/{agentId}/claim"
    ∷ agent_only m_post "/api/v1/agents/{agentId}/steps"
    ∷ agent_only m_post "/api/v1/agents/{agentId}/logs"
    ∷ agent_only m_post "/api/v1/agents/{agentId}/runs/reconcile"
    ∷ agent_only m_post "/api/v1/agents/{agentId}/runs/{runId}/finish"
    ∷ agent_only m_post "/api/v1/agents/{agentId}/runs/{runId}/children"
    ∷ agent_only m_post "/api/v1/agents/{agentId}/runs/{runId}/steps/{stepIndex}/outputs"
    ∷ agent_only m_post "/api/v1/agents/{agentId}/runs/{runId}/outputs"
    ∷ agent_only m_post "/api/v1/agents/{agentId}/runs/{runId}/steps/{stepIndex}/logs/bulk"
    ∷ agent_only m_post "/api/v1/agents/{agentId}/runs/{runId}/sidecars"
    ∷ agent_only m_post "/api/v1/agents/{agentId}/secrets/fetch"
    ∷ agent_only m_post "/api/v1/agents/{agentId}/runs/{runId}/approvals"
    ∷ agent_only m_get "/api/v1/agents/{agentId}/runs/{runId}/approvals/{stepIndex}"
    ∷ agent_only m_put "/api/v1/runs/{runID}/artifacts/{name}"
    ∷ []
