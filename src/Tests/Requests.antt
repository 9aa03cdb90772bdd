-- ===== src/Tests/Requests.antt =====
-- Requests of a person who is a viewer everywhere and a developer below one folder.
use unified_cd.Prelude.{
  ◌≡◌, refl, Bool, true, false, ◌&&◌, List, [], ◌∷◌, Option, none, some, Text, str,
}
use unified_cd.Authz.Catalogue.{job_read, run_delete, run_trigger, schedule_configure}
use unified_cd.Authz.Set.{viewer_set, developer_set}
use unified_cd.Authz.Grants.{Grants, no_grants, add, can}
use unified_cd.Authz.Grants.Invariant.{IsBuilt, no_grants-IsBuilt, add-IsBuilt}
use unified_cd.Controller.Principal.{Principal, bare_principal, session_kind}
use unified_cd.Controller.Routes.Rules.{
  RouteRule, rule, of_run, m_get, m_delete, scope_job_path, scope_schedule_path,
}
use unified_cd.Controller.Routes.Lookup.{lookup_route, is_guarded, lookup_route-guarded}
use unified_cd.Controller.Authorize.{
  Request, Store, run_of, no_run, schedule_of, no_schedule, not_found, job_not_found,
  parse_job_wildcard, job_variant_yaml, require_job_of, authorize_run, authorize_schedule,
  authorize,
}
use unified_cd.Controller.Authorize.Runs.{
  passes, answer_of, require_job_of-passes, authorize_run-hides, authorize_schedule-passes,
}
use unified_cd.Controller.Authorize.Requests.{
  authorize-agent_reads, authorize-job_path, authorize-run_job,
}

abbrev mixed : Grants
mixed =
    add (add no_grants [] viewer_set (str "viewer")) (str "team") developer_set (str "folder:team")

mixed-IsBuilt : IsBuilt mixed
mixed-IsBuilt =
    add-IsBuilt (add no_grants [] viewer_set (str "viewer")) (str "team") developer_set
      (str "folder:team") (add-IsBuilt no_grants [] viewer_set (str "viewer") no_grants-IsBuilt)

abbrev in_team : Grants
in_team = add no_grants (str "team") developer_set (str "folder:team")

in_team-IsBuilt : IsBuilt in_team
in_team-IsBuilt =
    add-IsBuilt no_grants (str "team") developer_set (str "folder:team") no_grants-IsBuilt

abbrev person : Principal
person = record (bare_principal (str "ada") session_kind) { grants = mixed }

abbrev job : Text
job = str "team/build"

abbrev other_job : Text
other_job = str "other/build"

abbrev store : Store
store = record { run_job_name = λ run. run_of other_job; get_schedule = λ name. schedule_of job }

abbrev empty_store : Store
empty_store = record { run_job_name = λ run. no_run; get_schedule = λ name. no_schedule }

abbrev get_job : Request
get_job = record {
  method = m_get;
  pattern = str "/api/v1/jobs/*";
  wildcard = str "/team/build/yaml";
  job_query = [];
  url_param = λ name. [];
  is_agent = false;
  principal = some person;
}

abbrev delete_run : Request
delete_run = record get_job {
  method = m_delete;
  pattern = str "/api/v1/runs/{id}";
  url_param = λ name. str "r-1";
}

abbrev agent_get : Request
agent_get = record get_job { is_agent = true; principal = none; pattern = str "/api/v1/runs/{id}" }

abbrev job_rule : RouteRule
job_rule = rule m_get "/api/v1/jobs/*" job_read scope_job_path

abbrev run_rule : RouteRule
run_rule = of_run m_delete "/api/v1/runs/{id}" run_delete "id"

abbrev read_run_rule : RouteRule
read_run_rule = record (of_run m_get "/api/v1/runs/{id}" job_read "id") { agent_bypass = true }

abbrev schedule_rule : RouteRule
schedule_rule = rule m_delete "/api/v1/schedules/{name}" schedule_configure scope_schedule_path

job_rule_found : lookup_route get_job.method get_job.pattern ≡ some job_rule
unfolding lookup_route unified_cd.Controller.Routes.Lookup.find_rule
    unified_cd.Controller.Routes.Table.route_table unified_cd.Prelude.text_eq
job_rule_found = refl

run_rule_found : lookup_route delete_run.method delete_run.pattern ≡ some run_rule
unfolding lookup_route unified_cd.Controller.Routes.Lookup.find_rule
    unified_cd.Controller.Routes.Table.route_table unified_cd.Prelude.text_eq
run_rule_found = refl

read_run_rule_found : lookup_route agent_get.method agent_get.pattern ≡ some read_run_rule
unfolding lookup_route unified_cd.Controller.Routes.Lookup.find_rule
    unified_cd.Controller.Routes.Table.route_table unified_cd.Prelude.text_eq
read_run_rule_found = refl

yaml_addresses_the_job : parse_job_wildcard get_job ≡ (job, job_variant_yaml)
unfolding parse_job_wildcard unified_cd.Prelude.text_eq unified_cd.Prelude.has_suffix
    unified_cd.Prelude.trim_byte unified_cd.Prelude.trim_suffix
yaml_addresses_the_job = refl

lookup_route-guarded_example : is_guarded job_rule ≡ true
lookup_route-guarded_example = lookup_route-guarded get_job.method get_job.pattern job_rule_found

authorize-job_path_example : passes (authorize store get_job) ≡ (
    can mixed job_read (parse_job_wildcard get_job).0
    && can mixed job_read (parse_job_wildcard get_job).0)
authorize-job_path_example =
    authorize-job_path store get_job mixed-IsBuilt refl refl job_rule_found refl

authorize-run_job_example :
    passes (authorize store delete_run)
    ≡ (can mixed job_read other_job && can mixed run_delete other_job)
authorize-run_job_example =
    authorize-run_job store delete_run mixed-IsBuilt refl refl run_rule_found other_job refl refl

agent_passes : passes (authorize store agent_get) ≡ true
unfolding authorize lookup_route unified_cd.Controller.Routes.Lookup.find_rule
    unified_cd.Controller.Routes.Table.route_table unified_cd.Prelude.text_eq
agent_passes = refl

authorize-agent_reads_example : agent_get.method ≡ m_get
authorize-agent_reads_example =
    authorize-agent_reads store agent_get refl read_run_rule_found refl agent_passes

other_unreadable : can in_team job_read other_job ≡ false
unfolding can unified_cd.Authz.Set.has add unified_cd.Authz.Set.is_empty_set
    unified_cd.Authz.Set.with_all no_grants unified_cd.Prelude.any unified_cd.Authz.Folder.ancestors
    unified_cd.Authz.Grants.folder_set unified_cd.Prelude.lookup unified_cd.Prelude.insert
other_unreadable = refl

authorize_run-hides_example :
    answer_of (authorize_run store delete_run in_team run_rule)
    ≡ answer_of (authorize_run empty_store delete_run in_team run_rule)
authorize_run-hides_example =
    authorize_run-hides in_team-IsBuilt store empty_store delete_run run_rule other_job refl refl
      other_unreadable

authorize_schedule-passes_example :
    passes (authorize_schedule store delete_run in_team schedule_rule)
    ≡ (can in_team job_read job && can in_team schedule_configure job)
authorize_schedule-passes_example =
    authorize_schedule-passes in_team-IsBuilt store delete_run schedule_rule job refl

require_job_of-passes_example :
    passes (require_job_of in_team run_trigger job (some (not_found job_not_found)))
    ≡ (can in_team job_read job && can in_team run_trigger job)
require_job_of-passes_example =
    require_job_of-passes in_team-IsBuilt run_trigger job (some (not_found job_not_found))
