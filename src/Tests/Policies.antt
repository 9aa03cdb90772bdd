-- ===== src/Tests/Policies.antt =====
-- A policy with one global group and one group on a folder, and a legacy role map.
use unified_cd.Prelude.{
  ◌≡◌, refl, ◌≤◌, ◌<◌, Bool, true, false, ◌&&◌, ◌||◌, List, [], ◌∷◌, Option, none, some, arith,
  is_empty, any, All, Text, str, text_eq, contains, lookup,
}
use unified_cd.Authz.Catalogue.{
  job_read, run_trigger, agent_read, agent_manage, agent_enroll, folder_scopable, is_known,
}
use unified_cd.Authz.Set.{has, union, with_one, viewer_set, bundle}
use unified_cd.Authz.Grants.{can, or_empty}
use unified_cd.Authz.Policy.{
  GrantEntry, PolicyEntry, FolderEntry, PolicyConfig, Legacy, PolicyGrant, PolicyScope, Policy, ok,
  compile_entry, compile,
}
use unified_cd.Authz.Policy.Matching.{Identity, match, group_matches, user_matches}
use unified_cd.Authz.Policy.Meaning.{scope_grants, can-match, match_matched}
use unified_cd.Authz.Policy.Scopes.{name_grants, compile_entry-has}
use unified_cd.Authz.Policy.Folders.{IsFolderScope, IsFresh, compile-shape, global_only_everywhere}
use unified_cd.Controller.Rbac.{
  Server, OidcConfig, RoleMapping, role_rank, rank_of, user_entry, policy_of, identity_grants,
  resolve_role_source,
}
use unified_cd.Controller.Rbac.Laws.{can-identity_grants}
use unified_cd.Controller.Principal.{Pat, Owner, owner_principal}
use unified_cd.Controller.Principal.{Session, pat_principal, session_principal}
use unified_cd.Controller.Principal.Built.{IsBuiltPrincipal, principal-IsBuilt}
use unified_cd.Controller.Principal.Ceiling.{can-owner_principal}

abbrev without_space : Text → Bool
without_space key = false

abbrev quoted : Text → Text
quoted s = s

abbrev staff_entry : GrantEntry
staff_entry = record { key = str "staff"; grants = str "viewer" ∷ [] }

abbrev dev_entry : GrantEntry
dev_entry = record { key = str "dev"; grants = run_trigger ∷ [] }

abbrev small_config : PolicyConfig
small_config = record {
  global = record { groups = staff_entry ∷ []; users = [] };
  folders =
      record { key = str "/team/"; entry = record { groups = dev_entry ∷ []; users = [] } } ∷ [];
}

abbrev no_legacy : Legacy
no_legacy = record { roles_claim = []; role_map = []; user_map = []; default_role = [] }

abbrev dev_grant : PolicyGrant
dev_grant = record { key = str "dev"; grant = run_trigger ∷ []; set = with_one 0 run_trigger }

abbrev small_policy : Policy
small_policy = record {
  scopes =
      record {
        folder = [];
        groups =
            record { key = str "staff"; grant = str "viewer" ∷ []; set = union 0 viewer_set } ∷ [];
        users = [];
      }
      ∷ record { folder = str "team"; groups = dev_grant ∷ []; users = [] }
      ∷ [];
}

small_config_compiles :
    compile without_space (some small_config) no_legacy (str "https://issuer")
    ≡ ok (small_policy, [])
unfolding compile unified_cd.Authz.Policy.compile_config unified_cd.Authz.Policy.legacy_role_lines
    unified_cd.Authz.Policy.report_lines unified_cd.Authz.Set.sort_strings
    unified_cd.Authz.Policy.keys unified_cd.Authz.Policy.compile_scope
    unified_cd.Authz.Policy.compile_grants compile_entry unified_cd.Authz.Policy.compile_names
    unified_cd.Authz.Policy.compile_name bundle unified_cd.Authz.Policy.compile_folders
    unified_cd.Authz.Policy.normal_key unified_cd.Authz.Folder.normalize_folder
    unified_cd.Authz.Policy.compile_folder lookup unified_cd.Authz.Catalogue.parse
    unified_cd.Authz.Catalogue.bit_of unified_cd.Authz.Catalogue.catalogue folder_scopable
    unified_cd.Authz.Catalogue.position unified_cd.Authz.Folder.is_bad_segment
    unified_cd.Authz.Folder.split unified_cd.Authz.Folder.split_from unified_cd.Authz.Folder.trim
    unified_cd.Authz.Folder.trim_left unified_cd.Authz.Set.all_set unified_cd.Authz.Set.folder_part
    union unified_cd.Authz.Set.with_all with_one any unified_cd.Prelude.insert
    unified_cd.Prelude.Sort.place unified_cd.Prelude.Sort.sort_by text_eq unified_cd.Prelude.text_lt
small_config_compiles = refl

abbrev dev : Identity
dev = record { values = str "dev" ∷ []; email = []; sub = str "7" }

abbrev job : Text
job = str "team/build"

agent_read_is_global : folder_scopable agent_read ≡ false
unfolding folder_scopable
agent_read_is_global = refl

compile-shape_example :
    (global : PolicyScope) × (folders : List PolicyScope) × (small_policy.scopes ≡ global ∷ folders)
    × (global.folder ≡ [])
    × All IsFolderScope folders
    × IsFresh [] folders
compile-shape_example =
    compile-shape without_space small_config no_legacy (str "https://issuer") small_config_compiles

global_only_everywhere_example :
    can (match quoted (some small_policy) dev).0 agent_read job
    ≡ can (match quoted (some small_policy) dev).0 agent_read []
global_only_everywhere_example =
    global_only_everywhere without_space quoted small_config no_legacy (str "https://issuer") dev
      agent_read job small_config_compiles agent_read_is_global

can-match_example :
    can (match quoted (some small_policy) dev).0 run_trigger job
    ≡ any (scope_grants dev run_trigger job) small_policy.scopes
can-match_example = can-match quoted (some small_policy) dev run_trigger job

match_matched_example :
    (match quoted (some small_policy) dev).1
    ≡ any
        (λ s. any (group_matches dev) s.groups || any (user_matches dev) s.users)
        small_policy.scopes
match_matched_example = match_matched quoted (some small_policy) dev

dev_entry_compiles : compile_entry (str "team") dev_entry ≡ ok dev_grant
unfolding compile_entry unified_cd.Authz.Policy.compile_names unified_cd.Authz.Policy.compile_name
    bundle unified_cd.Authz.Catalogue.parse folder_scopable
dev_entry_compiles = refl

compile_entry-has_example :
    (dev_grant.key ≡ dev_entry.key)
    × (has dev_grant.set run_trigger ≡ any (name_grants (str "team") run_trigger) dev_entry.grants)
compile_entry-has_example = compile_entry-has (str "team") dev_entry run_trigger dev_entry_compiles

abbrev mapping : RoleMapping
mapping = record {
  roles_claim = str "groups";
  role_map = (str "dev", str "developer") ∷ (str "staff", str "viewer") ∷ [];
  user_map = [];
  default_role = [];
}

abbrev server : Server
server = record {
  oidc = some (record { mapping = mapping; policy = some small_policy });
  token = [];
}

abbrev claims : List Text
claims = str "staff" ∷ str "dev" ∷ []

can-identity_grants_example :
    can (identity_grants quoted (some server) claims [] (str "7")).grants run_trigger job ≡ (
      has
        (or_empty (bundle (identity_grants quoted (some server) claims [] (str "7")).role))
        run_trigger
      || any
          (scope_grants (record { values = claims; email = []; sub = str "7" }) run_trigger job)
          small_policy.scopes)
can-identity_grants_example = can-identity_grants quoted server claims [] (str "7") run_trigger job

viewer_reads : has (or_empty (bundle (str "viewer"))) job_read ≡ true
unfolding bundle has
viewer_reads = refl

viewer_below_developer : role_rank (str "viewer") ≤ role_rank (str "developer")
unfolding role_rank text_eq
viewer_below_developer = omega arith

abbrev source_of_dev : Text
source_of_dev = str "roleMap[dev]"

developer_resolved :
    resolve_role_source quoted claims [] (str "7") mapping ≡ some (str "developer", source_of_dev)
unfolding resolve_role_source lookup unified_cd.Controller.Rbac.resolve_values
    unified_cd.Controller.Rbac.best_role role_rank
developer_resolved = refl

no_entry : user_entry (str "7") mapping.user_map ≡ none
unfolding lookup
no_entry = refl

staff_claimed : contains claims (str "staff") ≡ true
unfolding contains any text_eq
staff_claimed = refl

abbrev owner : Owner
owner = record { claims = some claims; email = []; sub = str "7" }

abbrev perms : List Text
perms = run_trigger ∷ []

abbrev pat : Pat
pat = record {
  id = str "1";
  name = str "ci";
  role = [];
  permissions = some perms;
  owner = some owner;
  enroll_labels = none;
}

can-owner_principal_example :
    can (owner_principal quoted quoted (some server) pat owner).grants run_trigger job ≡ (
      (can (identity_grants quoted (some server) claims [] (str "7")).grants run_trigger job
        || (contains perms agent_enroll
            && can
                (identity_grants quoted (some server) claims [] (str "7")).grants
                agent_manage
                [])
          && text_eq agent_enroll run_trigger)
      && (is_known run_trigger && contains perms run_trigger))
can-owner_principal_example =
    can-owner_principal quoted quoted (some server) pat owner perms run_trigger job refl

abbrev session : Session
session = record { email = []; sub = str "7"; role = []; claims = some claims }

principal-IsBuilt_example :
    IsBuiltPrincipal (pat_principal quoted quoted (some server) pat (str "secret"))
    × IsBuiltPrincipal (session_principal quoted quoted (some server) session)
principal-IsBuilt_example = principal-IsBuilt quoted quoted (some server) pat (str "secret") session
