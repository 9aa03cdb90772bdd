-- ===== src/Tests/Grants.antt =====
-- Grants of one person: viewer everywhere, developer below one folder.
use unified_cd.Prelude.{
  ◌≡◌, refl, Bool, true, false, not, ◌&&◌, ◌||◌, List, [], ◌∷◌, ◌++◌, is_empty, Text, str, contains,
}
use unified_cd.Authz.Catalogue.{run_trigger}
use unified_cd.Authz.Set.{has, viewer_set, developer_set, union, with_one}
use unified_cd.Authz.Folder.{covers, ancestors}
use unified_cd.Authz.Grants.{Grants, no_grants, add, can, decide, held_anywhere, join, restrict}
use unified_cd.Authz.Grants.Invariant.{IsBuilt, no_grants-IsBuilt, add-IsBuilt}
use unified_cd.Authz.Grants.Decision.{can-decide}

abbrev pub team : Text
team = str "team"

abbrev pub job : Text
job = str "team/app/build"

abbrev pub mixed : Grants
mixed = add (add no_grants [] viewer_set (str "viewer")) team developer_set (str "folder:team")

pub mixed-IsBuilt : IsBuilt mixed
mixed-IsBuilt =
    add-IsBuilt (add no_grants [] viewer_set (str "viewer")) team developer_set (str "folder:team")
      (add-IsBuilt no_grants [] viewer_set (str "viewer") no_grants-IsBuilt)

can_trigger_in_team : can mixed run_trigger job ≡ true
unfolding can has add no_grants ancestors unified_cd.Authz.Set.is_empty_set
    unified_cd.Authz.Set.with_all union unified_cd.Prelude.any unified_cd.Authz.Grants.folder_set
    unified_cd.Prelude.lookup unified_cd.Prelude.insert
can_trigger_in_team = refl

cannot_trigger_elsewhere : can mixed run_trigger (str "other/build") ≡ false
unfolding can has add no_grants ancestors unified_cd.Authz.Set.is_empty_set
    unified_cd.Authz.Set.with_all union unified_cd.Prelude.any unified_cd.Authz.Grants.folder_set
    unified_cd.Prelude.lookup unified_cd.Prelude.insert
cannot_trigger_elsewhere = refl

team_decides : decide mixed run_trigger job ≡ (true, str "folder:team")
unfolding decide add no_grants unified_cd.Authz.Grants.ordered unified_cd.Authz.Grants.sift
    unified_cd.Authz.Set.is_empty_set unified_cd.Authz.Set.with_all has covers
    unified_cd.Prelude.Sort.sort_by
team_decides = refl

can-decide_example : can mixed run_trigger job ≡ (decide mixed run_trigger job).0
can-decide_example = can-decide mixed-IsBuilt run_trigger job
