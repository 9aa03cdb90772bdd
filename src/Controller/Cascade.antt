-- ===== src/Controller/Cascade.antt =====
-- cancelDescendantRuns of internal/controller/api_runs.go: the walk over the runs that a run called.
pub mod Mark
pub mod Descendants
pub mod Ends
pub mod Reached
use unified_cd.Prelude.{
  ◌≡◌, refl, ℕ, zero, suc, Bool, true, false, List, [], ◌∷◌, ◌++◌, Option, none, some,
  if◌then◌else◌, length, Text, text_eq, contains,
}
use unified_cd.Store.Tables.{cancelled, Tables}
use unified_cd.Store.Lifecycle.{finish_run}
use unified_cd.Store.Queue.{after_finish}

-- What the walk meets outside: the children that the store lists for a run, unless it fails, and
-- the runs on which a finish fails.
pub record Calls : Type 0 where
  pub list_child_run_ids : Text → Option (List Text)
  pub broken : Text → Bool

pub record Walk : Type 0 where
  pub visited : List Text
  pub queue : List Text
  pub tables : Tables

module _ (calls : Calls) where
  open calls use {list_child_run_ids, broken}

  -- MarkRunFinished, whose failure is only logged.
  unfoldable pub mark_cancelled : Text → Tables → Tables
  unfolding finish_run
  mark_cancelled child t = if broken child then t else after_finish t (finish_run child cancelled t)

  unfoldable pub visit_child : Text → Walk → Walk
  unfolding mark_cancelled contains
  visit_child child w = if contains w.visited child then w else record {
    visited = child ∷ w.visited;
    queue = w.queue ++ child ∷ [];
    tables = mark_cancelled child w.tables;
  }

  unfoldable pub visit_children : List Text → Walk → Walk
  unfolding visit_child
  visit_children [] w = w
  visit_children (child ∷ children) w = visit_children children (visit_child child w)

  abbrev pub visit_listed : Option (List Text) → Walk → Walk
  visit_listed none w = w
  visit_listed (some children) w = visit_children children w

  -- `for len(queue) > 0`; `none` means that the fuel ran out.
  unfoldable pub walk : ℕ → List Text → List Text → Tables → Option Walk
  unfolding visit_children
  walk zero visited queue t = none
  walk (suc fuel) visited [] t = some (record { visited = visited; queue = []; tables = t })
  walk (suc fuel) visited (parent ∷ queue) t =
      let w =
        visit_listed (list_child_run_ids parent)
          (record { visited = visited; queue = queue; tables = t }) in
      walk fuel w.visited w.queue w.tables

  unfoldable pub cancel_descendant_runs : ℕ → Text → Tables → Option Walk
  unfolding walk
  cancel_descendant_runs fuel root t = walk fuel (root ∷ []) (root ∷ []) t
