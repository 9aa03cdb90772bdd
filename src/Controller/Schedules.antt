-- ===== src/Controller/Schedules.antt =====
-- checkAndFireSchedules of internal/controller/scheduler.go: the schedules that are due create runs.
pub mod Once
use unified_cd.Prelude.{
  ℕ, Bool, true, false, not, ◌||◌, ◌&&◌, ◌==◌, List, [], ◌∷◌, ◌++◌, Option, none, some, ltb, ◌-◌,
  if◌then◌else◌, any, is_empty, Text, str, text_eq, has_prefix, Table,
}
use unified_cd.Prelude.Window.{last}
use unified_cd.Store.Tables.{RunSpec, Tables}
use unified_cd.Store.Lifecycle.{create_run}
use unified_cd.Controller.Params.{Input, Resolution, failed, resolved, resolve_params}

-- A time stamp is in nanoseconds.
pub record Schedule : Type 0 where
  pub name : Text
  pub cron : Text
  pub job_name : Text
  pub params : Table Text
  pub last_fired_at : Option ℕ

-- What the fire reads of a job's spec: whether it decodes, and what was decoded of it.
pub record StoredSpec : Type 0 where
  pub decodes : Bool
  pub inputs : List Input
  pub agent_selector : List Text
  pub display_name : Text

-- The calls of a fire: the store's jobs, whether it creates the run, and the id and the stored spec of
-- the new row; the regular expressions, and the expansions by text/template of the selector, of the
-- display name and of the secrets' names.
pub record Calls : Type 0 where
  pub get_job : Text → Option StoredSpec
  pub compile : Text → Option (Text → Bool)
  pub expand_agent_selector : List Text → Table Text → Option (List Text)
  pub expand_run_display_name : Text → Table Text → Option Text
  pub prepare_run_spec : Text → Table Text → Bool
  pub creates : Schedule → Table Text → Bool
  pub new_id : Schedule → Text
  pub run_spec : Schedule → Option RunSpec

abbrev pub ends_with_colon : Option ℕ → Bool
ends_with_colon none = false
ends_with_colon (some c) = c == 58

unfoldable pub is_degenerate : Text → Bool
unfolding has_prefix last
is_degenerate s = is_empty s || (has_prefix s (str ":") || ends_with_colon (last s))

unfoldable pub degenerate_selector_element : List Text → Bool
unfolding any is_degenerate
degenerate_selector_element sel = any is_degenerate sel

module _ (calls : Calls) where
  abbrev pub selector_allows : Option (List Text) → Bool
  selector_allows none = false
  selector_allows (some sel) = not (degenerate_selector_element sel)

  abbrev pub name_expands : Option Text → Bool
  name_expands none = false
  name_expands (some name) = true

  -- Whether everything up to the creation of the run goes well.
  abbrev pub spec_allows : Schedule → Table Text → StoredSpec → Bool
  spec_allows sc params spec =
      if spec.decodes
      then selector_allows (calls.expand_agent_selector spec.agent_selector params)
        && (name_expands (calls.expand_run_display_name spec.display_name params)
            && calls.prepare_run_spec sc.job_name params)
      else true

  abbrev pub fires_resolved : Schedule → StoredSpec → Resolution → Bool
  fires_resolved sc spec (failed e) = false
  fires_resolved sc spec (resolved params) = spec_allows sc params spec && calls.creates sc params

  abbrev pub fires_job : Schedule → Option StoredSpec → Bool
  fires_job sc none = false
  fires_job sc (some spec) =
      fires_resolved sc spec (resolve_params calls.compile spec.inputs sc.params)

  -- Whether the fire creates a run.
  unfoldable pub fire : Schedule → Bool
  unfolding degenerate_selector_element resolve_params
  fire sc = fires_job sc (calls.get_job sc.job_name)

  abbrev pub resolved_or_none : Resolution → Table Text
  resolved_or_none (failed e) = []
  resolved_or_none (resolved params) = params

  abbrev pub params_of_job : Schedule → Option StoredSpec → Table Text
  params_of_job sc none = []
  params_of_job sc (some spec) =
      resolved_or_none (resolve_params calls.compile spec.inputs sc.params)

  -- The run that a fire created, pending in the table.
  unfoldable pub create_scheduled : Schedule → Option ℕ → Tables → Tables
  unfolding resolve_params create_run
  create_scheduled sc none t = t
  create_scheduled sc (some next) t =
      create_run (calls.new_id sc) (calls.run_spec sc)
        (params_of_job sc (calls.get_job sc.job_name)) t

-- One pass: its time, its calls, whether the schedules are listed, and whether an update of
-- last_fired_at succeeds.
pub record Check : Type 0 where
  pub now : ℕ
  pub calls : Calls
  pub listed : Bool
  pub updated : Bool

abbrev pub window_start : ℕ → ℕ
window_start now = now - 3600000000000

abbrev pub base_of : ℕ → Option ℕ → ℕ
base_of now none = window_start now
base_of now (some last) = last

abbrev pub update_last_fired_at : Bool → Schedule → ℕ → Schedule
update_last_fired_at updated sc next =
    if updated then record sc { last_fired_at = some next } else sc

-- The schedule, and the time for which a run was created.
abbrev pub after_fire : Check → Schedule → ℕ → Bool → Schedule × Option ℕ
after_fire c sc next false = (sc, none)
after_fire c sc next true = (update_last_fired_at c.updated sc next, some next)

abbrev pub check_next : Check → Schedule → Option ℕ → Schedule × Option ℕ
check_next c sc none = (sc, none)
check_next c sc (some next) =
    if ltb c.now next
    then (sc, none)
    else if not (ltb next (window_start c.now))
    then after_fire c sc next (fire c.calls sc)
    else (update_last_fired_at c.updated sc next, none)

-- `next_cron` is the parsed cron expression's next time after another, `none` for an invalid one.
module _ (next_cron : Text → ℕ → Option ℕ) where
  unfoldable pub check_schedule : Check → Schedule → Schedule × Option ℕ
  unfolding fire
  check_schedule c sc = check_next c sc (next_cron sc.cron (base_of c.now sc.last_fired_at))

  -- The loop over the schedules: they are updated, and runs are created.
  unfoldable pub check_each : Check → List Schedule → Tables → List Schedule × Tables
  unfolding check_schedule create_scheduled
  check_each c [] t = ([], t)
  check_each c (sc ∷ scs) t =
      let first = check_schedule c sc in
      let rest = check_each c scs (create_scheduled c.calls sc first.1 t) in
      (first.0 ∷ rest.0, rest.1)

  unfoldable pub check_and_fire_schedules : Check → List Schedule → Tables → List Schedule × Tables
  unfolding check_each
  check_and_fire_schedules c scs t = if c.listed then check_each c scs t else (scs, t)
