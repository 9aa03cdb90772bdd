-- ===== src/Tests/Schedules.antt =====
-- A nightly schedule that is checked again and again.
use unified_cd.Prelude.{
  ◌≡◌, refl, ap, ℕ, suc, ◌*◌, ◌/◌, true, List, [], ◌∷◌, Option, none, some, Text, str, ltb, arith,
}
use unified_cd.Prelude.Window.{ordered}
use unified_cd.Store.Tables.{pending, RunRow, Tables}
use unified_cd.Controller.Schedules.{
  Schedule, StoredSpec, Calls, Check, degenerate_selector_element, check_schedule,
  check_and_fire_schedules,
}
use unified_cd.Controller.Schedules.Once.{IsLater, fired_times, fired_times-increase}

-- At the full hours.
abbrev pub hourly : Text → ℕ → Option ℕ
hourly expr base = some (3600000000000 * suc (base / 3600000000000))

abbrev pub hour : ℕ → ℕ
hour n = 3600000000000 * n

abbrev simple : StoredSpec
simple = record {
  decodes = true;
  inputs = [];
  agent_selector = str "pool:x" ∷ [];
  display_name = [];
}

abbrev calls_with : List Text → Calls
calls_with selector = record {
  get_job = λ job. some simple;
  compile = λ p. none;
  expand_agent_selector = λ sel params. some selector;
  expand_run_display_name = λ name params. some name;
  prepare_run_spec = λ job params. true;
  creates = λ sc params. true;
  new_id = λ sc. str "new";
  run_spec = λ sc. none;
}

abbrev pub check_at : ℕ → Check
check_at now = record {
  now = now;
  calls = calls_with (str "pool:x" ∷ []);
  listed = true;
  updated = true;
}

abbrev pub nightly : Schedule
nightly = record {
  name = str "nightly";
  cron = str "0 * * * *";
  job_name = str "build";
  params = [];
  last_fired_at = some (hour 5);
}

abbrev at_six : Schedule
at_six = record nightly { last_fired_at = some (hour 6) }

abbrev no_runs : Tables
no_runs = record {
  runs = λ r. none;
  locks = record { mutex_holders = λ m. none; slots = λ p. [] };
  system_log = [];
}

-- A run without a readable spec.
abbrev fresh : RunRow
fresh = record {
  spec = none;
  params = [];
  status = pending;
  claimed_by = none;
  required_volumes = [];
}

fires_at_six :
    let after = check_and_fire_schedules hourly (check_at (hour 6)) (nightly ∷ []) no_runs in
    (after.0 ≡ at_six ∷ []) × (after.1.runs (str "new") ≡ some fresh)
unfolding check_and_fire_schedules unified_cd.Controller.Params.fill_all
    unified_cd.Controller.Params.check_patterns unified_cd.Controller.Params.check_choices
    unified_cd.Prelude.text_eq
fires_at_six = (refl, refl)

waits_for_six : check_schedule hourly (check_at (hour 5)) nightly ≡ (nightly, none)
unfolding check_schedule
waits_for_six = refl

-- After a night without a controller the time is passed over.
misses_six : check_schedule hourly (check_at (hour 8)) nightly ≡ (at_six, none)
unfolding check_schedule
misses_six = refl

empty_value_is_degenerate : degenerate_selector_element (str "os:linux" ∷ str "pool:" ∷ []) ≡ true
unfolding degenerate_selector_element
empty_value_is_degenerate = refl

skips_degenerate :
    check_schedule hourly
      (record (check_at (hour 6)) { calls = calls_with (str "pool:" ∷ []) })
      nightly
    ≡ (nightly, none)
unfolding check_schedule unified_cd.Controller.Params.fill_all
    unified_cd.Controller.Params.check_patterns unified_cd.Controller.Params.check_choices
skips_degenerate = refl

hourly-IsLater : IsLater hourly
unfolding IsLater
hourly-IsLater expr base next e = omega (arith, ap or_zero e)
  where
    or_zero : Option ℕ → ℕ
    or_zero none = 0
    or_zero (some t) = t

abbrev morning : List Check
morning = check_at (hour 6) ∷ check_at (hour 6) ∷ check_at (hour 7) ∷ []

fires_twice : fired_times hourly morning nightly ≡ hour 6 ∷ hour 7 ∷ []
unfolding fired_times unified_cd.Controller.Params.fill_all
    unified_cd.Controller.Params.check_patterns unified_cd.Controller.Params.check_choices
fires_twice = refl

fired_times-increase_example : ordered ltb (fired_times hourly morning nightly) ≡ true
fired_times-increase_example =
    fired_times-increase hourly morning nightly hourly-IsLater (refl, (refl, (refl, tt)))
