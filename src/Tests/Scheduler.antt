-- ===== src/Tests/Scheduler.antt =====
-- The scheduler's scan over two runs that wait for each other's locks.
use unified_cd.Prelude.{
  ◌≡◌, refl, ℕ, true, false, [], ◌∷◌, Option, none, some, str, text_eq, if◌then◌else◌, arith,
}
use unified_cd.Prelude.Window.{ordered}
use unified_cd.Store.Tables.{pending, queued, RunRow, RunSpec, RunStatus, Tables}
use unified_cd.Store.Expand.{Templates}
use unified_cd.Store.Pending.{PendingCursor, before, is_pending, candidates}
use unified_cd.Controller.Scheduler.{lock_held, lock_acquired, Scheduler, Tick, scheduler_tick}
use unified_cd.Controller.Scheduler.Sweep.{IsQuiet, ticks_examine, ticks_examine_every}
use unified_cd.Controller.Scheduler.Leaders.{started, onward, ticked, one_leader}
use unified_cd.Tests.Schedules.{hourly, check_at, hour, nightly}

abbrev plain : Templates
plain = record { expand = λ s params. some s; decode_list = λ s. none }

abbrev simple_spec : RunSpec
simple_spec = record { uses = none ∷ []; concurrency = none; volumes = [] }

abbrev waiting : RunRow
waiting = record {
  spec = some simple_spec;
  params = [];
  status = pending;
  claimed_by = none;
  required_volumes = [];
}

abbrev two_waiting : Tables
two_waiting = record {
  runs = λ r.
      if text_eq r (str "a")
      then some waiting
      else if text_eq r (str "b")
      then some waiting
      else none;
  locks = record { mutex_holders = λ m. none; slots = λ p. [] };
  system_log = [];
}

abbrev key_a : PendingCursor
key_a = record { created_at = 10; id = str "a" }

abbrev key_b : PendingCursor
key_b = record { created_at = 10; id = str "b" }

abbrev tick_at : ℕ → Tick
tick_at now = record {
  check = check_at now;
  lock = lock_held;
  scan_fails = none;
  tables = two_waiting;
  listing = key_a ∷ key_b ∷ [];
  schedules = [];
}

abbrev status_of : Option RunRow → Option RunStatus
status_of none = none
status_of (some row) = some row.status

-- The last scan stopped at the second run.
abbrev leader : Scheduler
leader = record { leads = true; cursor = some key_b; last_schedule_check = none }

-- A window of one goes on with the second run.
second_is_next : candidates (key_a ∷ key_b ∷ []) 1 (some key_a) two_waiting ≡ key_b ∷ []
unfolding candidates text_eq
second_is_next = refl

nothing_behind : candidates (key_a ∷ key_b ∷ []) 1 (some key_b) two_waiting ≡ []
unfolding candidates text_eq
nothing_behind = refl

both_are_queued :
    let t = (scheduler_tick plain hourly (tick_at 20) (record leader { cursor = none })).1.1 in
    t.runs (str "b") ≡ some (record waiting { status = queued })
unfolding scheduler_tick unified_cd.Store.Expand.traverse
both_are_queued = refl

error_gives_up :
    (scheduler_tick plain hourly (record (tick_at 20) { scan_fails = some 0 }) leader).0
    ≡ record { leads = false; cursor = none; last_schedule_check = none }
unfolding scheduler_tick
error_gives_up = refl

follower_waits :
    scheduler_tick plain hourly (tick_at 20) (record leader { leads = false })
    ≡ (record leader { leads = false }, ([], two_waiting))
unfolding scheduler_tick
follower_waits = refl

in_order : ordered before (key_a ∷ key_b ∷ []) ≡ true
unfolding ordered before
in_order = refl

a_waits : is_pending two_waiting key_a ≡ true
unfolding is_pending text_eq
a_waits = refl

quiet : (now : ℕ) → IsQuiet plain hourly (key_a ∷ key_b ∷ []) key_a (tick_at now)
quiet now = record { scans = refl; listed = refl; waiting = a_waits }

ticks_examine_every_example :
    ticks_examine plain hourly key_a (tick_at 20 ∷ tick_at 21 ∷ []) leader ≡ true
ticks_examine_every_example =
    ticks_examine_every plain hourly [] (key_b ∷ []) key_a (tick_at 20 ∷ tick_at 21 ∷ []) leader
      in_order refl (quiet 20, (quiet 21, tt)) (omega arith)

-- The run of a schedule that is due waits in the table.
schedule_fires :
    let due = record (tick_at (hour 6)) { schedules = nightly ∷ [] } in
    let t = (scheduler_tick plain hourly due leader).1.1 in
    status_of (t.runs (str "new")) ≡ some pending
unfolding scheduler_tick unified_cd.Store.Expand.traverse unified_cd.Controller.Params.fill_all
    unified_cd.Controller.Params.check_patterns unified_cd.Controller.Params.check_choices
schedule_fires = refl

abbrev takes : Tick
takes = record (tick_at 20) { lock = lock_acquired }

abbrev fails : Tick
fails = record (tick_at 20) { scan_fails = some 0 }

-- One replica takes the lock and meets a database error, another takes it, and the first ticks on.
one_leader_example :
    let lost = (scheduler_tick plain hourly fails leader).0 in
    (lost.leads ≡ false) × (lost.cursor ≡ none)
unfolding scheduler_tick text_eq
one_leader_example =
    one_leader plain hourly
      (onward
        (onward
          (onward (onward started (ticked (str "green") takes (λ l e. refl)))
            (ticked (str "green") fails (λ l e. let no_way : true ≡ false = l in cc)))
          (ticked (str "blue") takes (λ l e. refl)))
        (ticked (str "green") (tick_at 20) (λ l e. let no_way : false ≡ true = e in cc)))
      (str "blue") (str "green") refl refl
