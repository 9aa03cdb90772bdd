-- ===== src/Controller/Scheduler.antt =====
-- internal/controller/scheduler.go: the ticks of RunScheduler. The replica that holds the advisory
-- lock scans the pending runs, a window at a time, and fires the schedules.
pub mod Sweep
pub mod Leaders
use unified_cd.Prelude.{
  ℕ, Bool, true, false, not, ◌&&◌, ◌||◌, List, Option, none, some, ltb, leb, ◌-◌, if◌then◌else◌,
  Text,
}
use unified_cd.Store.Tables.{Tables}
use unified_cd.Store.Expand.{Templates}
use unified_cd.Prelude.Window.{take}
use unified_cd.Controller.Schedules.{Schedule, Check, check_and_fire_schedules}
use unified_cd.Store.Pending.{
  PendingCursor, candidates, queue_batch, transition_pending_to_queued_from,
}

abbrev pub pending_window : ℕ
pending_window = 50

-- What AcquireSchedulerLock answers: an error, nothing when another replica leads, or the release.
pub data LockAnswer : Type 0 where
  lock_error lock_held lock_acquired : LockAnswer

-- The loop's variables, without those that are only logged. `leads` is that `release` is not nil.
pub record Scheduler : Type 0 where
  pub leads : Bool
  pub cursor : Option PendingCursor
  pub last_schedule_check : Option ℕ

abbrev pub new_scheduler : Scheduler
new_scheduler = record { leads = false; cursor = none; last_schedule_check = none }

-- A tick: its pass over the schedules with its time, the answer for the lock, the number of
-- candidates after which the scan meets a database error, if it does, and the tables, the listing of
-- the runs and the schedules as the tick finds them.
pub record Tick : Type 0 where
  pub check : Check
  pub lock : LockAnswer
  pub scan_fails : Option ℕ
  pub tables : Tables
  pub listing : List PendingCursor
  pub schedules : List Schedule

abbrev pub is_acquired : LockAnswer → Bool
is_acquired lock_acquired = true
is_acquired _ = false

unfoldable pub checks_schedules : ℕ → Option ℕ → Bool
checks_schedules now none = true
checks_schedules now (some t) = leb 60000000000 (now - t)

abbrev pub checked_at : ℕ → Option ℕ → Option ℕ
checked_at now last = if checks_schedules now last then some now else last

-- The advisory lock after the tick of the replica `name`: AcquireSchedulerLock takes it, if the
-- replica does not lead yet, and release() frees it when the scan fails.
abbrev pub lock_after : Text → Tick → Scheduler → Option Text → Option Text
lock_after name tick s lock =
    if s.leads || is_acquired tick.lock
    then elim tick.scan_fails [ some n ↦ none | none ↦ if s.leads then lock else some name ]
    else lock

module _ (tpl : Templates) (next_cron : Text → ℕ → Option ℕ) where
  abbrev pub after_scan : Tick → Scheduler → Tables → List Schedule × Tables
  after_scan tick s t =
      if checks_schedules tick.check.now s.last_schedule_check
      then check_and_fire_schedules next_cron tick.check tick.schedules t
      else (tick.schedules, t)

  -- What the leader does: its variables, the schedules and the tables after it. A scan that fails
  -- gives up the lock and the position; the runs that it queued before stay queued.
  abbrev pub lead_on : Option ℕ → Tick → Scheduler → Scheduler × (List Schedule × Tables)
  lead_on (some n) tick s =
      let batch = candidates tick.listing pending_window s.cursor tick.tables in
      (
        record s { leads = false; cursor = none },
        (tick.schedules, (queue_batch tpl tick.tables (take n batch) tick.tables).0),
      )
  lead_on none tick s =
      let scan =
        transition_pending_to_queued_from tpl tick.listing pending_window s.cursor tick.tables in
      (
        record {
          leads = true;
          cursor = scan.1;
          last_schedule_check = checked_at tick.check.now s.last_schedule_check;
        },
        after_scan tick s scan.0.0,
      )

  unfoldable pub lead : Tick → Scheduler → Scheduler × (List Schedule × Tables)
  unfolding take candidates queue_batch transition_pending_to_queued_from checks_schedules
      check_and_fire_schedules
  lead tick s = lead_on tick.scan_fails tick s

  unfoldable pub scheduler_tick : Tick → Scheduler → Scheduler × (List Schedule × Tables)
  unfolding lead
  scheduler_tick tick s =
      if s.leads || is_acquired tick.lock then lead tick s else (s, (tick.schedules, tick.tables))
