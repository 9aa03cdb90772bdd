-- ===== src/Controller/Scheduler/Leaders.antt =====
-- Several replicas of the controller and the advisory lock of their schedulers.
use unified_cd.Prelude.{
  ◌≡◌, refl, sym, ap, ◌∙◌, ℕ, Bool, true, false, ◌||◌, Option, none, some, if◌then◌else◌,
  Bool-cases, inl, inr, Text, text_eq, text_eq_iff,
}
use unified_cd.Store.Tables.{update}
use unified_cd.Store.Locks.Held.{some-inj}
use unified_cd.Store.Expand.{Templates}
use unified_cd.Controller.Scheduler.{
  Scheduler, Tick, is_acquired, lock_after, lead_on, lead, scheduler_tick, new_scheduler,
}

-- Which replica's session holds the lock, and the loop's variables of each.
pub record Replicas : Type 0 where
  pub lock : Option Text
  pub schedulers : Text → Scheduler

module _ (tpl : Templates) (next_cron : Text → ℕ → Option ℕ) where
  -- PostgreSQL grants the lock only when no session holds it. A replica that stops releases it, and
  -- starts again with new variables. No session is lost by itself.
  pub data ReplicaStep (c : Replicas) : Replicas → Type 0 where
    ticked :
        (name : Text) (tick : Tick)
        → ((c.schedulers name).leads ≡ false → is_acquired tick.lock ≡ true → c.lock ≡ none)
        → ReplicaStep c (record {
          lock = lock_after name tick (c.schedulers name) c.lock;
          schedulers =
              update c.schedulers name (scheduler_tick tpl next_cron tick (c.schedulers name)).0;
        })
    stopped :
        (name : Text)
        → ReplicaStep c (record {
          lock = if (c.schedulers name).leads then none else c.lock;
          schedulers = update c.schedulers name new_scheduler;
        })

  pub data IsHistory : Replicas → Type 0 where
    started : IsHistory (record { lock = none; schedulers = λ name. new_scheduler })
    onward : {c d : Replicas} → IsHistory c → ReplicaStep c d → IsHistory d

  -- Who leads holds the lock.
  abbrev IsHeld : Option Text → Bool → Text → Type 0
  IsHeld lock leads name = leads ≡ true → lock ≡ some name

  lead_on-IsHeld :
      (name : Text) (tick : Tick) (s : Scheduler) (lock : Option Text) (fails : Option ℕ)
      → IsHeld lock s.leads name
      → IsHeld
          (elim fails [ some n ↦ none | none ↦ if s.leads then lock else some name ])
          (lead_on tpl next_cron fails tick s).0.leads
          name
  lead_on-IsHeld name tick s lock (some n) h l = let no_way : false ≡ true = l in cc
  lead_on-IsHeld name tick s lock none h l = elim (Bool-cases s.leads) [
    | inl leading ↦ rw leading (h leading)
    | inr fresh ↦ rw fresh refl
  ]

  lead-IsHeld :
      (name : Text) (tick : Tick) (s : Scheduler) (lock : Option Text)
      → IsHeld lock s.leads name
      → IsHeld
          (elim tick.scan_fails [ some n ↦ none | none ↦ if s.leads then lock else some name ])
          (lead tpl next_cron tick s).0.leads
          name
  unfolding lead
  lead-IsHeld name tick s lock h = lead_on-IsHeld name tick s lock tick.scan_fails h

  -- The replica that ticks.
  scheduler_tick-IsHeld :
      (name : Text) (tick : Tick) (s : Scheduler) (lock : Option Text)
      → IsHeld lock s.leads name
      → IsHeld (lock_after name tick s lock) (scheduler_tick tpl next_cron tick s).0.leads name
  unfolding scheduler_tick
  scheduler_tick-IsHeld name tick s lock h = elim (Bool-cases (s.leads || is_acquired tick.lock)) [
    | inl on ↦ rw on (lead-IsHeld name tick s lock h)
    | inr off ↦ rw off h
  ]

  one_holder :
      {lock : Option Text} {name r : Text}
      → lock ≡ some name
      → lock ≡ some r
      → text_eq name r ≡ true
  one_holder {name = name} {r = r} a b = (text_eq_iff name r).1 (some-inj (sym a ∙ b))

  -- Another replica that leads meanwhile.
  lock_after-other :
      (name r : Text) (tick : Tick) (s : Scheduler) (lock : Option Text)
      → text_eq name r ≡ false
      → IsHeld lock s.leads name
      → (s.leads ≡ false → is_acquired tick.lock ≡ true → lock ≡ none)
      → lock ≡ some r
      → lock_after name tick s lock ≡ some r
  lock_after-other name r tick s lock other h grants mine = elim (Bool-cases s.leads) [
    | inl leading ↦ let no_way : true ≡ false = sym (one_holder (h leading) mine) ∙ other in cc
    | inr waits ↦ elim (Bool-cases (is_acquired tick.lock)) [
      | inl got ↦ let no_way : none ≡ some r = sym (grants waits got) ∙ mine in cc
      | inr refused ↦ rw (waits, refused) mine
    ]
  ]

  stopped-other :
      (name r : Text) (s : Scheduler) (lock : Option Text)
      → text_eq name r ≡ false
      → IsHeld lock s.leads name
      → lock ≡ some r
      → (if s.leads then none else lock) ≡ some r
  stopped-other name r s lock other h mine = elim (Bool-cases s.leads) [
    | inl leading ↦ let no_way : true ≡ false = sym (one_holder (h leading) mine) ∙ other in cc
    | inr waits ↦ rw waits mine
  ]

  step-IsHeld :
      {c d : Replicas}
      → ReplicaStep c d
      → ((r : Text) → IsHeld c.lock (c.schedulers r).leads r)
      → (r : Text) → IsHeld d.lock (d.schedulers r).leads r
  step-IsHeld {c} (ticked name tick grants) h r l = elim (Bool-cases (text_eq name r)) [
    | inl same ↦
        let at_r : name ≡ r = (text_eq_iff name r).0 same in
        let on : (scheduler_tick tpl next_cron tick (c.schedulers name)).0.leads ≡ true =
          rw same at l in
        scheduler_tick-IsHeld name tick (c.schedulers name) c.lock (h name) on ∙ ap some at_r
    | inr other ↦
        lock_after-other name r tick (c.schedulers name) c.lock other (h name) grants
          (h r (rw other at l))
  ]
  step-IsHeld {c} (stopped name) h r l = elim (Bool-cases (text_eq name r)) [
    | inl same ↦ let no_way : new_scheduler.leads ≡ true = rw same at l in cc
    | inr other ↦
        stopped-other name r (c.schedulers name) c.lock other (h name) (h r (rw other at l))
  ]

  history-IsHeld :
      {c : Replicas} → IsHistory c → (r : Text) → IsHeld c.lock (c.schedulers r).leads r
  history-IsHeld started r = λ l. let no_way : false ≡ true = l in cc
  history-IsHeld (onward past step) r = step-IsHeld step (history-IsHeld past) r

  -- Who does not lead has no position in the scan.
  abbrev IsReset : Scheduler → Type 0
  IsReset s = s.leads ≡ false → s.cursor ≡ none

  lead_on-IsReset :
      (tick : Tick) (s : Scheduler) (fails : Option ℕ)
      → IsReset (lead_on tpl next_cron fails tick s).0
  lead_on-IsReset tick s (some n) waits = refl
  lead_on-IsReset tick s none waits = let no_way : true ≡ false = waits in cc

  scheduler_tick-IsReset :
      (tick : Tick) (s : Scheduler) → IsReset s → IsReset (scheduler_tick tpl next_cron tick s).0
  unfolding scheduler_tick lead
  scheduler_tick-IsReset tick s h = elim (Bool-cases (s.leads || is_acquired tick.lock)) [
    | inl on ↦ rw on (lead_on-IsReset tick s tick.scan_fails)
    | inr off ↦ rw off h
  ]

  step-IsReset :
      {c d : Replicas}
      → ReplicaStep c d
      → ((r : Text) → IsReset (c.schedulers r))
      → (r : Text) → IsReset (d.schedulers r)
  step-IsReset {c} (ticked name tick grants) h r = elim (Bool-cases (text_eq name r)) [
    | inl same ↦ rw same (scheduler_tick-IsReset tick (c.schedulers name) (h name))
    | inr other ↦ rw other (h r)
  ]
  step-IsReset (stopped name) h r = elim (Bool-cases (text_eq name r)) [
    | inl same ↦ rw same (λ waits. refl)
    | inr other ↦ rw other (h r)
  ]

  history-IsReset : {c : Replicas} → IsHistory c → (r : Text) → IsReset (c.schedulers r)
  history-IsReset started r = λ waits. refl
  history-IsReset (onward past step) r = step-IsReset step (history-IsReset past) r

  -- Through any ticks, stops and restarts of replicas, whatever their scans and schedules do and
  -- with database errors or without, when the advisory lock is granted only while no session holds
  -- it and no session loses it by itself, beside a replica that leads each other one does not
  -- lead, and has no position in the scan, so that it starts at the head when it takes over.
  pub one_leader :
      {c : Replicas}
      → IsHistory c
      → (a b : Text) → text_eq a b ≡ false
      → (c.schedulers a).leads ≡ true
      → ((c.schedulers b).leads ≡ false) × ((c.schedulers b).cursor ≡ none)
  one_leader {c} past a b other leads = elim (Bool-cases (c.schedulers b).leads) [
    | inl also ↦
        let same = one_holder (history-IsHeld past a leads) (history-IsHeld past b also) in
        let no_way : true ≡ false = sym same ∙ other in cc
    | inr waits ↦ (waits, history-IsReset past b waits)
  ]
