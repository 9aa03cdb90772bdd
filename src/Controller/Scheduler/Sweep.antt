-- ===== src/Controller/Scheduler/Sweep.antt =====
-- The leader's ticks examine every run that stays pending.
use unified_cd.Prelude.{
  ◌≡◌, refl, ap, ◌∙◌, ℕ, suc, ◌+◌, ◌*◌, ◌≤◌, Bool, true, false, ◌||◌, List, [], ◌∷◌, ◌++◌, none,
  length, any, map, Option, All, Text, text_eq,
}
use unified_cd.Prelude.Window.{ordered}
use unified_cd.Store.Expand.{Templates}
use unified_cd.Store.Pending.{PendingCursor, before, is_pending, candidates, next_cursor}
use unified_cd.Store.Pending.Sweep.{examines, examines_every}
use unified_cd.Controller.Scheduler.{Scheduler, Tick, pending_window, lead, scheduler_tick}

module _ (tpl : Templates) (next_cron : Text → ℕ → Option ℕ) where
  -- Whether the scan of one of the ticks has the run among its candidates.
  unfoldable pub ticks_examine : PendingCursor → List Tick → Scheduler → Bool
  unfolding scheduler_tick candidates any text_eq
  ticks_examine x [] s = false
  ticks_examine x (tick ∷ ticks) s =
      let rest = ticks_examine x ticks (scheduler_tick tpl next_cron tick s).0 in
      any (λ k. text_eq k.id x.id) (candidates tick.listing pending_window s.cursor tick.tables)
      || rest

  -- A tick of the leader that finds the run still waiting, on the given listing.
  pub record IsQuiet (order : List PendingCursor) (x : PendingCursor) (tick : Tick) : Type 0 where
    pub scans : tick.scan_fails ≡ none
    pub listed : tick.listing ≡ order
    pub waiting : is_pending tick.tables x ≡ true

  tick-leads :
      (tick : Tick) (s : Scheduler)
      → s.leads ≡ true
      → tick.scan_fails ≡ none
      → (scheduler_tick tpl next_cron tick s).0.leads ≡ true
  unfolding scheduler_tick
  tick-leads tick s l q = rw (l, lead, q) refl

  tick-cursor :
      (tick : Tick) (s : Scheduler)
      → s.leads ≡ true
      → tick.scan_fails ≡ none
      → (scheduler_tick tpl next_cron tick s).0.cursor
        ≡ next_cursor pending_window (candidates tick.listing pending_window s.cursor tick.tables)
  unfolding scheduler_tick
  tick-cursor tick s l q = rw (l, lead, q) refl

  ticks_examine-examines :
      (order : List PendingCursor) (x : PendingCursor) (ticks : List Tick) (s : Scheduler)
      → s.leads ≡ true
      → All (IsQuiet order x) ticks
      → ticks_examine x ticks s
        ≡ examines order pending_window x (map (λ tick. tick.tables) ticks) s.cursor
  unfolding ticks_examine examines
  ticks_examine-examines order x [] s l q = refl
  ticks_examine-examines order x (tick ∷ ticks) s l (q, qs) =
      let here : List PendingCursor → Bool =
        λ o. any (λ k. text_eq k.id x.id) (candidates o pending_window s.cursor tick.tables) in
      let behind : List PendingCursor → Option PendingCursor =
        λ o. next_cursor pending_window (candidates o pending_window s.cursor tick.tables) in
      let later = (scheduler_tick tpl next_cron tick s).0 in
      let rest = map (λ u. u.tables) ticks in
      ap (λ o. here o || ticks_examine x ticks later) q.listed
      ∙ ap (λ b. here order || b)
          (ticks_examine-examines order x ticks later (tick-leads tick s l q.scans) qs
            ∙ ap (examines order pending_window x rest)
                (tick-cursor tick s l q.scans ∙ ap behind q.listed))

  length-tables : (ticks : List Tick) → length (map (λ tick. tick.tables) ticks) ≡ length ticks
  length-tables [] = refl
  length-tables (tick ∷ ticks) = ap suc (length-tables ticks)

  All-waiting :
      (order : List PendingCursor) (x : PendingCursor) (ticks : List Tick)
      → All (IsQuiet order x) ticks
      → All (λ t. is_pending t x ≡ true) (map (λ tick. tick.tables) ticks)
  All-waiting order x [] q = q
  All-waiting order x (tick ∷ ticks) (q, qs) = (q.waiting, All-waiting order x ticks qs)

  -- Take a listing of runs in the order of the scan, a run of it, a leader with any cursor, and
  -- ticks whose scans meet no database error and which find that listing and the run still
  -- pending, whatever else changes in the tables: if the ticks together have room for the listing
  -- and one window more, one of them examines the run.
  pub ticks_examine_every :
      (pre post : List PendingCursor) (x : PendingCursor) (ticks : List Tick) (s : Scheduler)
      → ordered before (pre ++ x ∷ post) ≡ true
      → s.leads ≡ true
      → All (IsQuiet (pre ++ x ∷ post) x) ticks
      → length (pre ++ x ∷ post) + pending_window ≤ length ticks * pending_window
      → ticks_examine x ticks s ≡ true
  ticks_examine_every pre post x ticks s sorted l q many =
      ticks_examine-examines (pre ++ x ∷ post) x ticks s l q
      ∙ examines_every 49 pre post x sorted (map (λ tick. tick.tables) ticks) s.cursor
          (All-waiting (pre ++ x ∷ post) x ticks q) (rw (length-tables ticks) many)
