-- ===== src/Controller/StuckRuns.antt =====
-- internal/controller/stuckrun_reaper.go: a sweep that fails the runs whose agent is gone.
pub mod Confirmed
use unified_cd.Prelude.{
  ◌≡◌, refl, ℕ, suc, ◌+◌, Bool, true, false, not, ◌&&◌, List, [], ◌∷◌, Option, none, some, ltb,
  if◌then◌else◌, any, Text, text_eq, Table, lookup, insert, keep_keys,
}
use unified_cd.Store.Tables.{failed, Tables}
use unified_cd.Store.Lifecycle.{finish_run}
use unified_cd.Store.Queue.{after_finish}

-- A running run whose agent is silent, or has no row.
pub record StuckRunRef : Type 0 where
  pub id : Text
  pub agent_missing : Bool

-- `missing_since` outlives a sweep. The program counts the runs that it failed; `reaped` names them.
pub record Sweep : Type 0 where
  pub tables : Tables
  pub missing_since : Table ℕ
  pub reaped : List Text
  pub errs : ℕ

abbrev pub is_missing : Text → StuckRunRef → Bool
is_missing id ref = ref.agent_missing && text_eq ref.id id

unfoldable pub still_missing : List StuckRunRef → Text → Bool
unfolding any text_eq
still_missing refs id = any (is_missing id) refs

-- MarkRunFinished; the interrupted steps and the cancelled descendants are left out.
unfoldable pub fail_orphaned_run : Text → Tables → Tables
unfolding finish_run
fail_orphaned_run id t = after_finish t (finish_run id failed t)

-- `broken` says on which runs the store fails.
unfoldable pub reap : (Text → Bool) → Text → Sweep → Sweep
unfolding fail_orphaned_run keep_keys
reap broken id s = if broken id then record s { errs = suc s.errs } else record s {
  tables = fail_orphaned_run id s.tables;
  missing_since = keep_keys (λ j. not (text_eq id j)) s.missing_since;
  reaped = id ∷ s.reaped;
}

abbrev pub confirm : (Text → Bool) → ℕ → ℕ → Text → Sweep → Option ℕ → Sweep
confirm broken now stale_after id s none = record s {
  missing_since = insert id now s.missing_since;
}
confirm broken now stale_after id s (some first) =
    if ltb now (first + stale_after) then s else reap broken id s

unfoldable pub sweep_ref : (Text → Bool) → ℕ → ℕ → StuckRunRef → Sweep → Sweep
unfolding reap lookup insert
sweep_ref broken now stale_after ref s =
    if ref.agent_missing
    then confirm broken now stale_after ref.id s (lookup ref.id s.missing_since)
    else reap broken ref.id s

unfoldable pub sweep_refs : (Text → Bool) → ℕ → ℕ → List StuckRunRef → Sweep → Sweep
unfolding sweep_ref
sweep_refs broken now stale_after [] s = s
sweep_refs broken now stale_after (ref ∷ refs) s =
    sweep_refs broken now stale_after refs (sweep_ref broken now stale_after ref s)

-- One sweep of the leader, at the time `now`, over the runs that the store lists.
unfoldable pub run_stuck_run_reaper_once :
    (Text → Bool) → ℕ → ℕ → List StuckRunRef → Tables → Table ℕ → Sweep
unfolding sweep_refs keep_keys still_missing
run_stuck_run_reaper_once broken now stale_after refs t missing_since =
    sweep_refs broken now stale_after refs (record {
      tables = t;
      missing_since = keep_keys (still_missing refs) missing_since;
      reaped = [];
      errs = 0;
    })
