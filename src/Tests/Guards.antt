-- ===== src/Tests/Guards.antt =====
-- The guard of an agent's writes, the sweep over lost agents, and the walk over called runs.
use unified_cd.Prelude.{
  ◌≡◌, refl, ◌<◌, true, false, List, [], ◌∷◌, none, some, arith, if◌then◌else◌, Bool-cases, inl,
  inr, any, All, Text, str, text_eq, contains,
}
use unified_cd.Prelude.Recency.{first}
use unified_cd.Store.Tables.{queued, running, same_status, RunRow, Tables}
use unified_cd.Store.Expand.{Templates}
use unified_cd.Store.Locks.Held.{some-inj}
use unified_cd.Store.Lifecycle.{create_run, claim_run, requeue_claimed_run}
use unified_cd.Store.Lifecycle.Steps.{create, queue, claim}
use unified_cd.Store.Queue.{try_queue_run}
use unified_cd.Controller.AgentGuard.{
  write_ok, not_owned, ClaimedByCache, new_claimed_by_cache, find_entry, row_verdict,
  agent_run_guard,
}
use unified_cd.Controller.AgentGuard.System.{
  started, followed, stored, guarded, IsUnclaimed, agent_run_guard-refines,
}
use unified_cd.Controller.AgentGuard.Stale.{agent_run_guard-stale}
use unified_cd.Controller.StuckRuns.{StuckRunRef, run_stuck_run_reaper_once}
use unified_cd.Controller.StuckRuns.Confirmed.{
  Tick, remembered, history_of, Reason, run_stuck_run_reaper_once-confirmed,
}
use unified_cd.Controller.Cascade.{Calls, Walk, mark_cancelled, cancel_descendant_runs}
use unified_cd.Controller.Cascade.Mark.{is_over}
use unified_cd.Controller.Cascade.Ends.{AreKnown, cancel_descendant_runs-ends}
use unified_cd.Controller.Cascade.Reached.{Descends, itself, called, cancel_descendant_runs-over}

abbrev plain : Templates
plain = record { expand = λ s params. some s; decode_list = λ s. none }

abbrev empty : Tables
empty = record {
  runs = λ r. none;
  locks = record { mutex_holders = λ m. none; slots = λ p. [] };
  system_log = [];
}

abbrev run : Text
run = str "r-1"

abbrev agent : Text
agent = str "agent-1"

abbrev other : Text
other = str "agent-2"

abbrev made : Tables
made = create_run run none [] empty

abbrev ready : Tables
ready = (try_queue_run plain run none [] made).0

abbrev taken : Tables
taken = (claim_run agent run ready).0

abbrev cold : ClaimedByCache
cold = new_claimed_by_cache 2

abbrev warm : ClaimedByCache
warm = (agent_run_guard agent run false taken cold).0

empty-IsUnclaimed : IsUnclaimed empty
empty-IsUnclaimed r row e w = cc

run_is_new : find_entry run cold.order ≡ none
unfolding new_claimed_by_cache find_entry first
run_is_new = refl

abbrev taken_row : RunRow
taken_row = record {
  spec = none;
  params = [];
  status = running;
  claimed_by = some agent;
  required_volumes = [];
}

run_is_taken : taken.runs run ≡ some taken_row
unfolding claim_run try_queue_run create_run unified_cd.Store.Expand.traverse
run_is_taken = refl

-- Another agent is refused, and the answer comes from the cache.
other_is_refused : (agent_run_guard other run false empty warm).1 ≡ not_owned
unfolding agent_run_guard new_claimed_by_cache claim_run try_queue_run create_run
    unified_cd.Store.Expand.traverse
other_is_refused = refl

agent_run_guard-refines_example :
    (agent_run_guard other run false taken warm).1 ≡ row_verdict other false taken_row
agent_run_guard-refines_example =
    agent_run_guard-refines plain empty 2 {s = record { tables = taken; cache = warm }}
      empty-IsUnclaimed
      (followed
        (followed
          (followed (followed started (stored (create run none [] refl) run_is_new))
            (stored (queue run none []) tt))
          (stored (claim agent run) tt))
        (guarded agent run false))
      other run false taken_row run_is_taken

abbrev ready_row : RunRow
ready_row = record taken_row { status = queued; claimed_by = none }

run_is_ready : ready.runs run ≡ some ready_row
unfolding try_queue_run create_run unified_cd.Store.Expand.traverse
run_is_ready = refl

ready_is_queued : same_status queued queued ≡ true
unfolding same_status
ready_is_queued = refl

agents_differ : text_eq agent other ≡ false
unfolding text_eq
agents_differ = refl

cold_has_room : 0 < cold.cap
unfolding new_claimed_by_cache
cold_has_room = omega arith

agent_run_guard-stale_example :
    let later = (claim_run other run (requeue_claimed_run run agent taken).0).0 in
    (later.runs run ≡ some (record ready_row { claimed_by = some other; status = running }))
    × ((agent_run_guard other run false later warm).1 ≡ not_owned)
    × ((agent_run_guard agent run false later warm).1 ≡ write_ok)
agent_run_guard-stale_example =
    agent_run_guard-stale agent other run ready cold ready_row run_is_ready ready_is_queued
      cold_has_room run_is_new refl agents_differ

abbrev missing : List StuckRunRef
missing = record { id = run; agent_missing = true } ∷ []

abbrev first_sweep : Tick
first_sweep = record { broken = λ r. false; now = 10; refs = missing; tables = taken }

abbrev second_sweep : Tick
second_sweep = record first_sweep { now = 100 }

run_is_reaped :
    (run_stuck_run_reaper_once
      (λ r. false)
      100
      90
      missing
      taken
      (remembered 90 (first_sweep ∷ []))).reaped
    ≡ run ∷ []
unfolding remembered run_stuck_run_reaper_once
run_is_reaped = refl

run_stuck_run_reaper_once-confirmed_example :
    All
      (Reason (history_of (second_sweep ∷ first_sweep ∷ [])) 100 90 missing)
      (run_stuck_run_reaper_once
        (λ r. false)
        100
        90
        missing
        taken
        (remembered 90 (first_sweep ∷ []))).reaped
run_stuck_run_reaper_once-confirmed_example =
    run_stuck_run_reaper_once-confirmed 90 (first_sweep ∷ []) second_sweep

abbrev child : Text
child = str "r-2"

-- A run that called another, which called the first.
abbrev calls : Calls
calls = record {
  list_child_run_ids = λ r. if text_eq r run then some (child ∷ []) else some (run ∷ []);
  broken = λ r. false;
}

abbrev nodes : List Text
nodes = run ∷ child ∷ []

calls-AreKnown : AreKnown calls nodes
unfolding contains any
calls-AreKnown k c cs listed member = elim (Bool-cases (text_eq k run)) [
  | inl here ↦
      let same : child ∷ [] ≡ cs = some-inj (rw here at listed) in
      known_child (rw (← same) at member)
  | inr away ↦
      let same : run ∷ [] ≡ cs = some-inj (rw away at listed) in known_run (rw (← same) at member)
]
  where
    known_child : contains (child ∷ []) c ≡ true → contains nodes c ≡ true
    known_child h = ground arith

    known_run : contains (run ∷ []) c ≡ true → contains nodes c ≡ true
    known_run h = ground arith

-- The cycle does not keep the walk going.
cancel_descendant_runs-ends_example :
    (w : Walk) × (cancel_descendant_runs calls 4 run taken ≡ some w)
cancel_descendant_runs-ends_example =
    cancel_descendant_runs-ends calls nodes run taken calls-AreKnown

-- Both runs, the child running too.
abbrev two_running : Tables
two_running = record taken { runs = λ r. if text_eq r child then some taken_row else taken.runs r }

abbrev walked : Tables
walked = mark_cancelled calls child two_running

walk_ran :
    cancel_descendant_runs calls 4 run two_running
    ≡ some (record { visited = child ∷ run ∷ []; queue = []; tables = walked })
unfolding cancel_descendant_runs
walk_ran = refl

child_listed : contains (child ∷ []) child ≡ true
unfolding contains
child_listed = refl

run_calls_child : calls.list_child_run_ids run ≡ some (child ∷ [])
unfolding text_eq
run_calls_child = refl

child_is_called : Descends calls run child
child_is_called = called child itself run_calls_child child_listed

run_is_not_child : text_eq run child ≡ false
unfolding text_eq
run_is_not_child = refl

cancel_descendant_runs-over_example : is_over walked child ≡ true
cancel_descendant_runs-over_example =
    cancel_descendant_runs-over calls 4 run child two_running walk_ran child_is_called
      run_is_not_child refl
