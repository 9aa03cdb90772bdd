-- ===== src/Tests/Runs.antt =====
-- Runs that are queued, claimed and finished, and what the controller does with them.
use unified_cd.Prelude.{
  ◌≡◌, refl, ◌⊎◌, Bool, true, false, [], ◌∷◌, Option, none, some, any, Text, str, text_eq, Table,
  lookup, if◌then◌else◌,
}
use unified_cd.Store.Tables.{
  RunStatus, pending, queued, running, succeeded, failed, cancelled, is_terminal, same_status,
  ForeachSource, Semaphore, OrLock, Concurrency, RunSpec, RunRow, Locks, Tables, live, get_run,
}
use unified_cd.Store.Expand.{Templates, expand_concurrency}
use unified_cd.Store.Locks.Held.{holds_mutex, holds_slot}
use unified_cd.Store.Locks.Acquired.{HoldsAll}
use unified_cd.Store.Lifecycle.{
  StoreResult, refused, done, claim_run, requeue_claimed_run, mark_run_running, finish_run,
  finish_run_if_status,
}
use unified_cd.Store.Lifecycle.Steps.{queue, claim, mark_running, here, later, IsLocked}
use unified_cd.Store.Lifecycle.Effects.{Reach-IsLocked}
use unified_cd.Store.Lifecycle.Exclusion.{
  Through, start, onward, mutual_exclusion, try_queue_run-HoldsAll,
}
use unified_cd.Store.Lifecycle.Finish.{Step-terminal}
use unified_cd.Store.Lifecycle.Claim.{finish_run_if_status-claimed, requeue-claim_run}
use unified_cd.Store.Lifecycle.Machine.{Origin, Step-Origin}
use unified_cd.Store.Queue.{try_queue_run}

-- Templates without braces.
abbrev plain : Templates
plain = record { expand = λ s params. some s; decode_list = λ s. none }

abbrev deploy : Concurrency
deploy = record {
  mutex = str "deploy";
  semaphores = record { pool = str "gpu"; capacity = 2 } ∷ [];
  or_locks =
      record {
        name = str "env";
        source = record { literal = str "blue" ∷ str "green" ∷ []; expr = [] };
      }
      ∷ [];
}

abbrev deploy_spec : RunSpec
deploy_spec = record { uses = none ∷ []; concurrency = some deploy; volumes = [] }

abbrev waiting : RunRow
waiting = record {
  spec = some deploy_spec;
  params = [];
  status = pending;
  claimed_by = none;
  required_volumes = [];
}

abbrev empty : Tables
empty = record {
  runs = λ r. none;
  locks = record { mutex_holders = λ m. none; slots = λ p. [] };
  system_log = [];
}

-- Two runs of one job wait.
abbrev two_runs : Tables
two_runs = record empty {
  runs = λ r.
      if text_eq r (str "a")
      then some waiting
      else if text_eq r (str "b")
      then some waiting
      else none;
}

abbrev queue_a : Tables × Bool
queue_a = try_queue_run plain (str "a") (some deploy_spec) [] two_runs

abbrev claimed_a : Tables
claimed_a = (claim_run (str "agent-1") (str "a") queue_a.0).0

abbrev finished_a : StoreResult (Tables × Bool)
finished_a = finish_run (str "a") succeeded claimed_a

abbrev status_of : Option RunRow → Option RunStatus
status_of none = none
status_of (some row) = some row.status

a_is_queued : queue_a.1 ≡ true
unfolding try_queue_run unified_cd.Store.Expand.traverse unified_cd.Store.Expand.expand_semaphore
    unified_cd.Store.Expand.expand_or_lock unified_cd.Store.Expand.eval_foreach_source lookup
a_is_queued = refl

a_holds_the_mutex : queue_a.0.locks.mutex_holders (str "deploy") ≡ some (str "a")
unfolding try_queue_run unified_cd.Store.Expand.traverse unified_cd.Store.Expand.expand_semaphore
    unified_cd.Store.Expand.expand_or_lock unified_cd.Store.Expand.eval_foreach_source lookup
a_holds_the_mutex = refl

a_has_a_slot : queue_a.0.locks.slots (str "gpu") ≡ some (str "a") ∷ none ∷ []
unfolding try_queue_run unified_cd.Store.Expand.traverse unified_cd.Store.Expand.expand_semaphore
    unified_cd.Store.Expand.expand_or_lock unified_cd.Store.Expand.eval_foreach_source lookup
a_has_a_slot = refl

a_is_ready :
    queue_a.0.runs (str "a")
    ≡ some (record waiting { status = queued; params = (str "ENV_LOCK_VALUE", str "blue") ∷ [] })
unfolding try_queue_run unified_cd.Store.Expand.traverse unified_cd.Store.Expand.expand_semaphore
    unified_cd.Store.Expand.expand_or_lock unified_cd.Store.Expand.eval_foreach_source lookup
a_is_ready = refl

b_waits : (try_queue_run plain (str "b") (some deploy_spec) [] claimed_a).1 ≡ false
unfolding try_queue_run claim_run unified_cd.Store.Expand.traverse
    unified_cd.Store.Expand.expand_semaphore unified_cd.Store.Expand.expand_or_lock
    unified_cd.Store.Expand.eval_foreach_source lookup
b_waits = refl

abbrev tables_of : Tables → StoreResult (Tables × Bool) → Tables
tables_of t (refused why) = t
tables_of t (done (u, b)) = u

b_is_next :
    (try_queue_run plain (str "b") (some deploy_spec) [] (tables_of claimed_a finished_a)).1 ≡ true
unfolding try_queue_run claim_run unified_cd.Store.Expand.traverse
    unified_cd.Store.Expand.expand_semaphore unified_cd.Store.Expand.expand_or_lock
    unified_cd.Store.Expand.eval_foreach_source lookup
b_is_next = refl

deploy_expands : expand_concurrency plain (some deploy) [] ≡ some (some deploy)
unfolding expand_concurrency unified_cd.Store.Expand.traverse
    unified_cd.Store.Expand.expand_semaphore unified_cd.Store.Expand.expand_or_lock
    unified_cd.Store.Expand.eval_foreach_source
deploy_expands = refl

a_is_live : live claimed_a (str "a") ≡ true
unfolding live claim_run try_queue_run unified_cd.Store.Expand.traverse
    unified_cd.Store.Expand.expand_semaphore unified_cd.Store.Expand.expand_or_lock
    unified_cd.Store.Expand.eval_foreach_source lookup unified_cd.Store.Tables.is_live
a_is_live = refl

a_stays : Through plain (str "a") queue_a.0 claimed_a
a_stays = onward start (claim (str "agent-1") (str "a")) a_is_live

mutual_exclusion_example : (try_queue_run plain (str "b") (some deploy_spec) [] claimed_a).1 ≡ false
mutual_exclusion_example =
    mutual_exclusion plain (str "a") (str "b") (some deploy_spec) (some deploy_spec) [] [] deploy
      deploy two_runs claimed_a deploy_expands refl a_is_queued a_stays deploy_expands refl

try_queue_run-HoldsAll_example : HoldsAll (str "a") queue_a.0.locks (some deploy)
try_queue_run-HoldsAll_example =
    try_queue_run-HoldsAll plain (str "a") (some deploy_spec) [] two_runs (some deploy)
      deploy_expands a_is_queued

two_runs-IsLocked : IsLocked two_runs
unfolding holds_mutex holds_slot any
two_runs-IsLocked = record { mutex_live = λ h m e. cc; slot_live = λ h p e. cc }

Reach-IsLocked_example : IsLocked claimed_a
Reach-IsLocked_example =
    Reach-IsLocked {tpl = plain}
      (later (later here (queue (str "a") (some deploy_spec) [])) (claim (str "agent-1") (str "a")))
      two_runs-IsLocked

abbrev blue : Table Text
blue = (str "ENV_LOCK_VALUE", str "blue") ∷ []

abbrev ready : RunRow
ready = record waiting { status = queued; params = blue }

abbrev taken : RunRow
taken = record waiting { status = running; params = blue; claimed_by = some (str "agent-1") }

a_is_taken : claimed_a.runs (str "a") ≡ some taken
unfolding claim_run try_queue_run unified_cd.Store.Expand.traverse
    unified_cd.Store.Expand.expand_semaphore unified_cd.Store.Expand.expand_or_lock
    unified_cd.Store.Expand.eval_foreach_source lookup
a_is_taken = refl

Step-Origin_example : Origin false none queue_a.0 (str "a") taken
Step-Origin_example =
    Step-Origin {tpl = plain} (str "a") taken (claim (str "agent-1") (str "a")) a_is_taken

abbrev over : Tables
over = tables_of claimed_a finished_a

a_is_over : over.runs (str "a") ≡ some (record taken { status = succeeded })
unfolding finish_run claim_run try_queue_run unified_cd.Store.Expand.traverse
    unified_cd.Store.Expand.expand_semaphore unified_cd.Store.Expand.expand_or_lock
    unified_cd.Store.Expand.eval_foreach_source lookup
a_is_over = refl

over_is_terminal : is_terminal succeeded ≡ true
unfolding is_terminal
over_is_terminal = refl

-- A late claim report finds the run over.
Step-terminal_example :
    ((mark_run_running (str "a") over).runs (str "a") ≡ some (record taken { status = succeeded }))
    ⊎ ((mark_run_running (str "a") over).runs (str "a") ≡ none)
Step-terminal_example =
    Step-terminal {tpl = plain} (str "a") (record taken { status = succeeded })
      (mark_running (str "a")) a_is_over over_is_terminal

a_was_claimed : claim_run (str "agent-1") (str "a") queue_a.0 ≡ (claimed_a, true)
unfolding claim_run try_queue_run unified_cd.Store.Expand.traverse
    unified_cd.Store.Expand.expand_semaphore unified_cd.Store.Expand.expand_or_lock
    unified_cd.Store.Expand.eval_foreach_source lookup
a_was_claimed = refl

failed_is_terminal : is_terminal failed ≡ true
unfolding is_terminal
failed_is_terminal = refl

-- The sweep over queued runs that nobody can take comes too late.
finish_run_if_status-claimed_example :
    finish_run_if_status (str "a") (some queued) failed claimed_a ≡ done (claimed_a, false)
finish_run_if_status-claimed_example =
    finish_run_if_status-claimed (str "agent-1") (str "a") failed queue_a.0 failed_is_terminal
      a_was_claimed

ready_is_queued : same_status queued queued ≡ true
unfolding same_status
ready_is_queued = refl

requeue-claim_run_example :
    let back = requeue_claimed_run (str "a") (str "agent-1") claimed_a in
    (back.1 ≡ true)
    × (back.0.locks ≡ queue_a.0.locks)
    × ((h : Text) → back.0.runs h ≡ queue_a.0.runs h)
requeue-claim_run_example =
    requeue-claim_run (str "agent-1") (str "a") queue_a.0 ready a_is_ready ready_is_queued refl
