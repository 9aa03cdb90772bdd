-- ===== src/Store/Queue.antt =====
-- tryQueueRun of internal/store/postgres.go: a pending run takes its locks and is queued.
pub mod Outcome
use unified_cd.Prelude.{
  ◌≡◌, refl, ℕ, Bool, true, false, List, [], ◌∷◌, ◌++◌, Option, none, some, if◌then◌else◌, any,
  is_empty, Text, str, has_prefix, Table, lookup, insert,
}
use unified_cd.Store.Tables.{
  RunStatus, pending, queued, failed, same_status, RunSpec, RunRow, Concurrency, Locks, Tables,
  set_run,
}
use unified_cd.Store.Expand.{Templates, expand_concurrency, expand_volumes_non_empty}
use unified_cd.Store.Locks.{acquire_locks}
use unified_cd.Store.Lifecycle.{StoreResult, refused, done, finish_run}

-- An invalid spec has no constraints.
abbrev pub spec_or_empty : Option RunSpec → RunSpec
spec_or_empty (some spec) = spec
spec_or_empty none = record { uses = []; concurrency = none; volumes = [] }

abbrev pub is_unresolved : Option Text → Bool
is_unresolved none = false
is_unresolved (some job) = has_prefix job (str "git://")

abbrev pub after_finish : Tables → StoreResult (Tables × Bool) → Tables
after_finish t (refused e) = t
after_finish t (done result) = result.0

abbrev pub logged : Text → Text → Tables → Tables
logged r message t = record t { system_log = t.system_log ++ (r, message) ∷ [] }

-- The transaction is rolled back, a line is appended to the run's log, and the run fails.
unfoldable pub fail_run : Text → Text → Tables → Tables
unfolding finish_run
fail_run r message t = after_finish (logged r message t) (finish_run r failed (logged r message t))

abbrev pub has_key : Table Text → Table Text → Bool
has_key params [] = false
has_key params ((k, v) ∷ values) = elim (lookup k params) [
  | none ↦ has_key params values
  | some w ↦ true
]

-- `params || values`
unfoldable pub merge_params : Table Text → Table Text → Table Text
unfolding insert
merge_params params [] = params
merge_params params ((k, v) ∷ values) = merge_params (insert k v params) values

abbrev pub queued_row : RunRow → List (List Text) → Table Text → RunRow
queued_row row volumes values = record row {
  status = queued;
  params = merge_params row.params values;
  required_volumes = volumes;
}

-- The locks are there: the values of the or-locks join the parameters, and the run is queued.
abbrev pub with_locks :
    Text
    → RunRow
    → Table Text
    → List (List Text)
    → Tables
    → Option (Locks × Table Text)
    → Tables × Bool
with_locks r row params volumes t none = (t, false)
with_locks r row params volumes t (some (locks, values)) =
    if has_key params values
    then (fail_run r (str "or-lock variable conflicts with an existing parameter") t, false)
    else (
      record t { runs = (set_run t r (some (queued_row row volumes values))).runs; locks = locks },
      true,
    )

module _ (tpl : Templates) where
  abbrev pub with_volumes :
      Text
      → RunRow
      → Table Text
      → Option Concurrency
      → Tables
      → Option (List (List Text))
      → Tables × Bool
  with_volumes r row params concurrency t none =
      (fail_run r (str "spec.volumes template expansion failed") t, false)
  with_volumes r row params concurrency t (some volumes) =
      with_locks r row params volumes t (acquire_locks concurrency r t.locks)

  abbrev pub with_concurrency :
      Text → RunRow → RunSpec → Table Text → Tables → Option (Option Concurrency) → Tables × Bool
  with_concurrency r row spec params t none =
      (fail_run r (str "concurrency template expansion failed") t, false)
  with_concurrency r row spec params t (some concurrency) =
      with_volumes r row params concurrency t (expand_volumes_non_empty tpl spec.volumes params)

  abbrev pub queue_row : Text → RunSpec → Table Text → Tables → Option RunRow → Tables × Bool
  queue_row r spec params t none = (t, false)
  queue_row r spec params t (some row) =
      if same_status row.status pending
      then if any is_unresolved spec.uses
        then (t, false)
        else with_concurrency r row spec params t (expand_concurrency tpl spec.concurrency params)
      else (t, false)

  -- The new tables, and whether the run was queued. The spec and the parameters are those that the
  -- scan over the pending runs read.
  unfoldable pub try_queue_run : Text → Option RunSpec → Table Text → Tables → Tables × Bool
  unfolding same_status any has_prefix expand_concurrency expand_volumes_non_empty acquire_locks
      fail_run merge_params
  try_queue_run r spec params t = queue_row r (spec_or_empty spec) params t (t.runs r)
