-- ===== src/Store/Lifecycle.antt =====
-- The statements of internal/store/postgres.go that move a run from one status to another.
pub mod Steps
pub mod Effects
pub mod Exclusion
pub mod Finish
pub mod Claim
pub mod Machine
use unified_cd.Prelude.{
  ◌≡◌, refl, Bool, true, false, not, ◌&&◌, List, [], ◌∷◌, Option, none, some, if◌then◌else◌, Text,
  text_eq, Table,
}
use unified_cd.Store.Tables.{
  RunStatus, pending, queued, running, is_terminal, same_status, RunSpec, RunRow, Tables, set_run,
}
use unified_cd.Store.Locks.{release_locks}

pub data StoreError : Type 0 where
  invalid_terminal_status expected_empty : StoreError

pub data StoreResult {ℓ} (A : Type ℓ) : Type ℓ where
  refused : StoreError → StoreResult A
  done : A → StoreResult A

-- CreateRun: the database gives the run an id that no run has, and the status pending.
unfoldable pub create_run : Text → Option RunSpec → Table Text → Tables → Tables
create_run r spec params t = set_run t r (
    some (record {
      spec = spec;
      params = params;
      status = pending;
      claimed_by = none;
      required_volumes = [];
    }))

-- A change of a row, if its run exists and the row passes the test; and whether it was changed.
abbrev pub change_row :
    Text → (RunRow → Bool) → (RunRow → RunRow) → Tables → Option RunRow → Tables × Bool
change_row r test f t none = (t, false)
change_row r test f t (some row) =
    if test row then (set_run t r (some (f row)), true) else (t, false)

-- The UPDATE of claimNextRun, on the run that its query picked.
unfoldable pub claim_run : Text → Text → Tables → Tables × Bool
unfolding same_status
claim_run agent r t =
    change_row r (λ row. same_status row.status queued)
      (λ row. record row { claimed_by = some agent; status = running }) t (t.runs r)

abbrev pub is_claim_of : Text → Option Text → Bool
is_claim_of agent none = false
is_claim_of agent (some owner) = text_eq owner agent

unfoldable pub requeue_claimed_run : Text → Text → Tables → Tables × Bool
unfolding same_status text_eq
requeue_claimed_run r agent t =
    change_row r (λ row. same_status row.status running && is_claim_of agent row.claimed_by)
      (λ row. record row { claimed_by = none; status = queued }) t (t.runs r)

unfoldable pub mark_run_running : Text → Tables → Tables
unfolding is_terminal
mark_run_running r t =
    (change_row r (λ row. not (is_terminal row.status)) (λ row. record row { status = running }) t
      (t.runs r)).0

-- A spec that does not decode is refused.
unfoldable pub update_run_spec : Text → Option RunSpec → Tables → Tables
unfolding same_status
update_run_spec r none t = t
update_run_spec r (some spec) t =
    (change_row r (λ row. same_status row.status pending) (λ row. record row { spec = some spec }) t
      (t.runs r)).0

-- `$3 = '' OR status = $3`
abbrev pub expects : Option RunStatus → RunStatus → Bool
expects none status = true
expects (some expected) status = same_status status expected

-- The UPDATE of finishRunFrom: not over a terminal status, nor over one that is not expected.
abbrev pub cas_row : Text → Option RunStatus → RunStatus → Tables → Option RunRow → Tables × Bool
cas_row r expected status =
    change_row r (λ row. not (is_terminal row.status) && expects expected row.status)
      (λ row. record row { status = status })

-- The locks are released only where the update matched the row.
abbrev pub after_cas : Text → Tables × Bool → Tables × Bool
after_cas r (t, true) = (record t { locks = release_locks r t.locks }, true)
after_cas r (t, false) = (t, false)

unfoldable pub finish_run_from :
    Text → Option RunStatus → RunStatus → Tables → StoreResult (Tables × Bool)
unfolding is_terminal same_status release_locks
finish_run_from r expected status t =
    if is_terminal status
    then done (after_cas r (cas_row r expected status t (t.runs r)))
    else refused invalid_terminal_status

unfoldable pub finish_run : Text → RunStatus → Tables → StoreResult (Tables × Bool)
unfolding finish_run_from
finish_run r status t = finish_run_from r none status t

-- An empty expected status is refused.
unfoldable pub finish_run_if_status :
    Text → Option RunStatus → RunStatus → Tables → StoreResult (Tables × Bool)
unfolding finish_run_from
finish_run_if_status r none status t = refused expected_empty
finish_run_if_status r (some expected) status t = finish_run_from r (some expected) status t

-- DeleteRun: the foreign keys delete its mutex rows and empty its slots.
unfoldable pub delete_run : Text → Tables → Tables
unfolding release_locks
delete_run r t = record (set_run t r none) { locks = release_locks r t.locks }
