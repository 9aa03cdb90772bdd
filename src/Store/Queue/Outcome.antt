-- ===== src/Store/Queue/Outcome.antt =====
-- The ways in which the attempt to queue a run ends.
use unified_cd.Prelude.{
  ◌≡◌, refl, Bool, true, false, List, Option, none, some, Bool-cases, inl, inr, any, Text, Table,
}
use unified_cd.Store.Tables.{
  pending, same_status, RunSpec, RunRow, Concurrency, Locks, Tables, set_run,
}
use unified_cd.Store.Expand.{Templates, expand_concurrency, expand_volumes_non_empty}
use unified_cd.Store.Locks.{acquire_locks}
use unified_cd.Store.Queue.{
  spec_or_empty, is_unresolved, fail_run, has_key, queued_row, with_locks, with_volumes,
  with_concurrency, queue_row, try_queue_run,
}

-- The run is pending, its templates expand, and its locks are free: it gets them.
pub record IsQueued (tpl : Templates) (r : Text) (spec : RunSpec) (params : Table Text) (t : Tables)
    (u : Tables) : Type 0 where
  pub row : RunRow
  pub concurrency : Option Concurrency
  pub volumes : List (List Text)
  pub locks : Locks
  pub values : Table Text
  pub found : t.runs r ≡ some row
  pub was_pending : same_status row.status pending ≡ true
  pub expanded : expand_concurrency tpl spec.concurrency params ≡ some concurrency
  pub named : expand_volumes_non_empty tpl spec.volumes params ≡ some volumes
  pub acquired : acquire_locks concurrency r t.locks ≡ some (locks, values)
  pub result :
      u
      ≡ record t { runs = (set_run t r (some (queued_row row volumes values))).runs; locks = locks }

pub data Outcome (tpl : Templates) (r : Text) (spec : RunSpec) (params : Table Text) (t : Tables)
    (res : Tables × Bool) : Type 0 where
  left_alone : res ≡ (t, false) → Outcome tpl r spec params t res
  run_failed :
      (message : Text) → res ≡ (fail_run r message t, false) → Outcome tpl r spec params t res
  run_queued : IsQueued tpl r spec params t res.0 → res.1 ≡ true → Outcome tpl r spec params t res

module _ (tpl : Templates) (r : Text) (spec : RunSpec) (params : Table Text) (t : Tables) where
  with_locks-Outcome :
      (row : RunRow) (c : Option Concurrency) (volumes : List (List Text))
      (got : Option (Locks × Table Text))
      → t.runs r ≡ some row
      → same_status row.status pending ≡ true
      → expand_concurrency tpl spec.concurrency params ≡ some c
      → expand_volumes_non_empty tpl spec.volumes params ≡ some volumes
      → acquire_locks c r t.locks ≡ got
      → Outcome tpl r spec params t (with_locks r row params volumes t got)
  with_locks-Outcome row c volumes none found was ec ev ea = left_alone refl
  with_locks-Outcome row c volumes (some (locks, values)) found was ec ev ea =
      elim (Bool-cases (has_key params values)) [
        | inl conflict ↦ rw conflict (run_failed _ refl)
        | inr free ↦ rw free (
            run_queued
              (record {
                row = row;
                concurrency = c;
                volumes = volumes;
                locks = locks;
                values = values;
                found = found;
                was_pending = was;
                expanded = ec;
                named = ev;
                acquired = ea;
                result = refl;
              })
              refl)
      ]

  with_volumes-Outcome :
      (row : RunRow) (c : Option Concurrency) (got : Option (List (List Text)))
      → t.runs r ≡ some row
      → same_status row.status pending ≡ true
      → expand_concurrency tpl spec.concurrency params ≡ some c
      → expand_volumes_non_empty tpl spec.volumes params ≡ got
      → Outcome tpl r spec params t (with_volumes tpl r row params c t got)
  with_volumes-Outcome row c none found was ec ev = run_failed _ refl
  with_volumes-Outcome row c (some volumes) found was ec ev =
      with_locks-Outcome row c volumes (acquire_locks c r t.locks) found was ec ev refl

  with_concurrency-Outcome :
      (row : RunRow) (got : Option (Option Concurrency))
      → t.runs r ≡ some row
      → same_status row.status pending ≡ true
      → expand_concurrency tpl spec.concurrency params ≡ got
      → Outcome tpl r spec params t (with_concurrency tpl r row spec params t got)
  with_concurrency-Outcome row none found was ec = run_failed _ refl
  with_concurrency-Outcome row (some c) found was ec =
      with_volumes-Outcome row c (expand_volumes_non_empty tpl spec.volumes params) found was ec
        refl

  queue_row-Outcome :
      (o : Option RunRow)
      → t.runs r ≡ o
      → Outcome tpl r spec params t (queue_row tpl r spec params t o)
  queue_row-Outcome none found = left_alone refl
  queue_row-Outcome (some row) found = elim (Bool-cases (same_status row.status pending)) [
    | inr moved ↦ rw moved (left_alone refl)
    | inl was ↦ elim (Bool-cases (any is_unresolved spec.uses)) [
      | inl unresolved ↦ rw (was, unresolved) (left_alone refl)
      | inr resolved ↦
          rw (was, resolved)
            (with_concurrency-Outcome row (expand_concurrency tpl spec.concurrency params) found was
              refl)
    ]
  ]

pub try_queue_run-Outcome :
    (tpl : Templates) (r : Text) (spec : Option RunSpec) (params : Table Text) (t : Tables)
    → Outcome tpl r (spec_or_empty spec) params t (try_queue_run tpl r spec params t)
unfolding try_queue_run
try_queue_run-Outcome tpl r spec params t =
    queue_row-Outcome tpl r (spec_or_empty spec) params t (t.runs r) refl
