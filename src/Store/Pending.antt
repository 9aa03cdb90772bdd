-- ===== src/Store/Pending.antt =====
-- The scan over the pending runs of internal/store/postgres.go, which goes on from a cursor. The
-- table's rows are given by their keys in the order of (created_at, id), as ORDER BY lists them.
pub mod Cursor
pub mod Sweep
use unified_cd.Prelude.{
  ℕ, zero, suc, Bool, true, false, ◌&&◌, ◌||◌, List, [], ◌∷◌, Option, none, some, ltb, ◌==◌,
  if◌then◌else◌, length, keep, Text, text_lt, Table,
}
use unified_cd.Prelude.Window.{take, last}
use unified_cd.Store.Tables.{pending, same_status, RunSpec, RunRow, Tables}
use unified_cd.Store.Expand.{Templates}
use unified_cd.Store.Queue.{try_queue_run}

-- The cursor is the key of the last run that was examined; a time stamp counts from an epoch that
-- is before every run, so that none is the zero time. An id is a UUID, which the database compares
-- by its bytes.
pub record PendingCursor : Type 0 where
  pub created_at : ℕ
  pub id : Text

unfoldable pub before : PendingCursor → PendingCursor → Bool
unfolding text_lt
before a b = ltb a.created_at b.created_at || (a.created_at == b.created_at && text_lt a.id b.id)

unfoldable pub is_past : Option PendingCursor → PendingCursor → Bool
unfolding before
is_past none k = true
is_past (some cursor) k = before cursor k

abbrev pub is_pending_row : Option RunRow → Bool
is_pending_row none = false
is_pending_row (some row) = same_status row.status pending

unfoldable pub is_pending : Tables → PendingCursor → Bool
unfolding same_status
is_pending t k = is_pending_row (t.runs k.id)

abbrev pub spec_at : Option RunRow → Option RunSpec
spec_at none = none
spec_at (some row) = row.spec

abbrev pub params_at : Option RunRow → Table Text
params_at none = []
params_at (some row) = row.params

-- The rows that the query returns.
unfoldable pub candidates :
    List PendingCursor → ℕ → Option PendingCursor → Tables → List PendingCursor
unfolding take keep is_pending is_past
candidates order limit after t = take limit (keep (λ k. is_pending t k && is_past after k) order)

-- Only a full batch has a cursor to go on from.
unfoldable pub next_cursor : ℕ → List PendingCursor → Option PendingCursor
unfolding last
next_cursor limit batch = if length batch == limit && ltb 0 limit then last batch else none

module _ (tpl : Templates) where
  -- `seen` is the tables as the query read them.
  unfoldable pub queue_batch : Tables → List PendingCursor → Tables → Tables × ℕ
  unfolding try_queue_run
  queue_batch seen [] t = (t, 0)
  queue_batch seen (k ∷ ks) t =
      let tried =
        try_queue_run tpl k.id (spec_at (seen.runs k.id)) (params_at (seen.runs k.id)) t in
      let rest = queue_batch seen ks tried.0 in (rest.0, if tried.1 then suc rest.1 else rest.1)

  -- The tables, how many runs were queued, and the next cursor.
  unfoldable pub transition_pending_to_queued_from :
      List PendingCursor → ℕ → Option PendingCursor → Tables → (Tables × ℕ) × Option PendingCursor
  unfolding candidates next_cursor queue_batch
  transition_pending_to_queued_from order limit after t =
      let batch = candidates order limit after t in (queue_batch t batch t, next_cursor limit batch)

  -- Always from the head.
  unfoldable pub transition_pending_to_queued : List PendingCursor → ℕ → Tables → Tables × ℕ
  unfolding transition_pending_to_queued_from
  transition_pending_to_queued order limit t =
      (transition_pending_to_queued_from order limit none t).0
