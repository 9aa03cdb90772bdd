-- ===== src/Store/Tables.antt =====
-- The tables behind internal/store/postgres.go that hold runs and their locks, and the rows that
-- the statements read and write. A table with a primary key is a function of the key. A database
-- error is not modelled: the transaction that meets one leaves the tables as they were.
use unified_cd.Prelude.{
  ℕ, Bool, true, false, List, Option, none, some, if◌then◌else◌, Text, text_eq, Table,
}

pub data RunStatus : Type 0 where
  pending queued running succeeded failed cancelled : RunStatus

unfoldable pub is_terminal : RunStatus → Bool
is_terminal succeeded = true
is_terminal failed = true
is_terminal cancelled = true
is_terminal _ = false

-- Whether a run of this status may hold locks.
unfoldable pub is_live : RunStatus → Bool
is_live queued = true
is_live running = true
is_live _ = false

unfoldable pub same_status : RunStatus → RunStatus → Bool
same_status pending pending = true
same_status queued queued = true
same_status running running = true
same_status succeeded succeeded = true
same_status failed failed = true
same_status cancelled cancelled = true
same_status _ _ = false

-- An empty literal means the expression.
pub record ForeachSource : Type 0 where
  pub literal : List Text
  pub expr : Text

-- The capacity is an int; one below 1 gives no slot.
pub record Semaphore : Type 0 where
  pub pool : Text
  pub capacity : ℕ

pub record OrLock : Type 0 where
  pub name : Text
  pub source : ForeachSource

pub record Concurrency : Type 0 where
  pub mutex : Text
  pub semaphores : List Semaphore
  pub or_locks : List OrLock

-- What queueing reads of a run's spec: for each step the job that it uses, if any, the locks, and
-- for each volume its candidate names.
pub record RunSpec : Type 0 where
  pub uses : List (Option Text)
  pub concurrency : Option Concurrency
  pub volumes : List (List Text)

-- A spec that does not decode is `none`.
pub record RunRow : Type 0 where
  pub spec : Option RunSpec
  pub params : Table Text
  pub status : RunStatus
  pub claimed_by : Option Text
  pub required_volumes : List (List Text)

-- `slots p` lists the slots of the pool `p` by their number from 1: the run in it, if any.
pub record Locks : Type 0 where
  pub mutex_holders : Text → Option Text
  pub slots : Text → List (Option Text)

pub record Tables : Type 0 where
  pub runs : Text → Option RunRow
  pub locks : Locks
  pub system_log : List (Text × Text)

-- A function changed at one key.
abbrev pub update {ℓ} : {V : Type ℓ} → (Text → V) → Text → V → Text → V
update f k v j = if text_eq k j then v else f j

abbrev pub set_run : Tables → Text → Option RunRow → Tables
set_run t r row = record t { runs = update t.runs r row }

abbrev pub live_row : Option RunRow → Bool
live_row none = false
live_row (some row) = is_live row.status

-- Whether a run exists and may hold locks.
unfoldable pub live : Tables → Text → Bool
live t r = live_row (t.runs r)

unfoldable pub get_run : Tables → Text → Option RunRow
get_run t r = t.runs r
