-- ===== src/Store/Locks.antt =====
-- The locks of runs (tables mutex_holders and named_lock_slots): taking and releasing them.
pub mod Held
pub mod Acquired
use unified_cd.Prelude.{
  ◌≡◌, refl, ℕ, zero, suc, ◌-◌, Bool, true, false, List, [], ◌∷◌, ◌++◌, map, Option, none, some,
  if◌then◌else◌, is_empty, length, Text, str, text_eq, Table, insert,
}
use unified_cd.Prelude.Spaces.{to_upper}
use unified_cd.Store.Tables.{Locks, Semaphore, OrLock, Concurrency, update}
use unified_cd.Store.Expand.{◌>>=◌}

-- INSERT INTO mutex_holders: the primary key refuses a second row for a name.
abbrev pub insert_free : Text → Text → Locks → Option Text → Option Locks
insert_free m r l (some holder) = none
insert_free m r l none = some (record l { mutex_holders = update l.mutex_holders m (some r) })

unfoldable pub insert_holder : Text → Text → Locks → Option Locks
insert_holder m r l = insert_free m r l (l.mutex_holders m)

unfoldable pub free_slots : ℕ → List (Option Text)
free_slots zero = []
free_slots (suc n) = none ∷ free_slots n

-- INSERT of the slots 1 to `capacity`, those that exist left as they are.
unfoldable pub upsert_slots : ℕ → List (Option Text) → List (Option Text)
unfolding free_slots
upsert_slots capacity slots = slots ++ free_slots (capacity - length slots)

abbrev pub before_taken : Option Text → Option (List (Option Text)) → Option (List (Option Text))
before_taken slot none = none
before_taken slot (some slots) = some (slot ∷ slots)

-- The free slot with the least number goes to the run.
unfoldable pub take_slot : Text → List (Option Text) → Option (List (Option Text))
take_slot r [] = none
take_slot r (none ∷ slots) = some (some r ∷ slots)
take_slot r (some holder ∷ slots) = before_taken (some holder) (take_slot r slots)

unfoldable pub acquire_semaphore : Text → Semaphore → Locks → Option Locks
unfolding upsert_slots take_slot
acquire_semaphore r nl l = do
  slots ← take_slot r (upsert_slots nl.capacity (l.slots nl.pool))
  some (record l { slots = update l.slots nl.pool slots })

unfoldable pub acquire_semaphores : Text → List Semaphore → Locks → Option Locks
unfolding acquire_semaphore
acquire_semaphores r [] l = some l
acquire_semaphores r (nl ∷ nls) l = do
  taken ← acquire_semaphore r nl l
  acquire_semaphores r nls taken

abbrev pub first_or : Option Locks → Text → Option (Locks × Text) → Option (Locks × Text)
first_or none candidate rest = rest
first_or (some l) candidate rest = some (l, candidate)

-- The first candidate that no run holds.
unfoldable pub acquire_candidate : Text → List Text → Locks → Option (Locks × Text)
unfolding insert_holder
acquire_candidate r [] l = none
acquire_candidate r (c ∷ cs) l = first_or (insert_holder c r l) c (acquire_candidate r cs l)

abbrev pub lock_variable : Text → Text
lock_variable name = to_upper name ++ str "_LOCK_VALUE"

-- `acquired == ""` ends the attempt, also where the candidate taken is the empty name.
unfoldable pub acquire_or_locks :
    Text → List OrLock → Locks → Table Text → Option (Locks × Table Text)
unfolding acquire_candidate insert to_upper
acquire_or_locks r [] l values = some (l, values)
acquire_or_locks r (ol ∷ ols) l values = do
  taken ← acquire_candidate r ol.source.literal l
  let rest = acquire_or_locks r ols taken.0 (insert (lock_variable ol.name) taken.1 values)
  if is_empty taken.1 then none else rest

abbrev pub acquire_mutex : Text → Text → Locks → Option Locks
acquire_mutex m r l = if is_empty m then some l else insert_holder m r l

-- All locks that the concurrency of a run asks for, or nothing.
unfoldable pub acquire_locks : Option Concurrency → Text → Locks → Option (Locks × Table Text)
unfolding acquire_semaphores acquire_or_locks insert_holder
acquire_locks none r l = some (l, [])
acquire_locks (some c) r l = do
  with_mutex ← acquire_mutex c.mutex r l
  with_slots ← acquire_semaphores r c.semaphores with_mutex
  acquire_or_locks r c.or_locks with_slots []

abbrev pub freed : Text → Option Text → Option Text
freed r none = none
freed r (some holder) = if text_eq holder r then none else some holder

-- DELETE FROM mutex_holders, and the slots of the run set to NULL.
unfoldable pub release_locks : Text → Locks → Locks
release_locks r l = record {
  mutex_holders = λ m. freed r (l.mutex_holders m);
  slots = λ p. map (freed r) (l.slots p);
}
