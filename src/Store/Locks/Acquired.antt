-- ===== src/Store/Locks/Acquired.antt =====
-- All that a successful acquisition took, and what a release leaves.
use unified_cd.Prelude.{
  ◌≡◌, true, false, List, [], ◌∷◌, map, Option, none, some, arith, if◌then◌else◌, is_empty, any,
  All, Text, text_eq, text_eq_iff, contains, Table, insert,
}
use unified_cd.Store.Tables.{Locks, Semaphore, OrLock, Concurrency}
use unified_cd.Store.Locks.{
  acquire_semaphore, acquire_semaphores, acquire_candidate, lock_variable, acquire_or_locks,
  acquire_mutex, acquire_locks, freed, release_locks,
}
use unified_cd.Store.Locks.Held.{
  is_holder, holds_mutex, holds_slot, Gives, Gives-refl, Gives-trans, >>=-some, some-inj,
  insert_holder-Gives, insert_holder-holds, acquire_semaphore-inv, acquire_candidate-inv,
}

abbrev pub HoldsPool : Text → Locks → Semaphore → Type 0
HoldsPool r l nl = holds_slot r l nl.pool ≡ true

abbrev pub HoldsMutex : Text → Locks → Text → Type 0
HoldsMutex r l m = if is_empty m then Unit {0} else holds_mutex r l m ≡ true

-- The run holds one candidate of an or-lock.
abbrev pub HoldsOne : Text → Locks → OrLock → Type 0
HoldsOne r l ol = (m : Text) × (contains ol.source.literal m ≡ true) × (holds_mutex r l m ≡ true)

-- The run holds all that its concurrency asks for.
abbrev pub HoldsAll : Text → Locks → Option Concurrency → Type 0
HoldsAll r l none = Unit {0}
HoldsAll r l (some c) =
    HoldsMutex r l c.mutex × All (HoldsPool r l) c.semaphores × All (HoldsOne r l) c.or_locks

pub acquire_semaphores-inv :
    (r : Text) (nls : List Semaphore) (l : Locks) {l' : Locks}
    → acquire_semaphores r nls l ≡ some l'
    → Gives r l l' × All (HoldsPool r l') nls
unfolding acquire_semaphores
acquire_semaphores-inv r [] l {l'} e = rw (← some-inj e) (Gives-refl r l, tt)
acquire_semaphores-inv r (nl ∷ nls) l e =
    let (k, first, rest) = >>=-some (acquire_semaphore r nl l) _ e in
    let (gives, mine) = acquire_semaphore-inv r nl l first in
    let (more, others) = acquire_semaphores-inv r nls k rest in
    (Gives-trans gives more, (more.slot_kept r nl.pool mine, others))

acquire_or_locks-step :
    (r : Text) (ols : List OrLock) (values next : Table Text) (taken : Locks × Text)
    {out : Locks × Table Text}
    → (if is_empty taken.1 then none else acquire_or_locks r ols taken.0 next) ≡ some out
    → acquire_or_locks r ols taken.0 next ≡ some out
acquire_or_locks-step r ols values next (l, []) e = cc
acquire_or_locks-step r ols values next (l, c ∷ name) e = e

pub acquire_or_locks-inv :
    (r : Text) (ols : List OrLock) (l : Locks) (values : Table Text) {out : Locks × Table Text}
    → acquire_or_locks r ols l values ≡ some out
    → Gives r l out.0 × All (HoldsOne r out.0) ols
unfolding acquire_or_locks
acquire_or_locks-inv r [] l values e = rw (← some-inj e) (Gives-refl r l, tt)
acquire_or_locks-inv r (ol ∷ ols) l values {out} e =
    let (taken, first, rest) = >>=-some (acquire_candidate r ol.source.literal l) _ e in
    let next = insert (lock_variable ol.name) taken.1 values in
    let (gives, listed, mine) = acquire_candidate-inv r ol.source.literal l first in
    let (more, others) =
      acquire_or_locks-inv r ols taken.0 next {out = out}
        (acquire_or_locks-step r ols values next taken rest) in
    (Gives-trans gives more, ((taken.1, listed, more.mutex_kept r taken.1 mine), others))

acquire_mutex-inv :
    (m r : Text) (l : Locks) {l' : Locks}
    → acquire_mutex m r l ≡ some l'
    → Gives r l l' × HoldsMutex r l' m
acquire_mutex-inv [] r l e = rw (← some-inj e) (Gives-refl r l, tt)
acquire_mutex-inv (c ∷ m) r l e =
    (insert_holder-Gives (c ∷ m) r l e, insert_holder-holds (c ∷ m) r l e)

HoldsMutex-kept :
    {r : Text} {l l' : Locks} (m : Text) → Gives r l l' → HoldsMutex r l m → HoldsMutex r l' m
HoldsMutex-kept [] g h = tt
HoldsMutex-kept {r} (c ∷ m) g h = g.mutex_kept r (c ∷ m) h

All-kept :
    {r : Text} {l l' : Locks} (nls : List Semaphore)
    → Gives r l l'
    → All (HoldsPool r l) nls
    → All (HoldsPool r l') nls
All-kept [] g h = tt
All-kept {r} (nl ∷ nls) g h = (g.slot_kept r nl.pool h.0, All-kept nls g h.1)

-- An acquisition takes all that the concurrency asks for, and takes nothing from another run.
pub acquire_locks-inv :
    (c : Option Concurrency) (r : Text) (l : Locks) {out : Locks × Table Text}
    → acquire_locks c r l ≡ some out
    → Gives r l out.0 × HoldsAll r out.0 c
unfolding acquire_locks
acquire_locks-inv none r l e = rw (← some-inj e) (Gives-refl r l, tt)
acquire_locks-inv (some c) r l {out} e =
    let (k, first, rest) = >>=-some (acquire_mutex c.mutex r l) _ e in
    let (j, second, last) = >>=-some (acquire_semaphores r c.semaphores k) _ rest in
    let (gives, mutex) = acquire_mutex-inv c.mutex r l first in
    let (more, pools) = acquire_semaphores-inv r c.semaphores k second in
    let (most, ones) = acquire_or_locks-inv r c.or_locks j [] {out = out} last in
    (
      Gives-trans gives (Gives-trans more most),
      (
        HoldsMutex-kept c.mutex (Gives-trans more most) mutex,
        All-kept c.semaphores most pools,
        ones,
      ),
    )

is_holder-freed :
    (r h : Text) (o : Option Text)
    → is_holder h (freed r o) ≡ (if text_eq r h then false else is_holder h o)
is_holder-freed r h none = ground arith
is_holder-freed r h (some k) = ground (arith, text_eq_iff k r, text_eq_iff r h, text_eq_iff k h)

any-freed :
    (r h : Text) (slots : List (Option Text))
    → any (is_holder h) (map (freed r) slots)
      ≡ (if text_eq r h then false else any (is_holder h) slots)
unfolding any
any-freed r h [] = ground arith
any-freed r h (s ∷ slots) = ground (arith, any-freed r h slots, is_holder-freed r h s)

-- After a release the run holds nothing, and every other run what it held.
pub holds_mutex-release :
    (r h m : Text) (l : Locks)
    → holds_mutex h (release_locks r l) m ≡ (if text_eq r h then false else holds_mutex h l m)
unfolding holds_mutex release_locks
holds_mutex-release r h m l = is_holder-freed r h (l.mutex_holders m)

pub holds_slot-release :
    (r h p : Text) (l : Locks)
    → holds_slot h (release_locks r l) p ≡ (if text_eq r h then false else holds_slot h l p)
unfolding holds_slot release_locks
holds_slot-release r h p l = any-freed r h (l.slots p)
