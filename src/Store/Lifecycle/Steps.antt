-- ===== src/Store/Lifecycle/Steps.antt =====
-- The runs and their locks as a system: the statements of the program that change a run's status,
-- claim, spec or locks, as steps in any order, by any caller. RenameJob changes no column of these
-- rows; AcquireMutex, ReleaseMutex, UpsertSemaphorePool, AcquireSemaphore and ReleaseSemaphore, which
-- only tests call, are no steps.
use unified_cd.Prelude.{
  ◌≡◌, refl, sym, ◌∙◌, Bool, true, false, Option, none, some, arith, if◌then◌else◌, Bool-cases, inl,
  inr, Text, text_eq, text_eq_iff, Table,
}
use unified_cd.Store.Tables.{RunStatus, RunSpec, RunRow, Tables, set_run, live_row, live}
use unified_cd.Store.Expand.{Templates}
use unified_cd.Store.Locks.{release_locks}
use unified_cd.Store.Locks.Held.{holds_mutex, holds_slot, Gives}
use unified_cd.Store.Locks.Acquired.{holds_mutex-release, holds_slot-release}
use unified_cd.Store.Lifecycle.{
  done, create_run, claim_run, requeue_claimed_run, mark_run_running, update_run_spec,
  finish_run_from, delete_run,
}
use unified_cd.Store.Queue.{try_queue_run}

pub data Step (tpl : Templates) (t : Tables) : Tables → Type 0 where
  create :
      (r : Text) (spec : Option RunSpec) (params : Table Text)
      → t.runs r ≡ none
      → Step tpl t (create_run r spec params t)
  queue :
      (r : Text) (spec : Option RunSpec) (params : Table Text)
      → Step tpl t (try_queue_run tpl r spec params t).0
  claim : (agent r : Text) → Step tpl t (claim_run agent r t).0
  requeue : (r agent : Text) → Step tpl t (requeue_claimed_run r agent t).0
  mark_running : (r : Text) → Step tpl t (mark_run_running r t)
  respec : (r : Text) (spec : RunSpec) → Step tpl t (update_run_spec r (some spec) t)
  finish :
      (r : Text) (expected : Option RunStatus) (status : RunStatus) {result : Tables × Bool}
      → finish_run_from r expected status t ≡ done result
      → Step tpl t result.0
  delete : (r : Text) → Step tpl t (delete_run r t)

pub data Reach (tpl : Templates) (t : Tables) : Tables → Type 0 where
  here : Reach tpl t t
  later : {u v : Tables} → Reach tpl t u → Step tpl u v → Reach tpl t v

-- Locks are held by runs that are queued or running, and by no other.
pub record IsLocked (t : Tables) : Type 0 where
  pub mutex_live : (h m : Text) → holds_mutex h t.locks m ≡ true → live t h ≡ true
  pub slot_live : (h p : Text) → holds_slot h t.locks p ≡ true → live t h ≡ true

-- The other runs are as they were.
pub live-set_run :
    (t : Tables) (r h : Text) (row : Option RunRow)
    → live (set_run t r row) h ≡ (if text_eq r h then live_row row else live t h)
unfolding live
live-set_run t r h row = ground arith

-- From `t` to `u` the run `r` may have got locks, is then live, and nobody else has changed.
pub record Grants (r : Text) (t u : Tables) : Type 0 where
  pub gives : Gives r t.locks u.locks
  pub self : live u r ≡ true
  pub others : (h : Text) → live t h ≡ true → live u h ≡ true

-- From `t` to `u` the run `r` has lost its locks, and nobody else has changed.
pub record Frees (r : Text) (t u : Tables) : Type 0 where
  pub locks : u.locks ≡ release_locks r t.locks
  pub others : (h : Text) → text_eq r h ≡ false → live u h ≡ live t h

-- What a step does to the locks and to who is live.
pub data Effect (t u : Tables) : Type 0 where
  quiet : u.locks ≡ t.locks → ((h : Text) → live t h ≡ true → live u h ≡ true) → Effect t u
  grants : (r : Text) → Grants r t u → Effect t u
  frees : (r : Text) → Frees r t u → live u r ≡ false → Effect t u

Grants-IsLocked : (r : Text) (t u : Tables) → Grants r t u → IsLocked t → IsLocked u
Grants-IsLocked r t u g v = record {
  mutex_live = λ h m e. elim (Bool-cases (text_eq r h)) [
    | inl mine ↦ let same : r ≡ h = (text_eq_iff r h).0 mine in rw (← same) g.self
    | inr other ↦ g.others h (v.mutex_live h m (g.gives.mutex_old h m other e))
  ];
  slot_live = λ h p e. elim (Bool-cases (text_eq r h)) [
    | inl mine ↦ let same : r ≡ h = (text_eq_iff r h).0 mine in rw (← same) g.self
    | inr other ↦ g.others h (v.slot_live h p (g.gives.slot_old h p other e))
  ];
}

-- A Boolean test that was passed behind another.
kept_half : (a b : Bool) → (if a then false else b) ≡ true → (a ≡ false) × (b ≡ true)
kept_half true b e = cc
kept_half false b e = (refl, e)

Frees-IsLocked : (r : Text) (t u : Tables) → Frees r t u → IsLocked t → IsLocked u
Frees-IsLocked r t u f v = record {
  mutex_live = λ h m e.
      let parts =
        kept_half (text_eq r h) (holds_mutex h t.locks m)
          (sym (holds_mutex-release r h m t.locks) ∙ (rw f.locks at e)) in
      f.others h parts.0 ∙ v.mutex_live h m parts.1;
  slot_live = λ h p e.
      let parts =
        kept_half (text_eq r h) (holds_slot h t.locks p)
          (sym (holds_slot-release r h p t.locks) ∙ (rw f.locks at e)) in
      f.others h parts.0 ∙ v.slot_live h p parts.1;
}

pub Effect-IsLocked : {t u : Tables} → Effect t u → IsLocked t → IsLocked u
Effect-IsLocked (quiet same kept) v = record {
  mutex_live = λ h m e. kept h (v.mutex_live h m (rw same at e));
  slot_live = λ h p e. kept h (v.slot_live h p (rw same at e));
}
Effect-IsLocked {t} {u} (grants r g) v = Grants-IsLocked r t u g v
Effect-IsLocked {t} {u} (frees r f gone) v = Frees-IsLocked r t u f v
