-- ===== src/Store/Lifecycle/Exclusion.antt =====
-- A lock excludes other runs for as long as its holder is queued or running.
use unified_cd.Prelude.{
  ◌≡◌, refl, sym, ◌∙◌, Bool, true, false, [], ◌∷◌, Option, none, some, Bool-cases, inl, inr,
  is_empty, Text, text_eq, text_eq_iff, Table, ap,
}
use unified_cd.Store.Tables.{RunSpec, Concurrency, Locks, Tables, live}
use unified_cd.Store.Expand.{Templates, expand_concurrency}
use unified_cd.Store.Locks.{acquire_mutex, acquire_locks}
use unified_cd.Store.Locks.Held.{holds_mutex, holds_slot, >>=-some, some-inj, insert_holder-inv}
use unified_cd.Store.Locks.Acquired.{
  HoldsMutex, HoldsAll, acquire_locks-inv, holds_mutex-release, holds_slot-release,
}
use unified_cd.Store.Lifecycle.Steps.{Step, Effect, quiet, grants, frees}
use unified_cd.Store.Lifecycle.Effects.{Step-Effect}
use unified_cd.Store.Queue.{spec_or_empty, try_queue_run}
use unified_cd.Store.Queue.Outcome.{
  IsQueued, Outcome, left_alone, run_failed, run_queued, try_queue_run-Outcome,
}

-- Steps after which the run `r` is still queued or running, one after the other.
pub data Through (tpl : Templates) (r : Text) (t : Tables) : Tables → Type 0 where
  start : Through tpl r t t
  onward : {u v : Tables} → Through tpl r t u → Step tpl u v → live v r ≡ true → Through tpl r t v

Effect-keeps :
    {t u : Tables} (r m : Text)
    → Effect t u
    → live u r ≡ true
    → holds_mutex r t.locks m ≡ true
    → holds_mutex r u.locks m ≡ true
Effect-keeps r m (quiet same kept) l h = rw same h
Effect-keeps r m (grants k g) l h = g.gives.mutex_kept r m h
Effect-keeps {t} {u} r m (frees k f gone) l h = elim (Bool-cases (text_eq k r)) [
  | inl mine ↦
      let same : k ≡ r = (text_eq_iff k r).0 mine in
      let dead : live u r ≡ false = rw same at gone in cc
  | inr other ↦ rw f.locks (holds_mutex-release k r m t.locks ∙ rw other h)
]

Effect-keeps_slot :
    {t u : Tables} (r p : Text)
    → Effect t u
    → live u r ≡ true
    → holds_slot r t.locks p ≡ true
    → holds_slot r u.locks p ≡ true
Effect-keeps_slot r p (quiet same kept) l h = rw same h
Effect-keeps_slot r p (grants k g) l h = g.gives.slot_kept r p h
Effect-keeps_slot {t} {u} r p (frees k f gone) l h = elim (Bool-cases (text_eq k r)) [
  | inl mine ↦
      let same : k ≡ r = (text_eq_iff k r).0 mine in
      let dead : live u r ≡ false = rw same at gone in cc
  | inr other ↦ rw f.locks (holds_slot-release k r p t.locks ∙ rw other h)
]

pub Through-holds :
    {tpl : Templates} {r : Text} {t u : Tables} (m : Text)
    → Through tpl r t u
    → holds_mutex r t.locks m ≡ true
    → holds_mutex r u.locks m ≡ true
Through-holds m start h = h
Through-holds {r} m (onward path step l) h =
    Effect-keeps r m (Step-Effect step) l (Through-holds m path h)

pub Through-holds_slot :
    {tpl : Templates} {r : Text} {t u : Tables} (p : Text)
    → Through tpl r t u
    → holds_slot r t.locks p ≡ true
    → holds_slot r u.locks p ≡ true
Through-holds_slot p start h = h
Through-holds_slot {r} p (onward path step l) h =
    Effect-keeps_slot r p (Step-Effect step) l (Through-holds_slot p path h)

acquire_mutex-free :
    (m r : Text) (l : Locks) {l' : Locks}
    → is_empty m ≡ false
    → acquire_mutex m r l ≡ some l'
    → l.mutex_holders m ≡ none
acquire_mutex-free [] r l named e = cc
acquire_mutex-free (c ∷ m) r l named e = (insert_holder-inv (c ∷ m) r l e).0

acquire_locks-free :
    (c : Concurrency) (r : Text) (l : Locks) {out : Locks × Table Text}
    → is_empty c.mutex ≡ false
    → acquire_locks (some c) r l ≡ some out
    → l.mutex_holders c.mutex ≡ none
unfolding acquire_locks
acquire_locks-free c r l named e =
    let (k, first, rest) = >>=-some (acquire_mutex c.mutex r l) _ e in
    acquire_mutex-free c.mutex r l named first

holds_mutex-none : (r m : Text) (l : Locks) → l.mutex_holders m ≡ none → holds_mutex r l m ≡ false
unfolding holds_mutex
holds_mutex-none r m l e = rw e

HoldsMutex-named :
    (r : Text) (l : Locks) (m : Text)
    → is_empty m ≡ false
    → HoldsMutex r l m
    → holds_mutex r l m ≡ true
HoldsMutex-named r l [] named h = cc
HoldsMutex-named r l (c ∷ m) named h = h

module _ (tpl : Templates) (r : Text) (spec : Option RunSpec) (params : Table Text)
    (t : Tables) where
  -- A run that was queued has all the locks of its concurrency.
  queued-IsQueued :
      (res : Tables × Bool)
      → Outcome tpl r (spec_or_empty spec) params t res
      → res.1 ≡ true
      → IsQueued tpl r (spec_or_empty spec) params t res.0
  queued-IsQueued res (left_alone e) was = let no_way : false ≡ true = rw e at was in cc
  queued-IsQueued res (run_failed m e) was = let no_way : false ≡ true = rw e at was in cc
  queued-IsQueued res (run_queued q e) was = q

  module _ (c : Option Concurrency)
      (expanded : expand_concurrency tpl (spec_or_empty spec).concurrency params ≡ some c)
      (was : (try_queue_run tpl r spec params t).1 ≡ true) where
    was_queued : IsQueued tpl r (spec_or_empty spec) params t (try_queue_run tpl r spec params t).0
    was_queued =
        queued-IsQueued (try_queue_run tpl r spec params t)
          (try_queue_run-Outcome tpl r spec params t) was

    same_concurrency : was_queued.concurrency ≡ c
    same_concurrency = some-inj (sym was_queued.expanded ∙ expanded)

    -- A run that was queued holds the mutex that its concurrency expands to, if that has a name, a
    -- slot of the pool of each semaphore, and one candidate of each or-lock.
    pub try_queue_run-HoldsAll : HoldsAll r (try_queue_run tpl r spec params t).0.locks c
    try_queue_run-HoldsAll =
        let all = (acquire_locks-inv was_queued.concurrency r t.locks was_queued.acquired).1 in
        let there : (try_queue_run tpl r spec params t).0.locks ≡ was_queued.locks =
          ap (λ (u : Tables). u.locks) was_queued.result in
        rw (there, ← same_concurrency) all

-- A flag that is not true.
refuted : (b : Bool) → (b ≡ true → true ≡ false) → b ≡ false
refuted true h = h refl
refuted false h = refl

-- Once a run was queued with a named mutex, and as long as it stays queued or running through any
-- statements in any order, an attempt to queue any run whose concurrency expands to that mutex
-- does not queue it.
pub mutual_exclusion :
    (tpl : Templates) (r other : Text) (spec spec' : Option RunSpec) (params params' : Table Text)
    (c d : Concurrency) (t u : Tables)
    → expand_concurrency tpl (spec_or_empty spec).concurrency params ≡ some (some c)
    → is_empty c.mutex ≡ false
    → (try_queue_run tpl r spec params t).1 ≡ true
    → Through tpl r (try_queue_run tpl r spec params t).0 u
    → expand_concurrency tpl (spec_or_empty spec').concurrency params' ≡ some (some d)
    → d.mutex ≡ c.mutex
    → (try_queue_run tpl other spec' params' u).1 ≡ false
mutual_exclusion tpl r other spec spec' params params' c d t u ec named was path ed same =
    refuted (try_queue_run tpl other spec' params' u).1 λ again.
      let held = Through-holds c.mutex path (
        HoldsMutex-named r _ c.mutex named
          (try_queue_run-HoldsAll tpl r spec params t (some c) ec was).0) in
      let q = was_queued tpl other spec' params' u (some d) ed again in
      let conc = same_concurrency tpl other spec' params' u (some d) ed again in
      let got : acquire_locks (some d) other u.locks ≡ some (q.locks, q.values) =
        rw (← conc) q.acquired in
      let named_too : is_empty d.mutex ≡ false = rw same named in
      let free : u.locks.mutex_holders c.mutex ≡ none =
        rw (← same) (acquire_locks-free d other u.locks named_too got) in
      sym held ∙ holds_mutex-none r c.mutex u.locks free
