-- ===== src/Store/Lifecycle/Finish.antt =====
-- Finishing a run: the compare-and-set on its status, and what it leaves alone.
use unified_cd.Prelude.{
  ◌≡◌, refl, sym, ap, ◌∙◌, ◌⊎◌, Bool, true, false, not, ◌&&◌, Option, none, some, arith,
  if◌then◌else◌, Bool-cases, inl, inr, Text, text_eq, text_eq_iff, Table,
}
use unified_cd.Store.Tables.{
  RunStatus, pending, queued, running, succeeded, failed, cancelled, is_terminal, same_status,
  RunSpec, RunRow, Tables, set_run,
}
use unified_cd.Store.Expand.{Templates}
use unified_cd.Store.Locks.{release_locks}
use unified_cd.Store.Locks.Held.{some-inj}
use unified_cd.Store.Lifecycle.{
  StoreResult, refused, done, invalid_terminal_status, change_row, cas_row, after_cas, expects,
  create_run, claim_run, requeue_claimed_run, mark_run_running, update_run_spec, finish_run_from,
  finish_run, delete_run,
}
use unified_cd.Store.Lifecycle.Steps.{
  Step, create, queue, claim, requeue, mark_running, respec, finish, delete,
}
use unified_cd.Store.Queue.{spec_or_empty, after_finish, logged, fail_run}
use unified_cd.Store.Queue.Outcome.{
  Outcome, left_alone, run_failed, run_queued, try_queue_run-Outcome,
}

-- Whether a row may be finished by a caller that expects a status.
abbrev pub may_finish : Option RunStatus → Option RunRow → Bool
may_finish expected none = false
may_finish expected (some row) = not (is_terminal row.status) && expects expected row.status

abbrev pub finished_row : RunStatus → Option RunRow → Option RunRow
finished_row status none = none
finished_row status (some row) = some (record row { status = status })

-- The tables once a run was finished: its row has the status, its locks are free.
abbrev pub finished : Text → RunStatus → Tables → Tables
finished r status t = record (set_run t r (finished_row status (t.runs r))) {
  locks = release_locks r t.locks;
}

after_cas-eq :
    (r : Text) (expected : Option RunStatus) (status : RunStatus) (t : Tables) (o : Option RunRow)
    → after_cas r (cas_row r expected status t o) ≡ (
        if may_finish expected o
        then (
          record (set_run t r (finished_row status o)) { locks = release_locks r t.locks },
          true,
        )
        else (t, false))
after_cas-eq r expected status t none = refl
after_cas-eq r expected status t (some row) =
    elim (Bool-cases (not (is_terminal row.status) && expects expected row.status)) [
      | inl fits ↦ rw fits
      | inr moved ↦ rw moved
    ]

-- How a finish ends, by the status asked for and the row.
pub finish_run_from-cases :
    (r : Text) (expected : Option RunStatus) (status : RunStatus) (t : Tables)
    → finish_run_from r expected status t ≡ (
        if is_terminal status
        then done
            (if may_finish expected (t.runs r) then (finished r status t, true) else (t, false))
        else refused invalid_terminal_status)
unfolding finish_run_from
finish_run_from-cases r expected status t = elim (Bool-cases (is_terminal status)) [
  | inl end ↦ rw end (ap done (after_cas-eq r expected status t (t.runs r)))
  | inr open_status ↦ rw open_status
]

pub done-inj {ℓ} : {A : Type ℓ} {x y : A} → done x ≡ done y → x ≡ y
done-inj e = cc

-- A row that a statement may change only if its status is not terminal.
change_row-terminal :
    (k r : Text) (test : RunRow → Bool) (f : RunRow → RunRow) (t : Tables) (o : Option RunRow)
    (row : RunRow)
    → t.runs k ≡ o
    → t.runs r ≡ some row
    → test row ≡ false
    → (change_row k test f t o).0.runs r ≡ some row
change_row-terminal k r test f t none row ek er no_test = er
change_row-terminal k r test f t (some old) row ek er no_test = elim (Bool-cases (test old)) [
  | inr other ↦ rw other er
  | inl fits ↦ elim (Bool-cases (text_eq k r)) [
    | inr apart ↦ rw (fits, apart) er
    | inl mine ↦
        let same : k ≡ r = (text_eq_iff k r).0 mine in
        let both : some old ≡ some row = sym (rw same at ek) ∙ er in
        let clash : test row ≡ true = rw (← some-inj both) fits in cc
  ]
]

-- A terminal status is none of the others.
terminal-others :
    (s : RunStatus)
    → is_terminal s ≡ true
    → (same_status s pending ≡ false)
      × (same_status s queued ≡ false)
      × (same_status s running ≡ false)
unfolding is_terminal same_status
terminal-others succeeded h = (refl, refl, refl)
terminal-others failed h = (refl, refl, refl)
terminal-others cancelled h = (refl, refl, refl)
terminal-others pending h = cc
terminal-others queued h = cc
terminal-others running h = cc

pub after_cas-runs : (k r : Text) (res : Tables × Bool) → (after_cas k res).0.runs r ≡ res.0.runs r
after_cas-runs k r (t, true) = refl
after_cas-runs k r (t, false) = refl

no_change : (a b : Bool) → a ≡ true → (not a && b) ≡ false
no_change a b h = ground arith

finish-terminal :
    (k r : Text) (expected : Option RunStatus) (status : RunStatus) (t : Tables) (row : RunRow)
    {result : Tables × Bool}
    → finish_run_from k expected status t ≡ done result
    → t.runs r ≡ some row
    → is_terminal row.status ≡ true
    → result.0.runs r ≡ some row
unfolding finish_run_from
finish-terminal k r expected status t row {result} e er h = elim (Bool-cases (is_terminal status)) [
  | inr open_status ↦ let no_way : refused _ ≡ done result = rw open_status at e in cc
  | inl end ↦
      let at_end : done (after_cas k (cas_row k expected status t (t.runs k))) ≡ done result =
        rw end at e in
      rw (← done-inj at_end) (
        after_cas-runs k r (cas_row k expected status t (t.runs k))
        ∙ change_row-terminal k r
            (λ row. not (is_terminal row.status) && expects expected row.status)
            (λ row. record row { status = status }) t (t.runs k) row refl er
            (no_change (is_terminal row.status) (expects expected row.status) h))
]

after_finish-terminal :
    (k r : Text) (t : Tables) (row : RunRow) (res : StoreResult (Tables × Bool))
    → finish_run k failed t ≡ res
    → t.runs r ≡ some row
    → is_terminal row.status ≡ true
    → (after_finish t res).runs r ≡ some row
unfolding finish_run
after_finish-terminal k r t row (refused why) e er h = er
after_finish-terminal k r t row (done result) e er h = finish-terminal k r none failed t row e er h

queue-terminal :
    (tpl : Templates) (k r : Text) (spec : RunSpec) (params : Table Text) (t : Tables)
    (row : RunRow) (res : Tables × Bool)
    → Outcome tpl k spec params t res
    → t.runs r ≡ some row
    → is_terminal row.status ≡ true
    → res.0.runs r ≡ some row
unfolding fail_run
queue-terminal tpl k r spec params t row res (left_alone e) er h = rw e er
queue-terminal tpl k r spec params t row res (run_failed message e) er h = rw e (
    after_finish-terminal k r (logged k message t) row (finish_run k failed (logged k message t))
      refl er h)
queue-terminal tpl k r spec params t row res (run_queued q e) er h =
    elim (Bool-cases (text_eq k r)) [
      | inr apart ↦ rw (q.result, apart) er
      | inl mine ↦
          let same : k ≡ r = (text_eq_iff k r).0 mine in
          let both : some q.row ≡ some row = sym (rw same at q.found) ∙ er in
          let was : same_status row.status pending ≡ true = rw (← some-inj both) q.was_pending in
          let no_way : true ≡ false = sym was ∙ (terminal-others row.status h).0 in cc
    ]

-- After any statement a run that was terminal has the row that it had, or was deleted.
pub Step-terminal :
    {tpl : Templates} {t u : Tables} (r : Text) (row : RunRow)
    → Step tpl t u
    → t.runs r ≡ some row
    → is_terminal row.status ≡ true
    → (u.runs r ≡ some row) ⊎ (u.runs r ≡ none)
unfolding create_run claim_run requeue_claimed_run mark_run_running update_run_spec delete_run
Step-terminal {t} r row (create k spec params fresh) er h = elim (Bool-cases (text_eq k r)) [
  | inr apart ↦ inl (rw apart er)
  | inl mine ↦
      let same : k ≡ r = (text_eq_iff k r).0 mine in
      let no_way : some row ≡ none = sym er ∙ (rw same at fresh) in cc
]
Step-terminal {tpl} {t} r row (queue k spec params) er h = inl (
    queue-terminal tpl k r (spec_or_empty spec) params t row _
      (try_queue_run-Outcome tpl k spec params t) er h)
Step-terminal {t} r row (claim agent k) er h =
    inl (change_row-terminal k r _ _ t (t.runs k) row refl er (terminal-others row.status h).1)
Step-terminal {t} r row (requeue k agent) er h =
    inl (change_row-terminal k r _ _ t (t.runs k) row refl er (rw (terminal-others row.status h).2))
Step-terminal {t} r row (mark_running k) er h =
    inl (change_row-terminal k r _ _ t (t.runs k) row refl er (rw h))
Step-terminal {t} r row (respec k spec) er h =
    inl (change_row-terminal k r _ _ t (t.runs k) row refl er (terminal-others row.status h).0)
Step-terminal {t} r row (finish k expected status e) er h =
    inl (finish-terminal k r expected status t row e er h)
Step-terminal {t} r row (delete k) er h = elim (Bool-cases (text_eq k r)) [
  | inr apart ↦ inl (rw apart er)
  | inl mine ↦ inr (rw mine)
]
