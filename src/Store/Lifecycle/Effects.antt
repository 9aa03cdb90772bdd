-- ===== src/Store/Lifecycle/Effects.antt =====
-- What each statement does to the locks and to the runs that may hold them.
use unified_cd.Prelude.{
  ◌≡◌, refl, sym, ◌∙◌, Bool, true, false, not, ◌&&◌, List, [], ◌∷◌, ◌++◌, Option, none, some, arith,
  Bool-cases, inl, inr, Text, text_eq, text_eq_iff, text_eq_refl, Table,
}
use unified_cd.Store.Tables.{
  RunStatus, pending, queued, running, succeeded, failed, cancelled, is_terminal, is_live, RunSpec,
  RunRow, Tables, set_run, live_row, live,
}
use unified_cd.Store.Expand.{Templates}
use unified_cd.Store.Locks.{release_locks}
use unified_cd.Store.Locks.Acquired.{acquire_locks-inv}
use unified_cd.Store.Lifecycle.{
  StoreResult, refused, done, change_row, cas_row, after_cas, expects, create_run, claim_run,
  requeue_claimed_run, mark_run_running, update_run_spec, finish_run_from, finish_run, delete_run,
}
use unified_cd.Store.Lifecycle.Steps.{
  Step, create, queue, claim, requeue, mark_running, respec, finish, delete, Reach, here, later,
  IsLocked, live-set_run, Effect, quiet, grants, frees, Effect-IsLocked,
}
use unified_cd.Store.Queue.Outcome.{
  IsQueued, Outcome, left_alone, run_failed, run_queued, try_queue_run-Outcome,
}
use unified_cd.Store.Queue.{spec_or_empty, after_finish, logged, fail_run}

-- A run whose new row is live if the old one was.
set_run-quiet :
    (t : Tables) (r : Text) (row : Option RunRow)
    → (live t r ≡ true → live_row row ≡ true)
    → (h : Text) → live t h ≡ true
    → live (set_run t r row) h ≡ true
set_run-quiet t r row up h l = elim (Bool-cases (text_eq r h)) [
  | inl mine ↦
      let same : r ≡ h = (text_eq_iff r h).0 mine in
      live-set_run t r h row ∙ rw mine (up (rw same l))
  | inr other ↦ live-set_run t r h row ∙ rw other l
]

change_row-Effect :
    (r : Text) (test : RunRow → Bool) (f : RunRow → RunRow) (t : Tables) (o : Option RunRow)
    → live t r ≡ live_row o
    → ((row : RunRow)
        → test row ≡ true
        → live_row (some row) ≡ true
        → live_row (some (f row)) ≡ true)
    → Effect t (change_row r test f t o).0
change_row-Effect r test f t none e up = quiet refl (λ h l. l)
change_row-Effect r test f t (some row) e up = elim (Bool-cases (test row)) [
  | inl yes_test ↦
      rw yes_test (quiet refl (set_run-quiet t r (some (f row)) (λ l. up row yes_test (sym e ∙ l))))
  | inr no_test ↦ rw no_test (quiet refl (λ h l. l))
]

live-is : (t : Tables) (r : Text) → live t r ≡ live_row (t.runs r)
unfolding live
live-is t r = refl

-- A run that is gone or terminal may hold no locks, and has lost those it held.
dead-Effect :
    (r : Text) (t : Tables) (row : Option RunRow)
    → live_row row ≡ false
    → Effect t (record (set_run t r row) { locks = release_locks r t.locks })
unfolding live
dead-Effect r t row dead =
    frees r (record { locks = refl; others = λ h other. rw other refl }) (rw (text_eq_refl r) dead)

terminal-dead : (s : RunStatus) → is_terminal s ≡ true → is_live s ≡ false
unfolding is_terminal is_live
terminal-dead succeeded h = refl
terminal-dead failed h = refl
terminal-dead cancelled h = refl
terminal-dead pending h = cc
terminal-dead queued h = cc
terminal-dead running h = cc

cas-Effect :
    (r : Text) (test : RunRow → Bool) (f : RunRow → RunRow) (t : Tables) (o : Option RunRow)
    → ((row : RunRow) → live_row (some (f row)) ≡ false)
    → Effect t (after_cas r (change_row r test f t o)).0
cas-Effect r test f t none down = quiet refl (λ h l. l)
cas-Effect r test f t (some row) down = elim (Bool-cases (test row)) [
  | inl yes_test ↦ rw yes_test (dead-Effect r t (some (f row)) (down row))
  | inr no_test ↦ rw no_test (quiet refl (λ h l. l))
]

done-inj {ℓ} : {A : Type ℓ} {x y : A} → done x ≡ done y → x ≡ y
done-inj e = cc

finish-Effect :
    (r : Text) (expected : Option RunStatus) (status : RunStatus) (t : Tables)
    {result : Tables × Bool}
    → finish_run_from r expected status t ≡ done result
    → Effect t result.0
unfolding finish_run_from
finish-Effect r expected status t {result} e = elim (Bool-cases (is_terminal status)) [
  | inl end ↦
      let at_end : done (after_cas r (cas_row r expected status t (t.runs r))) ≡ done result =
        rw end at e in
      rw (← done-inj at_end) (
        cas-Effect r (λ row. not (is_terminal row.status) && expects expected row.status)
          (λ row. record row { status = status }) t (t.runs r) (λ row. terminal-dead status end))
  | inr open_status ↦ let no_way : refused _ ≡ done result = rw open_status at e in cc
]

-- Whether the run's log has a line more makes no difference to the locks.
unlogged :
    {t u : Tables} (lines : List (Text × Text))
    → Effect (record t { system_log = lines }) u
    → Effect t u
unfolding live
unlogged lines (quiet same kept) = quiet same kept
unlogged lines (grants r g) =
    grants r (record { gives = g.gives; self = g.self; others = g.others })
unlogged lines (frees r f gone) = frees r (record { locks = f.locks; others = f.others }) gone

after_finish-Effect :
    (r : Text) (t : Tables) (res : StoreResult (Tables × Bool))
    → finish_run r failed t ≡ res
    → Effect t (after_finish t res)
unfolding finish_run
after_finish-Effect r t (refused why) e = quiet refl (λ h l. l)
after_finish-Effect r t (done result) e = finish-Effect r none failed t e

pub fail_run-Effect : (r message : Text) (t : Tables) → Effect t (fail_run r message t)
unfolding fail_run
fail_run-Effect r message t =
    unlogged (t.system_log ++ (r, message) ∷ [])
      (after_finish-Effect r (logged r message t) (finish_run r failed (logged r message t)) refl)

queued-Effect :
    (tpl : Templates) (r : Text) (spec : RunSpec) (params : Table Text) (t u : Tables)
    → IsQueued tpl r spec params t u
    → Effect t u
unfolding live is_live
queued-Effect tpl r spec params t u q = rw q.result (
    grants r (record {
      gives = (acquire_locks-inv q.concurrency r t.locks q.acquired).0;
      self = rw (text_eq_refl r);
      others = λ h l. ground arith;
    }))

queue-Effect :
    (tpl : Templates) (r : Text) (spec : RunSpec) (params : Table Text) (t : Tables)
    (res : Tables × Bool)
    → Outcome tpl r spec params t res
    → Effect t res.0
queue-Effect tpl r spec params t res (left_alone e) = rw e (quiet refl (λ h l. l))
queue-Effect tpl r spec params t res (run_failed message e) = rw e (fail_run-Effect r message t)
queue-Effect tpl r spec params t res (run_queued q e) = queued-Effect tpl r spec params t res.0 q

create-Effect :
    (r : Text) (spec : Option RunSpec) (params : Table Text) (t : Tables)
    → t.runs r ≡ none
    → Effect t (create_run r spec params t)
unfolding create_run
create-Effect r spec params t fresh =
    quiet refl (
      set_run-quiet t r _ (λ l. let no_way : false ≡ true = sym (live-is t r ∙ rw fresh) ∙ l in cc))

not_terminal_live :
    (row : RunRow)
    → live_row (some row) ≡ true
    → live_row (some (record row { status = running })) ≡ true
unfolding is_live
not_terminal_live row l = refl

-- Every statement has one of the three effects.
pub Step-Effect : {tpl : Templates} {t u : Tables} → Step tpl t u → Effect t u
unfolding claim_run requeue_claimed_run mark_run_running update_run_spec delete_run is_live live
Step-Effect {t} (create r spec params fresh) = create-Effect r spec params t fresh
Step-Effect {tpl} {t} (queue r spec params) =
    queue-Effect tpl r (spec_or_empty spec) params t _ (try_queue_run-Outcome tpl r spec params t)
Step-Effect {t} (claim agent r) = change_row-Effect r _ _ t (t.runs r) refl (λ row e l. refl)
Step-Effect {t} (requeue r agent) = change_row-Effect r _ _ t (t.runs r) refl (λ row e l. refl)
Step-Effect {t} (mark_running r) = change_row-Effect r _ _ t (t.runs r) refl (λ row e l. refl)
Step-Effect {t} (respec r spec) = change_row-Effect r _ _ t (t.runs r) refl (λ row e l. l)
Step-Effect {t} (finish r expected status e) = finish-Effect r expected status t e
Step-Effect {t} (delete r) = dead-Effect r t none refl

-- Through any statements in any order, if at the start every mutex and every slot that is held is
-- held by a run that is queued or running, then so it is at the end.
pub Reach-IsLocked : {tpl : Templates} {t u : Tables} → Reach tpl t u → IsLocked t → IsLocked u
Reach-IsLocked here v = v
Reach-IsLocked (later path step) v = Effect-IsLocked (Step-Effect step) (Reach-IsLocked path v)
