-- ===== src/Store/Lifecycle/Machine.antt =====
-- The life of a run as a state machine, and the statements as moves of it.
use unified_cd.Prelude.{
  ◌≡◌, refl, sym, ap, ◌∙◌, Bool, true, false, not, ◌&&◌, Option, none, some, arith, Bool-cases, inl,
  inr, Text, text_eq, text_eq_iff, Table,
}
use unified_cd.Store.Tables.{
  RunStatus, pending, queued, running, failed, is_terminal, same_status, RunSpec, RunRow, Tables,
  set_run,
}
use unified_cd.Store.Expand.{Templates}
use unified_cd.Store.Locks.Held.{some-inj}
use unified_cd.Store.Lifecycle.{
  StoreResult, refused, done, change_row, cas_row, after_cas, expects, is_claim_of, create_run,
  claim_run, requeue_claimed_run, mark_run_running, update_run_spec, finish_run_from, finish_run,
  delete_run,
}
use unified_cd.Store.Lifecycle.Steps.{
  Step, create, queue, claim, requeue, mark_running, respec, finish, delete,
}
use unified_cd.Store.Lifecycle.Finish.{after_cas-runs, done-inj}
use unified_cd.Store.Queue.{spec_or_empty, after_finish, logged, fail_run, queued_row}
use unified_cd.Store.Queue.Outcome.{
  Outcome, left_alone, run_failed, run_queued, try_queue_run-Outcome,
}

-- The moves of a run between two statuses, with who has claimed it. Whether the statement may take
-- a claim back is `back`.
pub data Move (back : Bool) (old new : RunRow) : Type 0 where
  stay : new.status ≡ old.status → new.claimed_by ≡ old.claimed_by → Move back old new
  enqueue :
      same_status old.status pending ≡ true
      → new.status ≡ queued
      → new.claimed_by ≡ old.claimed_by
      → Move back old new
  take :
      (agent : Text)
      → same_status old.status queued ≡ true
      → new.status ≡ running
      → new.claimed_by ≡ some agent
      → Move back old new
  give_back :
      back ≡ true
      → same_status old.status running ≡ true
      → new.status ≡ queued
      → new.claimed_by ≡ none
      → Move back old new
  start_running :
      is_terminal old.status ≡ false
      → new.status ≡ running
      → new.claimed_by ≡ old.claimed_by
      → Move back old new
  end :
      is_terminal old.status ≡ false
      → is_terminal new.status ≡ true
      → new.claimed_by ≡ old.claimed_by
      → Move back old new

-- Where a row comes from: a run that was there moved, or the run is new, created by the statement.
pub data Origin (back : Bool) (made : Option Text) (t : Tables) (r : Text) (new : RunRow)
    : Type 0 where
  moved : (old : RunRow) → t.runs r ≡ some old → Move back old new → Origin back made t r new
  born :
      made ≡ some r
      → t.runs r ≡ none
      → new.status ≡ pending
      → new.claimed_by ≡ none
      → Origin back made t r new

kept :
    {back : Bool} {made : Option Text} {t : Tables} {r : Text} {new : RunRow}
    → t.runs r ≡ some new
    → Origin back made t r new
kept {new} e = moved new e (stay refl refl)

set_run-Origin :
    {back : Bool} {made : Option Text} (t : Tables) (k r : Text) (row new : RunRow)
    → Origin back made t k row
    → (set_run t k (some row)).runs r ≡ some new
    → Origin back made t r new
set_run-Origin t k r row new o e = elim (Bool-cases (text_eq k r)) [
  | inr apart ↦ kept (rw apart at e)
  | inl mine ↦
      let same : row ≡ new = some-inj (rw mine at e) in rw (← same, ← (text_eq_iff k r).0 mine) o
]

change_row-Origin :
    {back : Bool} {made : Option Text} (k r : Text) (test : RunRow → Bool) (f : RunRow → RunRow)
    (t : Tables) (o : Option RunRow) (new : RunRow)
    → t.runs k ≡ o
    → ((row : RunRow) → test row ≡ true → Move back row (f row))
    → (change_row k test f t o).0.runs r ≡ some new
    → Origin back made t r new
change_row-Origin k r test f t none new ek m e = kept e
change_row-Origin k r test f t (some row) new ek m e = elim (Bool-cases (test row)) [
  | inl fits ↦ set_run-Origin t k r (f row) new (moved row ek (m row fits)) (rw fits at e)
  | inr other ↦ kept (rw other at e)
]

first_of : (a b : Bool) → (not a && b) ≡ true → a ≡ false
first_of a b h = ground arith

finish-Origin :
    {back : Bool} {made : Option Text} (k r : Text) (expected : Option RunStatus)
    (status : RunStatus) (t : Tables) (new : RunRow) {result : Tables × Bool}
    → finish_run_from k expected status t ≡ done result
    → result.0.runs r ≡ some new
    → Origin back made t r new
unfolding finish_run_from
finish-Origin k r expected status t new {result} e er = elim (Bool-cases (is_terminal status)) [
  | inr open_status ↦ let no_way : refused _ ≡ done result = rw open_status at e in cc
  | inl over ↦
      let at_end : done (after_cas k (cas_row k expected status t (t.runs k))) ≡ done result =
        rw over at e in
      let there : (cas_row k expected status t (t.runs k)).0.runs r ≡ some new =
        sym (after_cas-runs k r (cas_row k expected status t (t.runs k)))
        ∙ ap (λ (x : Tables × Bool). x.0.runs r) (done-inj at_end)
        ∙ er in
      change_row-Origin k r (λ row. not (is_terminal row.status) && expects expected row.status)
        (λ row. record row { status = status }) t (t.runs k) new refl
        (λ row fits.
          end (first_of (is_terminal row.status) (expects expected row.status) fits) over refl)
        there
]

after_finish-Origin :
    {back : Bool} {made : Option Text} (k r : Text) (t : Tables) (new : RunRow)
    (res : StoreResult (Tables × Bool))
    → finish_run k failed t ≡ res
    → (after_finish t res).runs r ≡ some new
    → Origin back made t r new
unfolding finish_run
after_finish-Origin k r t new (refused why) e er = kept er
after_finish-Origin k r t new (done result) e er = finish-Origin k r none failed t new e er

unlogged_Origin :
    {back : Bool} {made : Option Text} (k message r : Text) (t : Tables) (new : RunRow)
    → Origin back made (logged k message t) r new
    → Origin back made t r new
unlogged_Origin k message r t new (moved old e m) = moved old e m
unlogged_Origin k message r t new (born m e s c) = born m e s c

queue-Origin :
    {back : Bool} {made : Option Text} (tpl : Templates) (k r : Text) (spec : RunSpec)
    (params : Table Text) (t : Tables) (new : RunRow) (res : Tables × Bool)
    → Outcome tpl k spec params t res
    → res.0.runs r ≡ some new
    → Origin back made t r new
unfolding fail_run
queue-Origin tpl k r spec params t new res (left_alone e) er = kept (rw e at er)
queue-Origin tpl k r spec params t new res (run_failed message e) er =
    unlogged_Origin k message r t new (
      after_finish-Origin k r (logged k message t) new (finish_run k failed (logged k message t))
        refl (sym (ap (λ (x : Tables × Bool). x.0.runs r) e) ∙ er))
queue-Origin tpl k r spec params t new res (run_queued q e) er =
    set_run-Origin t k r (queued_row q.row q.volumes q.values) new
      (moved q.row q.found (enqueue q.was_pending refl refl))
      (sym (ap (λ (x : Tables). x.runs r) q.result) ∙ er)

both_of : (a b : Bool) → (a && b) ≡ true → a ≡ true
both_of a b h = ground arith

delete-Origin :
    {back : Bool} {made : Option Text} (k r : Text) (t : Tables) (new : RunRow)
    → (set_run t k none).runs r ≡ some new
    → Origin back made t r new
delete-Origin k r t new e = elim (Bool-cases (text_eq k r)) [
  | inr apart ↦ kept (rw apart at e)
  | inl mine ↦ let no_way : none ≡ some new = rw mine at e in cc
]

-- Whether a statement takes a claim back.
abbrev pub takes_back : {tpl : Templates} {t u : Tables} → Step tpl t u → Bool
takes_back (create r spec params fresh) = false
takes_back (queue r spec params) = false
takes_back (claim agent r) = false
takes_back (requeue r agent) = true
takes_back (mark_running r) = false
takes_back (respec r spec) = false
takes_back (finish r expected status e) = false
takes_back (delete r) = false

-- The run that a statement creates.
abbrev pub creates : {tpl : Templates} {t u : Tables} → Step tpl t u → Option Text
creates (create r spec params fresh) = some r
creates (queue r spec params) = none
creates (claim agent r) = none
creates (requeue r agent) = none
creates (mark_running r) = none
creates (respec r spec) = none
creates (finish r expected status e) = none
creates (delete r) = none

-- Every row after a statement comes from the row of the same run before it by a move of the run
-- state machine, where only the requeue takes a claim back, or it is pending and unclaimed and the
-- statement created it.
pub Step-Origin :
    {tpl : Templates} {t u : Tables} (r : Text) (new : RunRow) (step : Step tpl t u)
    → u.runs r ≡ some new
    → Origin (takes_back step) (creates step) t r new
unfolding create_run claim_run requeue_claimed_run mark_run_running update_run_spec delete_run
Step-Origin {t} r new (create k spec params fresh) e =
    set_run-Origin t k r _ new (born refl fresh refl refl) e
Step-Origin {tpl} {t} r new (queue k spec params) e =
    queue-Origin tpl k r (spec_or_empty spec) params t new _
      (try_queue_run-Outcome tpl k spec params t) e
Step-Origin {t} r new (claim agent k) e =
    change_row-Origin k r _ _ t (t.runs k) new refl (λ row fits. take agent fits refl refl) e
Step-Origin {t} r new (requeue k agent) e =
    change_row-Origin k r _ _ t (t.runs k) new refl
      (λ row fits.
        give_back refl
          (both_of (same_status row.status running) (is_claim_of agent row.claimed_by) fits) refl
          refl)
      e
Step-Origin {t} r new (mark_running k) e =
    change_row-Origin k r _ _ t (t.runs k) new refl
      (λ row fits. start_running (not_true (is_terminal row.status) fits) refl refl) e
  where
    not_true : (b : Bool) → not b ≡ true → b ≡ false
    not_true b h = ground arith
Step-Origin {t} r new (respec k spec) e =
    change_row-Origin k r _ _ t (t.runs k) new refl (λ row fits. stay refl refl) e
Step-Origin {t} r new (finish k expected status s) e = finish-Origin k r expected status t new s e
Step-Origin {t} r new (delete k) e = delete-Origin k r t new e
