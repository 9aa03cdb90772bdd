-- ===== src/Store/Lifecycle/Claim.antt =====
-- A claim against the statements that race with it or undo it.
use unified_cd.Prelude.{
  ◌≡◌, refl, sym, ap, ◌∙◌, Bool, true, false, Option, none, some, arith, Bool-cases, inl, inr, Text,
  text_eq, text_eq_iff, text_eq_refl,
}
use unified_cd.Store.Tables.{
  RunStatus, pending, queued, running, succeeded, failed, cancelled, is_terminal, same_status,
  RunRow, Tables, set_run,
}
use unified_cd.Store.Locks.Held.{some-inj}
use unified_cd.Store.Lifecycle.{
  done, change_row, claim_run, requeue_claimed_run, finish_run_if_status,
}
use unified_cd.Store.Lifecycle.Finish.{finish_run_from-cases}

-- A change that was made: the row was there and passed the test.
change_row-made :
    (r : Text) (test : RunRow → Bool) (f : RunRow → RunRow) (t : Tables) (o : Option RunRow)
    {u : Tables}
    → change_row r test f t o ≡ (u, true)
    → (row : RunRow) × (o ≡ some row) × (test row ≡ true) × (u ≡ set_run t r (some (f row)))
change_row-made r test f t none e = cc
change_row-made r test f t (some row) {u} e = elim (Bool-cases (test row)) [
  | inl fits ↦
      let made : (set_run t r (some (f row)), true) ≡ (u, true) = rw fits at e in
      (row, refl, fits, sym (ap (λ (p : Tables × Bool). p.0) made))
  | inr other ↦ let no_way : (t, false) ≡ (u, true) = rw other at e in cc
]

pub set_run_self : (t : Tables) (r : Text) (row : Option RunRow) → (set_run t r row).runs r ≡ row
set_run_self t r row = rw (text_eq_refl r)

-- Once a run was claimed, an attempt to finish it with a terminal status that expects it to be
-- queued answers that it changed nothing, and changes nothing.
pub finish_run_if_status-claimed :
    (agent r : Text) (status : RunStatus) (t : Tables) {u : Tables}
    → is_terminal status ≡ true
    → claim_run agent r t ≡ (u, true)
    → finish_run_if_status r (some queued) status u ≡ done (u, false)
unfolding finish_run_if_status claim_run same_status is_terminal
finish_run_if_status-claimed agent r status t {u} end e =
    let (row, found, fits, made) = change_row-made r _ _ t (t.runs r) e in
    let now : u.runs r ≡ some (record row { claimed_by = some agent; status = running }) =
      rw made
        (set_run_self t r (some (record row { claimed_by = some agent; status = running }))) in
    finish_run_from-cases r (some queued) status u ∙ rw (end, now)

-- A change of a row that is there and passes the test.
pub change_row-hit :
    (r : Text) (test : RunRow → Bool) (f : RunRow → RunRow) (t : Tables) (o : Option RunRow)
    (row : RunRow)
    → o ≡ some row
    → test row ≡ true
    → change_row r test f t o ≡ (set_run t r (some (f row)), true)
change_row-hit r test f t none row e fits = cc
change_row-hit r test f t (some k) row e fits = let same : k ≡ row = some-inj e in rw (same, fits)

is_queued : (s : RunStatus) → same_status s queued ≡ true → s ≡ queued
unfolding same_status
is_queued queued h = refl
is_queued pending h = cc
is_queued running h = cc
is_queued succeeded h = cc
is_queued failed h = cc
is_queued cancelled h = cc

unclaimed_row :
    (row : RunRow)
    → row.status ≡ queued
    → row.claimed_by ≡ none
    → record row { claimed_by = none; status = queued } ≡ row
unclaimed_row row s c = ground arith

set_run_twice :
    (t : Tables) (r h : Text) (a b : Option RunRow)
    → t.runs r ≡ b
    → (set_run (set_run t r a) r b).runs h ≡ t.runs h
set_run_twice t r h a b e = elim (Bool-cases (text_eq r h)) [
  | inl mine ↦ let same : r ≡ h = (text_eq_iff r h).0 mine in rw mine (sym e ∙ rw same)
  | inr other ↦ rw other
]

-- For a queued run that nobody has claimed, a claim followed by the requeue for the same agent
-- succeeds and gives back the locks and the rows that were there before.
pub requeue-claim_run :
    (agent r : Text) (t : Tables) (row : RunRow)
    → t.runs r ≡ some row
    → same_status row.status queued ≡ true
    → row.claimed_by ≡ none
    → let back = requeue_claimed_run r agent (claim_run agent r t).0 in
      (back.1 ≡ true) × (back.0.locks ≡ t.locks) × ((h : Text) → back.0.runs h ≡ t.runs h)
unfolding claim_run requeue_claimed_run same_status text_eq
requeue-claim_run agent r t row found was unclaimed =
    let taken : RunRow = record row { claimed_by = some agent; status = running } in
    let claimed : claim_run agent r t ≡ (set_run t r (some taken), true) =
      change_row-hit r _ _ t (t.runs r) row found was in
    let given : RunRow = record row { claimed_by = none; status = queued } in
    let u : Tables = set_run t r (some taken) in
    let back : requeue_claimed_run r agent u ≡ (set_run u r (some given), true) =
      change_row-hit r _ _ u (u.runs r) taken (set_run_self t r (some taken))
        (text_eq_refl agent) in
    let restored : given ≡ row = unclaimed_row row (is_queued row.status was) unclaimed in
    rw (claimed, back)
      (refl, refl, λ h. set_run_twice t r h (some taken) (some given) (found ∙ rw restored))
