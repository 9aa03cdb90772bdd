-- ===== src/Controller/Cascade/Mark.antt =====
-- A run that is marked is terminal, and stays so.
use unified_cd.Prelude.{
  ◌≡◌, refl, ap, ◌∙◌, Bool, true, false, not, ◌&&◌, Option, none, some, arith, if◌then◌else◌,
  Bool-cases, inl, inr, Text, text_eq, text_eq_refl,
}
use unified_cd.Store.Tables.{cancelled, is_terminal, RunRow, Tables}
use unified_cd.Store.Lifecycle.{finish_run}
use unified_cd.Store.Lifecycle.Finish.{may_finish, finished_row, finished, finish_run_from-cases}
use unified_cd.Store.Queue.{after_finish}
use unified_cd.Controller.Cascade.{Calls, mark_cancelled}

abbrev pub row_over : Option RunRow → Bool
row_over none = true
row_over (some row) = is_terminal row.status

-- The run, if it is there, is terminal.
unfoldable pub is_over : Tables → Text → Bool
is_over t r = row_over (t.runs r)

after_finish-cases :
    (k : Text) (t : Tables)
    → after_finish t (finish_run k cancelled t)
      ≡ (if may_finish none (t.runs k) then finished k cancelled t else t)
unfolding finish_run is_terminal
after_finish-cases k t =
    ap (after_finish t) (finish_run_from-cases k none cancelled t)
    ∙ elim (Bool-cases (may_finish none (t.runs k))) [ inl fits ↦ rw fits | inr other ↦ rw other ]

either : (a b : Bool) → b ≡ true → (if a then true else b) ≡ true
either a b h = ground arith

row_over-finished : (o : Option RunRow) → row_over (finished_row cancelled o) ≡ true
unfolding is_terminal
row_over-finished none = refl
row_over-finished (some row) = refl

is_over-finished :
    (t : Tables) (k j : Text)
    → is_over (finished k cancelled t) j ≡ (if text_eq k j then true else is_over t j)
unfolding is_over
is_over-finished t k j = elim (Bool-cases (text_eq k j)) [
  | inl mine ↦ rw mine (row_over-finished (t.runs k))
  | inr other ↦ rw other
]

not-not : (b : Bool) → (not b && true) ≡ false → b ≡ true
not-not b h = ground arith

refused_row : (o : Option RunRow) → may_finish none o ≡ false → row_over o ≡ true
refused_row none h = refl
refused_row (some row) h = not-not (is_terminal row.status) h

refused_over : (t : Tables) (k : Text) → may_finish none (t.runs k) ≡ false → is_over t k ≡ true
unfolding is_over
refused_over t k h = refused_row (t.runs k) h

finish-over : (k : Text) (t : Tables) → is_over (after_finish t (finish_run k cancelled t)) k ≡ true
finish-over k t = elim (Bool-cases (may_finish none (t.runs k))) [
  | inl fits ↦
      let made : after_finish t (finish_run k cancelled t) ≡ finished k cancelled t =
        after_finish-cases k t ∙ rw fits in
      rw made (is_over-finished t k k ∙ rw (text_eq_refl k))
  | inr other ↦
      let same : after_finish t (finish_run k cancelled t) ≡ t =
        after_finish-cases k t ∙ rw other in
      rw same (refused_over t k other)
]

finish-keeps :
    (k j : Text) (t : Tables)
    → is_over t j ≡ true
    → is_over (after_finish t (finish_run k cancelled t)) j ≡ true
finish-keeps k j t h = elim (Bool-cases (may_finish none (t.runs k))) [
  | inl fits ↦
      let made : after_finish t (finish_run k cancelled t) ≡ finished k cancelled t =
        after_finish-cases k t ∙ rw fits in
      rw made (is_over-finished t k j ∙ either (text_eq k j) (is_over t j) h)
  | inr other ↦
      let same : after_finish t (finish_run k cancelled t) ≡ t =
        after_finish-cases k t ∙ rw other in
      rw same h
]

module _ (calls : Calls) where
  -- A mark takes effect where the store does not fail.
  pub mark_cancelled-over :
      (k : Text) (t : Tables) → calls.broken k ≡ false → is_over (mark_cancelled calls k t) k ≡ true
  unfolding mark_cancelled
  mark_cancelled-over k t works = rw works (finish-over k t)

  pub mark_cancelled-keeps :
      (k j : Text) (t : Tables) → is_over t j ≡ true → is_over (mark_cancelled calls k t) j ≡ true
  unfolding mark_cancelled
  mark_cancelled-keeps k j t h = elim (Bool-cases (calls.broken k)) [
    | inl fails ↦ rw fails h
    | inr works ↦ rw works (finish-keeps k j t h)
  ]
