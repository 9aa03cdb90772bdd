-- ===== src/Controller/StuckRuns/Confirmed.antt =====
-- A missing agent is acted on only when it was missing in every sweep of a whole window.
use unified_cd.Prelude.{
  ◌≡◌, refl, sym, ap, ◌∙◌, ℕ, ◌+◌, ◌≤◌, Bool, true, false, not, ◌&&◌, ◌||◌, List, [], ◌∷◌, Option,
  none, some, arith, ltb, ◌==◌, Bool-cases, inl, inr, any, All, Hits, All-Hits, Text, text_eq,
  text_eq_iff, text_eq_refl, Table, lookup, insert, lookup-insert, keep_keys, lookup-keep_keys,
}
use unified_cd.Store.Tables.{Tables}
use unified_cd.Store.Locks.Held.{some-inj}
use unified_cd.Controller.StuckRuns.{
  StuckRunRef, Sweep, is_missing, still_missing, reap, confirm, sweep_ref, sweep_refs,
  run_stuck_run_reaper_once,
}

-- The sweeps of a leader, the latest first: when they ran, and what the store listed.
abbrev pub History : Type 0
History = List (ℕ × List StuckRunRef)

-- From the sweep at the time `first` on, every sweep found the agent of the run missing.
unfoldable pub continuously : History → ℕ → Text → Bool
continuously [] first id = false
continuously ((now, refs) ∷ past) first id =
    still_missing refs id && (now == first || continuously past first id)

abbrev pub is_silent : List StuckRunRef → Text → Bool
is_silent refs id = any (λ ref. not ref.agent_missing && text_eq ref.id id) refs

-- Why a run may be reaped: its agent is silent, or has been missing for the window.
pub data Reason (history : History) (now stale_after : ℕ) (refs : List StuckRunRef) (id : Text)
    : Type 0 where
  silent : is_silent refs id ≡ true → Reason history now stale_after refs id
  absent :
      (first : ℕ)
      → continuously history first id ≡ true
      → first + stale_after ≤ now
      → Reason history now stale_after refs id

-- What is remembered of a missing agent is true of the history.
abbrev pub Remembers : History → Table ℕ → Type 0
Remembers history m =
    (id : Text) (first : ℕ) → lookup id m ≡ some first → continuously history first id ≡ true

both : (a b : Bool) → a ≡ true → b ≡ true → (a && b) ≡ true
both a b h k = ground arith

module _ (past : History) (broken : Text → Bool) (now stale_after : ℕ)
    (refs : List StuckRunRef) where
  abbrev here_and_before : History
  here_and_before = (now, refs) ∷ past

  record IsHonest (s : Sweep) : Type 0 where
    remembers : Remembers here_and_before s.missing_since
    reasons : All (Reason here_and_before now stale_after refs) s.reaped

  remove-Remembers :
      (m : Table ℕ) (id : Text)
      → Remembers here_and_before m
      → Remembers here_and_before (keep_keys (λ j. not (text_eq id j)) m)
  remove-Remembers m id h j first e = elim (Bool-cases (text_eq id j)) [
    | inl mine ↦
        let no_way : none ≡ some first =
          sym (lookup-keep_keys (λ j. not (text_eq id j)) j m ∙ rw mine) ∙ e in
        cc
    | inr other ↦ h j first (sym (lookup-keep_keys (λ j. not (text_eq id j)) j m ∙ rw other) ∙ e)
  ]

  insert-Remembers :
      (m : Table ℕ) (id : Text)
      → still_missing refs id ≡ true
      → Remembers here_and_before m
      → Remembers here_and_before (insert id now m)
  unfolding continuously
  insert-Remembers m id listed h j first e = elim (Bool-cases (text_eq id j)) [
    | inl mine ↦
        let same : id ≡ j = (text_eq_iff id j).0 mine in
        let time : now ≡ first = some-inj (sym (lookup-insert id j now m ∙ rw mine) ∙ e) in
        let there : still_missing refs j ≡ true = ap (still_missing refs) (sym same) ∙ listed in
        ground arith
    | inr other ↦ h j first (sym (lookup-insert id j now m ∙ rw other) ∙ e)
  ]

  reap-IsHonest :
      (id : Text) (s : Sweep)
      → Reason here_and_before now stale_after refs id
      → IsHonest s
      → IsHonest (reap broken id s)
  unfolding reap
  reap-IsHonest id s why h = elim (Bool-cases (broken id)) [
    | inl fails ↦ rw fails (record { remembers = h.remembers; reasons = h.reasons })
    | inr works ↦ rw works (record {
      remembers = remove-Remembers s.missing_since id h.remembers;
      reasons = (why, h.reasons);
    })
  ]

  confirm-IsHonest :
      (id : Text) (s : Sweep) (o : Option ℕ)
      → lookup id s.missing_since ≡ o
      → still_missing refs id ≡ true
      → IsHonest s
      → IsHonest (confirm broken now stale_after id s o)
  confirm-IsHonest id s none e listed h = record {
    remembers = insert-Remembers s.missing_since id listed h.remembers;
    reasons = h.reasons;
  }
  confirm-IsHonest id s (some first) e listed h =
      elim (Bool-cases (ltb now (first + stale_after))) [
        | inl early ↦ rw early h
        | inr late ↦
            rw late (reap-IsHonest id s (absent first (h.remembers id first e) (ground arith)) h)
      ]

  sweep_ref-IsHonest :
      (ref : StuckRunRef) (s : Sweep)
      → Hits refs ref
      → IsHonest s
      → IsHonest (sweep_ref broken now stale_after ref s)
  unfolding sweep_ref still_missing
  sweep_ref-IsHonest ref s hit h = elim (Bool-cases ref.agent_missing) [
    | inl missing ↦ rw missing (
        confirm-IsHonest ref.id s (lookup ref.id s.missing_since) refl
          (hit (is_missing ref.id)
            (both ref.agent_missing (text_eq ref.id ref.id) missing (text_eq_refl ref.id)))
          h)
    | inr silent_agent ↦ rw silent_agent (
        reap-IsHonest ref.id s
          (silent (
            hit (λ k. not k.agent_missing && text_eq k.id ref.id)
              (both (not ref.agent_missing) (text_eq ref.id ref.id) (ground arith)
                (text_eq_refl ref.id))))
          h)
  ]

  sweep_refs-IsHonest :
      (rest : List StuckRunRef) (s : Sweep)
      → All (Hits refs) rest
      → IsHonest s
      → IsHonest (sweep_refs broken now stale_after rest s)
  unfolding sweep_refs
  sweep_refs-IsHonest [] s hits h = h
  sweep_refs-IsHonest (ref ∷ rest) s hits h =
      sweep_refs-IsHonest rest (sweep_ref broken now stale_after ref s) hits.1
        (sweep_ref-IsHonest ref s hits.0 h)

  forget-Remembers :
      (m : Table ℕ)
      → Remembers past m
      → Remembers here_and_before (keep_keys (still_missing refs) m)
  unfolding continuously
  forget-Remembers m h id first e = elim (Bool-cases (still_missing refs id)) [
    | inl listed ↦
        let before : continuously past first id ≡ true =
          h id first (sym (lookup-keep_keys (still_missing refs) id m ∙ rw listed) ∙ e) in
        ground arith
    | inr gone ↦
        let no_way : none ≡ some first =
          sym (lookup-keep_keys (still_missing refs) id m ∙ rw gone) ∙ e in
        cc
  ]

  -- What a sweep remembers is true, and it has a reason for each run that it failed.
  sweep-IsHonest :
      (t : Tables) (m : Table ℕ)
      → Remembers past m
      → IsHonest (run_stuck_run_reaper_once broken now stale_after refs t m)
  unfolding run_stuck_run_reaper_once
  sweep-IsHonest t m h =
      sweep_refs-IsHonest refs _ (All-Hits refs)
        (record { remembers = forget-Remembers m h; reasons = tt })

-- A sweep: the runs on which the store fails, the time, and what the store lists.
pub record Tick : Type 0 where
  pub broken : Text → Bool
  pub now : ℕ
  pub refs : List StuckRunRef
  pub tables : Tables

-- What is remembered after the sweeps of a leader, the latest first, from an empty memory.
unfoldable pub remembered : ℕ → List Tick → Table ℕ
unfolding run_stuck_run_reaper_once
remembered stale_after [] = []
remembered stale_after (k ∷ ks) =
    (run_stuck_run_reaper_once k.broken k.now stale_after k.refs k.tables
      (remembered stale_after ks)).missing_since

abbrev pub history_of : List Tick → History
history_of [] = []
history_of (k ∷ ks) = (k.now, k.refs) ∷ history_of ks

remembered-Remembers :
    (stale_after : ℕ) (ks : List Tick) → Remembers (history_of ks) (remembered stale_after ks)
unfolding remembered lookup
remembered-Remembers stale_after [] = λ id first e. cc
remembered-Remembers stale_after (k ∷ ks) =
    (sweep-IsHonest (history_of ks) k.broken k.now stale_after k.refs k.tables
      (remembered stale_after ks) (remembered-Remembers stale_after ks)).remembers

-- Whatever the earlier sweeps of a leader saw, each run that a sweep fails is listed with a silent
-- agent, or its agent was listed as missing in this sweep and in every sweep back to one that ran
-- at least the staleness window before.
pub run_stuck_run_reaper_once-confirmed :
    (stale_after : ℕ) (ks : List Tick) (k : Tick)
    → All
        (Reason (history_of (k ∷ ks)) k.now stale_after k.refs)
        (run_stuck_run_reaper_once k.broken k.now stale_after k.refs k.tables
          (remembered stale_after ks)).reaped
run_stuck_run_reaper_once-confirmed stale_after ks k =
    (sweep-IsHonest (history_of ks) k.broken k.now stale_after k.refs k.tables
      (remembered stale_after ks) (remembered-Remembers stale_after ks)).reasons
