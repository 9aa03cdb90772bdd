-- ===== src/Controller/Cascade/Reached.antt =====
-- A walk that ended has marked every descendant.
use unified_cd.Prelude.{
  ◌≡◌, refl, sym, ap, ◌∙◌, ℕ, zero, suc, true, false, List, [], ◌∷◌, Option, none, some, inl, inr,
  Text, text_eq, text_eq_iff, contains, contains-head,
}
use unified_cd.Store.Tables.{Tables}
use unified_cd.Store.Locks.Held.{some-inj}
use unified_cd.Controller.Cascade.{Calls, Walk, visit_listed, walk, cancel_descendant_runs}
use unified_cd.Controller.Cascade.Mark.{is_over}
use unified_cd.Controller.Cascade.Descendants.{
  contains-cons, contains-nil, or_cases, visit_children-Grows, IsClosed, IsMarked,
  visit_children-IsMarked, visit_children-IsClosed,
}

module _ (calls : Calls) where
  -- The runs below a run, by the calls that the store lists.
  pub data Descends (root : Text) : Text → Type 0 where
    itself : Descends root root
    called :
        {k : Text} {cs : List Text} (c : Text)
        → Descends root k
        → calls.list_child_run_ids k ≡ some cs
        → contains cs c ≡ true
        → Descends root c

  visit_listed-visited :
      (o : Option (List Text)) (w : Walk) (k : Text)
      → contains w.visited k ≡ true
      → contains (visit_listed calls o w).visited k ≡ true
  visit_listed-visited none w k h = h
  visit_listed-visited (some cs) w k h = (visit_children-Grows calls cs w).0.visited k h

  visit_listed-IsMarked :
      (root : Text) (o : Option (List Text)) (w : Walk)
      → IsMarked calls root w.visited w.tables
      → IsMarked calls root (visit_listed calls o w).visited (visit_listed calls o w).tables
  visit_listed-IsMarked root none w m = m
  visit_listed-IsMarked root (some cs) w m = visit_children-IsMarked calls root cs w m

  unlisted-IsClosed :
      (parent : Text) (queue visited : List Text)
      → calls.list_child_run_ids parent ≡ none
      → IsClosed calls visited (parent ∷ queue)
      → IsClosed calls visited queue
  unlisted-IsClosed parent queue visited e closed k c ks seen lk child =
      elim (closed k c ks seen lk child) [
        | inr done ↦ inr done
        | inl waits ↦
            elim (or_cases (text_eq parent k) (contains queue k)
              (sym (contains-cons parent queue k) ∙ waits)) [
                | inr behind ↦ inl behind
                | inl mine ↦
                    let no_way : none ≡ some ks =
                      sym e ∙ ap calls.list_child_run_ids ((text_eq_iff parent k).0 mine) ∙ lk in
                    cc
              ]
      ]

  visit_listed-IsClosed :
      (parent : Text) (queue visited : List Text) (t : Tables) (o : Option (List Text))
      → calls.list_child_run_ids parent ≡ o
      → IsClosed calls visited (parent ∷ queue)
      → let w = visit_listed calls o (record { visited = visited; queue = queue; tables = t }) in
        IsClosed calls w.visited w.queue
  visit_listed-IsClosed parent queue visited t none e closed =
      unlisted-IsClosed parent queue visited e closed
  visit_listed-IsClosed parent queue visited t (some cs) e closed =
      visit_children-IsClosed calls parent queue cs
        (record { visited = visited; queue = queue; tables = t }) e refl closed

  record IsFinal (root : Text) (start : List Text) (w : Walk) : Type 0 where
    closed : IsClosed calls w.visited []
    marked : IsMarked calls root w.visited w.tables
    visited : (k : Text) → contains start k ≡ true → contains w.visited k ≡ true

  walk-IsFinal :
      (root : Text) (fuel : ℕ) (visited queue : List Text) (t : Tables) {w : Walk}
      → IsClosed calls visited queue
      → IsMarked calls root visited t
      → walk calls fuel visited queue t ≡ some w
      → IsFinal root visited w
  unfolding walk
  walk-IsFinal root zero visited queue t closed marked e = cc
  walk-IsFinal root (suc fuel) visited [] t {w} closed marked e =
      rw (← some-inj e) (record { closed = closed; marked = marked; visited = λ k h. h })
  walk-IsFinal root (suc fuel) visited (parent ∷ queue) t {w} closed marked e =
      let before : Walk = record { visited = visited; queue = queue; tables = t } in
      let o = calls.list_child_run_ids parent in
      let v = visit_listed calls o before in
      let final =
        walk-IsFinal root fuel v.visited v.queue v.tables {w = w}
          (visit_listed-IsClosed parent queue visited t o refl closed)
          (visit_listed-IsMarked root o before marked) e in
      record {
        closed = final.closed;
        marked = final.marked;
        visited = λ k h. final.visited k (visit_listed-visited o before k h);
      }

  Descends-visited :
      (root : Text) (w : Walk) (d : Text)
      → contains w.visited root ≡ true
      → IsClosed calls w.visited []
      → Descends root d
      → contains w.visited d ≡ true
  Descends-visited root w d there closed itself = there
  Descends-visited root w d there closed (called {k} {cs} c above listed child) =
      elim (closed k d cs (Descends-visited root w k there closed above) listed child) [
        | inr done ↦ done
        | inl waits ↦ let no_way : false ≡ true = sym (contains-nil k) ∙ waits in cc
      ]

  only_root : (root k : Text) → contains (root ∷ []) k ≡ true → text_eq root k ≡ true
  only_root root k h =
      elim (or_cases (text_eq root k) (contains [] k) (sym (contains-cons root [] k) ∙ h)) [
        | inl mine ↦ mine
        | inr other ↦ let no_way : false ≡ true = sym (contains-nil k) ∙ other in cc
      ]

  -- When the walk has ended, with any fuel, every run below the root by the calls that the store
  -- lists, other than the root, is terminal if it is there, unless the store fails to finish it.
  pub cancel_descendant_runs-over :
      (fuel : ℕ) (root d : Text) (t : Tables) {w : Walk}
      → cancel_descendant_runs calls fuel root t ≡ some w
      → Descends root d
      → text_eq root d ≡ false
      → calls.broken d ≡ false
      → is_over w.tables d ≡ true
  unfolding cancel_descendant_runs
  cancel_descendant_runs-over fuel root d t {w} ran below away works =
      let final =
        walk-IsFinal root fuel (root ∷ []) (root ∷ []) t {w = w}
          (λ k c cs seen listed child. inl seen)
          (λ k seen aside fine.
            let no_way : true ≡ false = sym (only_root root k seen) ∙ aside in cc)
          ran in
      final.marked d
        (Descends-visited root w d (final.visited root (contains-head root [])) final.closed below)
        away works
