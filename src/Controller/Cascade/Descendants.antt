-- ===== src/Controller/Cascade/Descendants.antt =====
-- The walk ends, and has then marked every descendant.
use unified_cd.Prelude.{
  ◌≡◌, refl, sym, ap, ◌∙◌, ◌⊎◌, Bool, true, false, ◌||◌, List, [], ◌∷◌, ◌++◌, some, arith,
  Bool-cases, inl, inr, any, any-append, Text, text_eq, text_eq_iff, contains, contains-head,
  contains-tail,
}
use unified_cd.Store.Tables.{Tables}
use unified_cd.Store.Locks.Held.{some-inj}
use unified_cd.Controller.Cascade.{Calls, Walk, mark_cancelled, visit_child, visit_children}
use unified_cd.Controller.Cascade.Mark.{is_over, mark_cancelled-over, mark_cancelled-keeps}

pub contains-append :
    (xs ys : List Text) (k : Text) → contains (xs ++ ys) k ≡ (contains xs k || contains ys k)
unfolding contains
contains-append xs ys k = any-append (λ x. text_eq x k) xs ys

pub contains-cons :
    (x : Text) (xs : List Text) (k : Text) → contains (x ∷ xs) k ≡ (text_eq x k || contains xs k)
unfolding contains any
contains-cons x xs k = refl

pub contains-nil : (k : Text) → contains [] k ≡ false
unfolding contains any
contains-nil k = refl

-- What a visit of children adds to the walk.
pub record Grows (w w' : Walk) : Type 0 where
  pub visited : (k : Text) → contains w.visited k ≡ true → contains w'.visited k ≡ true
  pub queued : (k : Text) → contains w.queue k ≡ true → contains w'.queue k ≡ true
  pub new :
      (k : Text)
      → contains w'.visited k ≡ true
      → (contains w.visited k ≡ true) ⊎ (contains w'.queue k ≡ true)

Grows-refl : (w : Walk) → Grows w w
Grows-refl w = record { visited = λ k h. h; queued = λ k h. h; new = λ k h. inl h }

Grows-trans : (u v w : Walk) → Grows u v → Grows v w → Grows u w
Grows-trans u v w f g = record {
  visited = λ k h. g.visited k (f.visited k h);
  queued = λ k h. g.queued k (f.queued k h);
  new = λ k h. elim (g.new k h) [
    | inr waiting ↦ inr waiting
    | inl old ↦ elim (f.new k old) [
      | inl older ↦ inl older
      | inr waiting ↦ inr (g.queued k waiting)
    ]
  ];
}

or_left : (a b : Bool) → a ≡ true → (a || b) ≡ true
or_left a b h = ground arith

or_right : (a b : Bool) → b ≡ true → (a || b) ≡ true
or_right a b h = ground arith

pub or_cases : (a b : Bool) → (a || b) ≡ true → (a ≡ true) ⊎ (b ≡ true)
or_cases true b h = inl refl
or_cases false b h = inr h

pushed-old :
    (queue : List Text) (c k : Text) → contains queue k ≡ true → contains (queue ++ c ∷ []) k ≡ true
pushed-old queue c k h =
    contains-append queue (c ∷ []) k ∙ or_left (contains queue k) (contains (c ∷ []) k) h

pushed-new :
    (visited queue : List Text) (c k : Text)
    → contains (c ∷ visited) k ≡ true
    → (contains visited k ≡ true) ⊎ (contains (queue ++ c ∷ []) k ≡ true)
pushed-new visited queue c k h =
    elim (or_cases (text_eq c k) (contains visited k) (sym (contains-cons c visited k) ∙ h)) [
      | inr old ↦ inl old
      | inl mine ↦ inr (
          contains-append queue (c ∷ []) k
          ∙ or_right (contains queue k) (contains (c ∷ []) k)
              (contains-cons c [] k ∙ or_left (text_eq c k) (contains [] k) mine))
    ]

module _ (calls : Calls) where
  visit_child-Grows :
      (c : Text) (w : Walk)
      → Grows w (visit_child calls c w) × (contains (visit_child calls c w).visited c ≡ true)
  unfolding visit_child
  visit_child-Grows c w = elim (Bool-cases (contains w.visited c)) [
    | inl seen ↦ rw seen (Grows-refl w, seen)
    | inr fresh ↦ rw fresh (
      record {
        visited = λ k h. contains-tail c k w.visited h;
        queued = λ k h. pushed-old w.queue c k h;
        new = λ k h. pushed-new w.visited w.queue c k h;
      },
      contains-head c w.visited,
    )
  ]

  -- All children are visited, and those that are new wait in the queue.
  pub visit_children-Grows :
      (cs : List Text) (w : Walk)
      → Grows w (visit_children calls cs w)
        × ((k : Text)
            → contains cs k ≡ true
            → contains (visit_children calls cs w).visited k ≡ true)
  unfolding visit_children
  visit_children-Grows [] w =
      (Grows-refl w, λ k h. let no_way : false ≡ true = sym (contains-nil k) ∙ h in cc)
  visit_children-Grows (c ∷ cs) w =
      let (step, mine) = visit_child-Grows c w in
      let (rest, all) = visit_children-Grows cs (visit_child calls c w) in
      (
        Grows-trans w (visit_child calls c w) (visit_children calls cs (visit_child calls c w)) step
            rest,
        λ k h. elim (or_cases (text_eq c k) (contains cs k) (sym (contains-cons c cs k) ∙ h)) [
          | inr listed ↦ all k listed
          | inl this ↦ rest.visited k (
              ap (contains (visit_child calls c w).visited) (sym ((text_eq_iff c k).0 this)) ∙ mine)
        ],
      )

  -- Every run that was visited waits, or its children were visited too.
  abbrev pub IsClosed : List Text → List Text → Type 0
  IsClosed visited queue =
      (k c : Text) (cs : List Text)
      → contains visited k ≡ true
      → calls.list_child_run_ids k ≡ some cs
      → contains cs c ≡ true
      → (contains queue k ≡ true) ⊎ (contains visited c ≡ true)

  -- Every run that was visited and is not the root is over, unless the store failed on it.
  abbrev pub IsMarked : Text → List Text → Tables → Type 0
  IsMarked root visited t =
      (k : Text)
      → contains visited k ≡ true
      → text_eq root k ≡ false
      → calls.broken k ≡ false
      → is_over t k ≡ true

  visit_child-IsMarked :
      (root c : Text) (w : Walk)
      → IsMarked root w.visited w.tables
      → IsMarked root (visit_child calls c w).visited (visit_child calls c w).tables
  unfolding visit_child
  visit_child-IsMarked root c w m = elim (Bool-cases (contains w.visited c)) [
    | inl seen ↦ rw seen m
    | inr fresh ↦ rw fresh λ k h away works.
        elim (or_cases (text_eq c k) (contains w.visited k)
          (sym (contains-cons c w.visited k) ∙ h)) [
            | inr old ↦ mark_cancelled-keeps calls c k w.tables (m k old away works)
            | inl mine ↦
                let same : c ≡ k = (text_eq_iff c k).0 mine in
                let fine : calls.broken c ≡ false = ap calls.broken same ∙ works in
                ap (is_over (mark_cancelled calls c w.tables)) (sym same)
                ∙ mark_cancelled-over calls c w.tables fine
          ]
  ]

  pub visit_children-IsMarked :
      (root : Text) (cs : List Text) (w : Walk)
      → IsMarked root w.visited w.tables
      → IsMarked root (visit_children calls cs w).visited (visit_children calls cs w).tables
  unfolding visit_children
  visit_children-IsMarked root [] w m = m
  visit_children-IsMarked root (c ∷ cs) w m =
      visit_children-IsMarked root cs (visit_child calls c w) (visit_child-IsMarked root c w m)

  pub visit_children-IsClosed :
      (parent : Text) (queue cs : List Text) (w : Walk)
      → calls.list_child_run_ids parent ≡ some cs
      → w.queue ≡ queue
      → IsClosed w.visited (parent ∷ queue)
      → IsClosed (visit_children calls cs w).visited (visit_children calls cs w).queue
  visit_children-IsClosed parent queue cs w listed same closed k c ks seen lk child =
      let (grows, all) = visit_children-Grows cs w in
      elim (grows.new k seen) [
        | inr waiting ↦ inl waiting
        | inl old ↦ elim (closed k c ks old lk child) [
          | inr done ↦ inr (grows.visited c done)
          | inl waits ↦
              elim (or_cases (text_eq parent k) (contains queue k)
                (sym (contains-cons parent queue k) ∙ waits)) [
                  | inr behind ↦ inl (grows.queued k (ap (λ q. contains q k) same ∙ behind))
                  | inl mine ↦
                      let here : parent ≡ k = (text_eq_iff parent k).0 mine in
                      let both : some cs ≡ some ks =
                        sym listed ∙ ap calls.list_child_run_ids here ∙ lk in
                      inr (all c (ap (λ l. contains l c) (some-inj both) ∙ child))
                ]
        ]
      ]
