-- ===== src/Controller/Cascade/Ends.antt =====
-- The walk ends after at most as many rounds as there are runs.
use unified_cd.Prelude.{
  ◌≡◌, refl, sym, ap, ◌∙◌, ℕ, zero, suc, ◌+◌, ◌≤◌, ◌<◌, Bool, true, false, not, ◌||◌, List, [], ◌∷◌,
  Option, none, some, arith, Bool-cases, inl, inr, length, length-append, keep, Text, text_eq,
  text_eq_iff, contains, contains-head, contains-tail,
}
use unified_cd.Store.Tables.{Tables}
use unified_cd.Controller.Cascade.{
  Calls, Walk, visit_child, visit_children, visit_listed, walk, cancel_descendant_runs,
}
use unified_cd.Controller.Cascade.Descendants.{contains-cons, contains-nil}

-- How many of the runs are not visited yet.
unfoldable pub unvisited : List Text → List Text → ℕ
unvisited visited nodes = length (keep (λ n. not (contains visited n)) nodes)

unvisited-le :
    (c : Text) (visited nodes : List Text) → unvisited (c ∷ visited) nodes ≤ unvisited visited nodes
unfolding unvisited keep
unvisited-le c visited [] = omega arith
unvisited-le c visited (n ∷ nodes) =
    ground (arith, contains-cons c visited n, unvisited-le c visited nodes)

-- A visit to a run that was not visited makes the rest smaller.
unvisited-lt :
    (c : Text) (visited nodes : List Text)
    → contains visited c ≡ false
    → contains nodes c ≡ true
    → suc (unvisited (c ∷ visited) nodes) ≤ unvisited visited nodes
unfolding unvisited keep
unvisited-lt c visited [] fresh h = let no_way : false ≡ true = sym (contains-nil c) ∙ h in cc
unvisited-lt c visited (n ∷ nodes) fresh h = elim (Bool-cases (text_eq n c)) [
  | inl here ↦
      let same : n ≡ c = (text_eq_iff n c).0 here in
      let before : contains visited n ≡ false = ap (contains visited) same ∙ fresh in
      let after : contains (c ∷ visited) n ≡ true =
        ap (contains (c ∷ visited)) same ∙ contains-head c visited in
      ground (arith, before, after, unvisited-le c visited nodes)
  | inr other ↦
      let behind : contains nodes c ≡ true =
        behind_of (text_eq n c) (contains nodes c) other (sym (contains-cons n nodes c) ∙ h) in
      ground (arith, contains-cons c visited n, unvisited-lt c visited nodes fresh behind)
]
  where
    behind_of : (a b : Bool) → a ≡ false → (a || b) ≡ true → b ≡ true
    behind_of a b x y = ground arith

unvisited-all : (visited nodes : List Text) → unvisited visited nodes ≤ length nodes
unfolding unvisited keep
unvisited-all visited [] = omega arith
unvisited-all visited (n ∷ nodes) = ground (arith, unvisited-all visited nodes)

module _ (calls : Calls) (nodes : List Text) where
  abbrev left : Walk → ℕ
  left w = length w.queue + unvisited w.visited nodes

  left-visit_child :
      (c : Text) (w : Walk) → contains nodes c ≡ true → left (visit_child calls c w) ≤ left w
  unfolding visit_child
  left-visit_child c w known = elim (Bool-cases (contains w.visited c)) [
    | inl seen ↦ rw seen (omega arith)
    | inr fresh ↦
        rw fresh (
          omega (arith, length-append w.queue (c ∷ []), unvisited-lt c w.visited nodes fresh known))
  ]

  left-visit_children :
      (cs : List Text) (w : Walk)
      → ((c : Text) → contains cs c ≡ true → contains nodes c ≡ true)
      → left (visit_children calls cs w) ≤ left w
  unfolding visit_children
  left-visit_children [] w known = omega arith
  left-visit_children (c ∷ cs) w known = omega (
    arith,
    left-visit_child c w (known c (contains-head c cs)),
    left-visit_children cs (visit_child calls c w) (λ k h. known k (contains-tail c k cs h)),
  )

  -- The listed children are among the runs.
  abbrev pub AreKnown : Type 0
  AreKnown =
      (k c : Text) (cs : List Text)
      → calls.list_child_run_ids k ≡ some cs
      → contains cs c ≡ true
      → contains nodes c ≡ true

  left-visit_listed :
      (k : Text) (o : Option (List Text)) (w : Walk)
      → AreKnown
      → calls.list_child_run_ids k ≡ o
      → left (visit_listed calls o w) ≤ left w
  left-visit_listed k none w known e = omega arith
  left-visit_listed k (some cs) w known e = left-visit_children cs w (λ c h. known k c cs e h)

  walk-total :
      (fuel : ℕ) (visited queue : List Text) (t : Tables)
      → AreKnown
      → length queue + unvisited visited nodes < fuel
      → (w : Walk) × (walk calls fuel visited queue t ≡ some w)
  unfolding walk
  walk-total zero visited queue t known h = elim h [ ]
  walk-total (suc fuel) visited [] t known h = (_, refl)
  walk-total (suc fuel) visited (parent ∷ queue) t known h = walk-total fuel _ _ _ known (
      omega (
        arith,
        left-visit_listed parent (calls.list_child_run_ids parent)
            (record { visited = visited; queue = queue; tables = t }) known refl,
      ))

  -- If all listed children are among some runs, the walk ends within two rounds more than there
  -- are such runs, also where the calls form a cycle.
  pub cancel_descendant_runs-ends :
      (root : Text) (t : Tables)
      → AreKnown
      → (w : Walk) × (cancel_descendant_runs calls (suc (suc (length nodes))) root t ≡ some w)
  unfolding cancel_descendant_runs
  cancel_descendant_runs-ends root t known =
      walk-total (suc (suc (length nodes))) (root ∷ []) (root ∷ []) t known
        (omega (arith, unvisited-all (root ∷ []) nodes))
