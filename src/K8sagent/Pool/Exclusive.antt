-- ===== src/K8sagent/Pool/Exclusive.antt =====
-- No pod is handed out twice.
use unified_cd.Prelude.{
  ◌≡◌, refl, sym, ap, ◌∙◌, ℕ, ◌+◌, ◌≤◌, Bool, List, [], ◌∷◌, ◌++◌, Option, none, some, arith,
  Bool-cases, inl, inr, Text, text_eq, text_eq_iff, insert,
}
use unified_cd.K8sagent.Pool.{
  PooledPod, PodPool, idle_pods, pop_last, ClaimAnswers, with_key, create_pool_pod, refreshed,
  claim_popped, claim_pod, release_pod, evict_expired, FoundPod, restore,
}
use unified_cd.Store.Tables.{RunStatus}
use unified_cd.K8sagent.Pool.Count.{
  count, count_idle, count-append, count-cons, count-nil, count-one, count-other, count-same, found,
  count_idle-restore, count_idle-evict_expired, count_idle-release_pod, count_idle-popped,
}

-- The pool, and the pods that runs have.
pub record Fleet : Type 0 where
  pub pool : PodPool
  pub in_use : List PooledPod

unfoldable pub uses : Text → Fleet → ℕ
uses n fleet = count_idle n fleet.pool + count n fleet.in_use

unfoldable pub IsExclusive : Fleet → Type 0
unfolding uses
IsExclusive fleet = (n : Text) → uses n fleet ≤ 1

abbrev pub handed : Option PooledPod × PodPool → List PooledPod → Fleet
handed (none, pool) in_use = record { pool = pool; in_use = in_use }
handed (some pp, pool) in_use = record { pool = pool; in_use = pp ∷ in_use }

-- A new pod has a name that no pod has: the API refuses a second pod of a name.
unfoldable pub IsFreshlyNamed : ClaimAnswers → Fleet → Type 0
unfolding uses
IsFreshlyNamed answers fleet =
    (pp : PooledPod) → answers.created ≡ some pp → uses pp.pod_name fleet ≡ 0

pub data FleetStep (fleet : Fleet) : Fleet → Type 0 where
  claimed :
      (key : Text) (answers : ClaimAnswers)
      → IsFreshlyNamed answers fleet
      → FleetStep fleet (handed (claim_pod key answers fleet.pool) fleet.in_use)
  released :
      (xs ys : List PooledPod) (pp : PooledPod) (reuse : Bool) (updated : Option Text) (now : ℕ)
      → fleet.in_use ≡ xs ++ pp ∷ ys
      → FleetStep fleet
          (record { pool = release_pod pp reuse updated now fleet.pool; in_use = xs ++ ys })
  evicted :
      (now idle_timeout : ℕ)
      → FleetStep fleet (record fleet { pool = evict_expired now idle_timeout fleet.pool })

pub data Fleets : Fleet → Type 0 where
  no_pods : Fleets (record { pool = []; in_use = [] })
  restarted :
      (now : ℕ) (master : Option (Text → Option RunStatus)) (mark_idle : FoundPod → Option Text)
      (pods : List FoundPod)
      → ((n : Text) → found n pods ≤ 1)
      → Fleets (record { pool = restore now master mark_idle pods []; in_use = [] })
  step : {a b : Fleet} → Fleets a → FleetStep a b → Fleets b

-- The new pod is the only one of its name.
created-IsExclusive :
    (key : Text) (answers : ClaimAnswers) (pool : PodPool) (fleet : Fleet)
    (created : Option PooledPod)
    → answers.created ≡ created
    → IsFreshlyNamed answers fleet
    → IsExclusive fleet
    → ((n : Text) → count_idle n pool ≤ count_idle n fleet.pool)
    → IsExclusive (handed (with_key key created, pool) fleet.in_use)
unfolding IsExclusive uses IsFreshlyNamed
created-IsExclusive key answers pool fleet none e fresh v le n = omega (arith, v n, le n)
created-IsExclusive key answers pool fleet (some pp) e fresh v le n =
    let made : PooledPod = record pp { pool_key = key; idle_since = 0 } in
    let alone = count-cons n made fleet.in_use in
    elim (Bool-cases (text_eq pp.pod_name n)) [
      | inl here ↦
          let none_yet : uses n fleet ≡ 0 =
            ap (λ m. uses m fleet) (sym ((text_eq_iff pp.pod_name n).0 here)) ∙ fresh pp e in
          omega (arith, le n, alone, count-one n made, none_yet)
      | inr other ↦ omega (arith, le n, alone, count-other n made other, v n)
    ]

refreshed-name :
    (version : Option Text) (pp : PooledPod) → (refreshed version pp).pod_name ≡ pp.pod_name
refreshed-name none pp = refl
refreshed-name (some version) pp = refl

taken-IsExclusive :
    (version : Option Text) (key : Text) (fleet : Fleet) (idle : List PooledPod) (pp : PooledPod)
    → pop_last (idle_pods key fleet.pool) ≡ some (idle, pp)
    → IsExclusive fleet
    → IsExclusive (handed (some (refreshed version pp), insert key idle fleet.pool) fleet.in_use)
unfolding IsExclusive uses
taken-IsExclusive version key fleet idle pp e v n = omega (
  arith,
  v n,
  count-cons n (refreshed version pp) fleet.in_use,
  count-same n (refreshed version pp) pp (refreshed-name version pp),
  count_idle-popped n key fleet.pool idle pp e,
)

claim_popped-IsExclusive :
    (key : Text) (answers : ClaimAnswers) (fleet : Fleet)
    (popped : Option (List PooledPod × PooledPod))
    → pop_last (idle_pods key fleet.pool) ≡ popped
    → IsFreshlyNamed answers fleet
    → IsExclusive fleet
    → IsExclusive (handed (claim_popped key answers fleet.pool popped) fleet.in_use)
unfolding create_pool_pod
claim_popped-IsExclusive key answers fleet none e fresh v =
    created-IsExclusive key answers fleet.pool fleet answers.created refl fresh v (λ n. omega arith)
claim_popped-IsExclusive key answers fleet (some (idle, pp)) e fresh v =
    elim (Bool-cases answers.updated) [
      | inl updated ↦ rw updated (taken-IsExclusive answers.version key fleet idle pp e v)
      | inr conflict ↦ rw conflict (
          created-IsExclusive key answers (insert key idle fleet.pool) fleet answers.created refl
            fresh v (λ n. omega (arith, count_idle-popped n key fleet.pool idle pp e)))
    ]

-- Through any claims, releases and evictions, from no pods or from the pods with different names
-- that a restart finds, a name is at most once among the idle pods of all keys and the pods that
-- runs have, if the API gives a new pod a name that none of them has: no run gets the pod of
-- another.
pub Fleets-IsExclusive : {fleet : Fleet} → Fleets fleet → IsExclusive fleet
unfolding IsExclusive uses count_idle claim_pod
Fleets-IsExclusive no_pods n = omega (arith, count-nil n)
Fleets-IsExclusive (restarted now master mark_idle pods names) n =
    omega (arith, names n, count_idle-restore now master mark_idle n pods [], count-nil n)
Fleets-IsExclusive (step {a} path (claimed key answers fresh)) n =
    claim_popped-IsExclusive key answers a (pop_last (idle_pods key a.pool)) refl fresh
      (Fleets-IsExclusive path) n
Fleets-IsExclusive (step {a} path (released xs ys pp reuse updated now split)) n = omega (
  arith,
  Fleets-IsExclusive path n,
  count_idle-release_pod pp reuse updated now a.pool n,
  ap (count n) split,
  count-append n xs (pp ∷ ys),
  count-cons n pp ys,
  count-append n xs ys,
)
Fleets-IsExclusive (step {a} path (evicted now idle_timeout)) n =
    omega (arith, Fleets-IsExclusive path n, count_idle-evict_expired n now idle_timeout a.pool)
