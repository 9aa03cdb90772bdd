-- ===== src/Tests/Pools.antt =====
-- A pod that goes from one run to another.
use unified_cd.Prelude.{◌≡◌, refl, ap, ◌≤◌, true, false, [], ◌∷◌, none, some, str, text_eq, lookup}
use unified_cd.Store.Tables.{running, succeeded}
use unified_cd.K8sagent.Pool.{
  PooledPod, PodPool, ClaimAnswers, claim_pod, release_pod, evict_expired, FoundPod, restore,
}
use unified_cd.K8sagent.Pool.Exclusive.{
  Fleet, Fleets, no_pods, step, claimed, released, uses, IsExclusive, IsFreshlyNamed, handed,
  Fleets-IsExclusive,
}
use unified_cd.K8sagent.Pool.Claimed.{claim_pod-key}

abbrev made : PooledPod
made = record {
  pod_name = str "pod-1";
  pool_key = [];
  resource_version = str "1";
  idle_since = 0;
  pod_uid = str "u1";
}

abbrev first_pod : PooledPod
first_pod = record made { pool_key = str "k" }

abbrev creates : ClaimAnswers
creates = record { updated = false; version = none; created = some made }

abbrev reuses : ClaimAnswers
reuses = record { updated = true; version = some (str "3"); created = none }

abbrev no_fleet : Fleet
no_fleet = record { pool = []; in_use = [] }

first_claim : claim_pod (str "k") creates [] ≡ (some first_pod, [])
unfolding claim_pod lookup
first_claim = refl

abbrev after_release : PodPool
after_release = release_pod first_pod true (some (str "2")) 5 []

second_claim :
    claim_pod (str "k") reuses after_release
    ≡ (some (record first_pod { resource_version = str "3"; idle_since = 5 }), (str "k", []) ∷ [])
unfolding claim_pod release_pod lookup text_eq
second_claim = refl

-- Another shape gets nothing from the pool, and no new pod is created here.
other_key : (claim_pod (str "m") reuses after_release).0 ≡ none
unfolding claim_pod release_pod lookup text_eq
other_key = refl

expires : evict_expired 15 10 after_release ≡ (str "k", []) ∷ []
unfolding evict_expired release_pod lookup
expires = refl

abbrev found_in_use : FoundPod
found_in_use = record {
  name = str "pod-1";
  status = str "in-use";
  key = str "k";
  run_id = str "r";
  version = str "1";
  uid = str "u1";
}

over_is_adopted :
    lookup
      (str "k")
      (restore 7 (some (λ r. some succeeded)) (λ p. some (str "2")) (found_in_use ∷ []) [])
    ≡ some (record first_pod { resource_version = str "2"; idle_since = 7 } ∷ [])
unfolding restore lookup
over_is_adopted = refl

running_is_not :
    restore 7 (some (λ r. some running)) (λ p. some (str "2")) (found_in_use ∷ []) [] ≡ []
unfolding restore
running_is_not = refl

nothing_yet : IsFreshlyNamed creates no_fleet
unfolding IsFreshlyNamed uses unified_cd.K8sagent.Pool.Count.count_idle
nothing_yet pp e = refl

claimed_once : Fleets (handed (claim_pod (str "k") creates []) [])
claimed_once = step no_pods (claimed (str "k") creates nothing_yet)

given_once : Fleets (record { pool = []; in_use = first_pod ∷ [] })
unfolding claim_pod lookup
given_once = claimed_once

given_back : Fleets (record { pool = after_release; in_use = [] })
given_back = step given_once (released [] [] first_pod true (some (str "2")) 5 refl)

Fleets-IsExclusive_example : uses (str "pod-1") (record { pool = after_release; in_use = [] }) ≤ 1
unfolding IsExclusive
Fleets-IsExclusive_example = Fleets-IsExclusive given_back (str "pod-1")

claim_pod-key_example :
    (record first_pod { resource_version = str "3"; idle_since = 5 }).pool_key ≡ str "k"
claim_pod-key_example =
    claim_pod-key given_back (str "k") reuses
      (record first_pod { resource_version = str "3"; idle_since = 5 }) (ap (λ r. r.0) second_claim)
