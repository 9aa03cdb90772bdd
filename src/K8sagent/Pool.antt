-- ===== src/K8sagent/Pool.antt =====
-- The pool of idle pods of internal/k8sagent/pool.go. What the Kubernetes API answers is an input of
-- each operation.
pub mod Count
pub mod Exclusive
pub mod Keyed
pub mod Claimed
use unified_cd.Prelude.{
  ℕ, Bool, true, false, not, List, [], ◌∷◌, ◌++◌, Option, none, some, ◌-◌, leb, ◌||◌, ◌&&◌, str,
  if◌then◌else◌, keep, is_empty, Text, text_eq, Table, lookup, insert,
}
use unified_cd.Store.Tables.{RunStatus, is_terminal}

pub record PooledPod : Type 0 where
  pub pod_name : Text
  pub pool_key : Text
  pub resource_version : Text
  pub idle_since : ℕ
  pub pod_uid : Text

-- The idle pods of each pool key.
abbrev pub PodPool : Type 0
PodPool = Table (List PooledPod)

abbrev pub or_no_pods : Option (List PooledPod) → List PooledPod
or_no_pods none = []
or_no_pods (some idle) = idle

unfoldable pub idle_pods : Text → PodPool → List PooledPod
unfolding lookup
idle_pods key pool = or_no_pods (lookup key pool)

-- `idle[:len(idle)-1]` and `idle[len(idle)-1]`
abbrev pub behind : PooledPod → Option (List PooledPod × PooledPod) → List PooledPod × PooledPod
behind pp none = ([], pp)
behind pp (some (idle, taken)) = (pp ∷ idle, taken)

unfoldable pub pop_last : List PooledPod → Option (List PooledPod × PooledPod)
pop_last [] = none
pop_last (pp ∷ idle) = some (behind pp (pop_last idle))

-- What the API answers to a claim: whether the annotations of the idle pod could be updated, the
-- version of the pod when it is read again, if it is, and the pod that a creation gives, if it does.
pub record ClaimAnswers : Type 0 where
  pub updated : Bool
  pub version : Option Text
  pub created : Option PooledPod

-- The new pod carries the key of the claim.
abbrev pub with_key : Text → Option PooledPod → Option PooledPod
with_key key none = none
with_key key (some pp) = some (record pp { pool_key = key; idle_since = 0 })

unfoldable pub create_pool_pod : Text → ClaimAnswers → Option PooledPod
create_pool_pod key answers = with_key key answers.created

abbrev pub refreshed : Option Text → PooledPod → PooledPod
refreshed none pp = pp
refreshed (some version) pp = record pp { resource_version = version }

-- The pod that the claim gets, if it gets one, and the pool. A popped pod that cannot be marked is
-- deleted, and the claim gets a new one.
abbrev pub claim_popped :
    Text → ClaimAnswers → PodPool → Option (List PooledPod × PooledPod) → Option PooledPod × PodPool
claim_popped key answers pool none = (create_pool_pod key answers, pool)
claim_popped key answers pool (some (idle, pp)) = (
  if answers.updated then some (refreshed answers.version pp) else create_pool_pod key answers,
  insert key idle pool,
)

-- `key` is the hash of the pod shape, without the lookup of the size limit that goes into it.
unfoldable pub claim_pod : Text → ClaimAnswers → PodPool → Option PooledPod × PodPool
unfolding create_pool_pod idle_pods pop_last insert
claim_pod key answers pool = claim_popped key answers pool (pop_last (idle_pods key pool))

-- `updated` is the version of the pod that was marked idle, `none` where the pod could not be read
-- or marked; it is deleted then.
abbrev pub release_updated : PooledPod → ℕ → PodPool → Option Text → PodPool
release_updated pp now pool none = pool
release_updated pp now pool (some version) =
    insert pp.pool_key
      (idle_pods pp.pool_key pool
        ++ record pp { resource_version = version; idle_since = now } ∷ [])
      pool

unfoldable pub release_pod : PooledPod → Bool → Option Text → ℕ → PodPool → PodPool
unfolding idle_pods insert
release_pod pp reuse updated now pool = if reuse then release_updated pp now pool updated else pool

abbrev pub is_fresh : ℕ → ℕ → PooledPod → Bool
is_fresh now idle_timeout pp = not (leb idle_timeout (now - pp.idle_since))

-- The pods that stay; the others are deleted.
unfoldable pub evict_expired : ℕ → ℕ → PodPool → PodPool
unfolding keep
evict_expired now idle_timeout [] = []
evict_expired now idle_timeout ((key, idle) ∷ pool) =
    (key, keep (is_fresh now idle_timeout) idle) ∷ evict_expired now idle_timeout pool

-- A pod that the agent finds when it starts, with its annotations.
pub record FoundPod : Type 0 where
  pub name : Text
  pub status : Text
  pub key : Text
  pub run_id : Text
  pub version : Text
  pub uid : Text

-- The end of a run that the master tells, if it is asked and answers.
abbrev pub run_is_over : Option (Text → Option RunStatus) → Text → Bool
run_is_over none r = false
run_is_over (some get_run) r = if is_empty r then false else over_of (get_run r)
  where
    over_of : Option RunStatus → Bool
    over_of none = false
    over_of (some status) = is_terminal status

abbrev pub adopt : ℕ → FoundPod → Text → PodPool → PodPool
adopt now pod version pool =
    insert pod.key
      (idle_pods pod.key pool
        ++ record {
          pod_name = pod.name;
          pool_key = pod.key;
          resource_version = version;
          idle_since = now;
          pod_uid = pod.uid;
        }
          ∷ [])
      pool

abbrev pub adopt_marked : ℕ → FoundPod → Option Text → PodPool → PodPool
adopt_marked now pod none pool = pool
adopt_marked now pod (some version) pool = adopt now pod version pool

module _ (now : ℕ) (master : Option (Text → Option RunStatus))
    (mark_idle : FoundPod → Option Text) where
  -- A pod that is not adopted is deleted, unless it is not of a pool. `mark_idle` is the version
  -- after the update of the annotations, if it succeeds.
  unfoldable pub restore_pod : FoundPod → PodPool → PodPool
  unfolding idle_pods insert text_eq is_terminal
  restore_pod pod pool =
      if is_empty pod.status || is_empty pod.key
      then pool
      else if text_eq pod.status (str "idle")
      then adopt now pod pod.version pool
      else if text_eq pod.status (str "in-use") && run_is_over master pod.run_id
      then adopt_marked now pod (mark_idle pod) pool
      else pool

  unfoldable pub restore : List FoundPod → PodPool → PodPool
  unfolding restore_pod
  restore [] pool = pool
  restore (pod ∷ pods) pool = restore pods (restore_pod pod pool)
