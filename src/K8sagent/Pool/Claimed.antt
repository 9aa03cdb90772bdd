-- ===== src/K8sagent/Pool/Claimed.antt =====
-- A claim gets a pod of the shape that it asks for.
use unified_cd.Prelude.{
  ◌≡◌, refl, sym, ap, ◌∙◌, List, [], ◌∷◌, Option, none, some, Bool-cases, inl, inr, Text,
}
use unified_cd.K8sagent.Pool.{
  PooledPod, PodPool, idle_pods, pop_last, ClaimAnswers, with_key, create_pool_pod, refreshed,
  claim_popped, claim_pod,
}
use unified_cd.K8sagent.Pool.Exclusive.{
  Fleet, Fleets, no_pods, restarted, step, claimed, released, evicted, handed,
}
use unified_cd.K8sagent.Pool.Keyed.{
  of_key, IsKeyed, both-right, of_key-head, popped-of_key, claim_popped-IsKeyed, empty-IsKeyed,
  evict_expired-IsKeyed, release_pod-IsKeyed, restore-IsKeyed,
}

handed-pool :
    (r : Option PooledPod × PodPool) (in_use : List PooledPod) → (handed r in_use).pool ≡ r.1
handed-pool (none, pool) in_use = refl
handed-pool (some pp, pool) in_use = refl

Fleets-IsKeyed : {fleet : Fleet} → Fleets fleet → IsKeyed fleet.pool
unfolding claim_pod
Fleets-IsKeyed no_pods = empty-IsKeyed
Fleets-IsKeyed (restarted now master mark_idle pods names) =
    restore-IsKeyed now master mark_idle pods [] empty-IsKeyed
Fleets-IsKeyed (step {a} path (claimed key answers fresh)) =
    rw (handed-pool (claim_pod key answers a.pool) a.in_use) (
      claim_popped-IsKeyed key answers a.pool (pop_last (idle_pods key a.pool)) refl
        (Fleets-IsKeyed path))
Fleets-IsKeyed (step {a} path (released xs ys pp reuse updated now split)) =
    release_pod-IsKeyed pp reuse updated now a.pool (Fleets-IsKeyed path)
Fleets-IsKeyed (step {a} path (evicted now idle_timeout)) =
    evict_expired-IsKeyed now idle_timeout a.pool (Fleets-IsKeyed path)

abbrev key_or : Text → Option PooledPod → Text
key_or key none = key
key_or key (some pp) = pp.pool_key

with_key-key :
    (key : Text) (created : Option PooledPod) (pp : PooledPod)
    → with_key key created ≡ some pp
    → key ≡ pp.pool_key
with_key-key key none pp h = let no_way : none ≡ some pp = h in cc
with_key-key key (some made) pp h = ap (key_or key) h

refreshed-key :
    (version : Option Text) (pp : PooledPod) → (refreshed version pp).pool_key ≡ pp.pool_key
refreshed-key none pp = refl
refreshed-key (some version) pp = refl

claim_popped-key :
    (key : Text) (answers : ClaimAnswers) (pool : PodPool)
    (popped : Option (List PooledPod × PooledPod)) (pp : PooledPod)
    → pop_last (idle_pods key pool) ≡ popped
    → IsKeyed pool
    → (claim_popped key answers pool popped).0 ≡ some pp
    → pp.pool_key ≡ key
unfolding create_pool_pod
claim_popped-key key answers pool none pp e v h = sym (with_key-key key answers.created pp h)
claim_popped-key key answers pool (some (idle, last)) pp e v h = elim (Bool-cases answers.updated) [
  | inr conflict ↦ sym (with_key-key key answers.created pp (rw conflict at h))
  | inl updated ↦
      let taken : some (refreshed answers.version last) ≡ some pp = rw updated at h in
      sym (ap (key_or key) taken)
      ∙ refreshed-key answers.version last
      ∙ of_key-head key last (
          both-right (of_key key idle) (of_key key (last ∷ []))
            (popped-of_key key pool idle last v e))
]

-- Through any claims, releases and evictions, from no pods or from the pods that a restart finds,
-- a claim that gets a pod gets one with the pool key that it asks for.
pub claim_pod-key :
    {fleet : Fleet} (path : Fleets fleet) (key : Text) (answers : ClaimAnswers) (pp : PooledPod)
    → (claim_pod key answers fleet.pool).0 ≡ some pp
    → pp.pool_key ≡ key
unfolding claim_pod
claim_pod-key {fleet} path key answers pp h =
    claim_popped-key key answers fleet.pool (pop_last (idle_pods key fleet.pool)) pp refl
      (Fleets-IsKeyed path) h
