-- ===== src/K8sagent/Pool/Keyed.antt =====
-- Each operation leaves the pods under their keys.
use unified_cd.Prelude.{
  ◌≡◌, refl, sym, ap, ◌∙◌, ℕ, Bool, true, false, ◌&&◌, List, [], ◌∷◌, ◌++◌, Option, none, some,
  arith, Bool-cases, inl, inr, if◌then◌else◌, all, keep, Text, text_eq, text_eq_iff, text_eq_refl,
  lookup, insert, lookup-insert,
}
use unified_cd.K8sagent.Pool.{
  PooledPod, PodPool, or_no_pods, idle_pods, pop_last, ClaimAnswers, claim_popped, release_pod,
  is_fresh, evict_expired, FoundPod, adopt, adopt_marked, restore_pod, restore,
}
use unified_cd.Store.Tables.{RunStatus}
use unified_cd.K8sagent.Pool.Count.{pop_last-append, if_both}

-- All the pods of a list have the key.
unfoldable pub of_key : Text → List PooledPod → Bool
unfolding all text_eq
of_key key pods = all (λ pp. text_eq pp.pool_key key) pods

pub IsKeyed : PodPool → Type 0
IsKeyed pool = (key : Text) → of_key key (idle_pods key pool) ≡ true

of_key-append :
    (key : Text) (xs ys : List PooledPod) → of_key key (xs ++ ys) ≡ (of_key key xs && of_key key ys)
unfolding of_key all
of_key-append key [] ys = refl
of_key-append key (x ∷ xs) ys = ground (arith, of_key-append key xs ys)

of_key-single : (pp : PooledPod) → of_key pp.pool_key (pp ∷ []) ≡ true
unfolding of_key all
of_key-single pp = rw (text_eq_refl pp.pool_key) refl

of_key-keep :
    (key : Text) (p : PooledPod → Bool) (xs : List PooledPod)
    → of_key key xs ≡ true
    → of_key key (keep p xs) ≡ true
unfolding of_key all keep
of_key-keep key p [] h = refl
of_key-keep key p (x ∷ xs) h = ground (arith, of_key-keep key p xs)

idle_pods-insert :
    (key k : Text) (idle : List PooledPod) (pool : PodPool)
    → idle_pods k (insert key idle pool) ≡ (if text_eq key k then idle else idle_pods k pool)
unfolding idle_pods
idle_pods-insert key k idle pool =
    ap or_no_pods (lookup-insert key k idle pool) ∙ out (text_eq key k)
  where
    out :
        (b : Bool)
        → or_no_pods (if b then some idle else lookup k pool)
          ≡ (if b then idle else or_no_pods (lookup k pool))
    out true = refl
    out false = refl

insert-IsKeyed :
    (key : Text) (idle : List PooledPod) (pool : PodPool)
    → of_key key idle ≡ true
    → IsKeyed pool
    → IsKeyed (insert key idle pool)
unfolding IsKeyed
insert-IsKeyed key idle pool h v k = elim (Bool-cases (text_eq key k)) [
  | inl here ↦
      ap (of_key k)
        (idle_pods-insert key k idle pool ∙ ap (λ b. if b then idle else idle_pods k pool) here)
      ∙ ap (λ j. of_key j idle) (sym ((text_eq_iff key k).0 here))
      ∙ h
  | inr other ↦
      ap (of_key k)
        (idle_pods-insert key k idle pool ∙ ap (λ b. if b then idle else idle_pods k pool) other)
      ∙ v k
]

idle_pods-evict_expired :
    (key : Text) (now idle_timeout : ℕ) (pool : PodPool)
    → idle_pods key (evict_expired now idle_timeout pool)
      ≡ keep (is_fresh now idle_timeout) (idle_pods key pool)
unfolding idle_pods evict_expired lookup keep
idle_pods-evict_expired key now idle_timeout [] = refl
idle_pods-evict_expired key now idle_timeout ((k, idle) ∷ pool) =
    elim (Bool-cases (text_eq k key)) [
      | inl here ↦ rw here refl
      | inr other ↦ rw other (idle_pods-evict_expired key now idle_timeout pool)
    ]

-- The last pod of a bucket has the key, and so have the others.
pub popped-of_key :
    (key : Text) (pool : PodPool) (idle : List PooledPod) (pp : PooledPod)
    → IsKeyed pool
    → pop_last (idle_pods key pool) ≡ some (idle, pp)
    → (of_key key idle && of_key key (pp ∷ [])) ≡ true
unfolding IsKeyed
popped-of_key key pool idle pp v e =
    sym (of_key-append key idle (pp ∷ []))
    ∙ ap (of_key key) (sym (pop_last-append (idle_pods key pool) idle pp e))
    ∙ v key

pub both-left : (a b : Bool) → (a && b) ≡ true → a ≡ true
both-left a b h = ground arith

pub both-right : (a b : Bool) → (a && b) ≡ true → b ≡ true
both-right a b h = ground arith

pub of_key-head : (key : Text) (pp : PooledPod) → of_key key (pp ∷ []) ≡ true → pp.pool_key ≡ key
unfolding of_key all
of_key-head key pp h = (text_eq_iff pp.pool_key key).0 (both-left (text_eq pp.pool_key key) true h)

pub claim_popped-IsKeyed :
    (key : Text) (answers : ClaimAnswers) (pool : PodPool)
    (popped : Option (List PooledPod × PooledPod))
    → pop_last (idle_pods key pool) ≡ popped
    → IsKeyed pool
    → IsKeyed (claim_popped key answers pool popped).1
claim_popped-IsKeyed key answers pool none e v = v
claim_popped-IsKeyed key answers pool (some (idle, pp)) e v =
    insert-IsKeyed key idle pool
      (both-left (of_key key idle) (of_key key (pp ∷ [])) (popped-of_key key pool idle pp v e)) v

of_key-idle_pods :
    (key : Text) (pool : PodPool) → IsKeyed pool → of_key key (idle_pods key pool) ≡ true
unfolding IsKeyed
of_key-idle_pods key pool v = v key

pub empty-IsKeyed : IsKeyed []
unfolding IsKeyed idle_pods lookup of_key all
empty-IsKeyed key = refl

pub evict_expired-IsKeyed :
    (now idle_timeout : ℕ) (pool : PodPool)
    → IsKeyed pool
    → IsKeyed (evict_expired now idle_timeout pool)
unfolding IsKeyed
evict_expired-IsKeyed now idle_timeout pool v key =
    ap (of_key key) (idle_pods-evict_expired key now idle_timeout pool)
    ∙ of_key-keep key (is_fresh now idle_timeout) (idle_pods key pool) (v key)

append-IsKeyed :
    (pp : PooledPod) (pool : PodPool)
    → IsKeyed pool
    → IsKeyed (insert pp.pool_key (idle_pods pp.pool_key pool ++ pp ∷ []) pool)
append-IsKeyed pp pool v =
    let idle = idle_pods pp.pool_key pool in
    insert-IsKeyed pp.pool_key (idle ++ pp ∷ []) pool
      (of_key-append pp.pool_key idle (pp ∷ [])
        ∙ ap (λ b. b && of_key pp.pool_key (pp ∷ [])) (of_key-idle_pods pp.pool_key pool v)
        ∙ of_key-single pp)
      v

pub release_pod-IsKeyed :
    (pp : PooledPod) (reuse : Bool) (updated : Option Text) (now : ℕ) (pool : PodPool)
    → IsKeyed pool
    → IsKeyed (release_pod pp reuse updated now pool)
unfolding release_pod
release_pod-IsKeyed pp false updated now pool v = v
release_pod-IsKeyed pp true none now pool v = v
release_pod-IsKeyed pp true (some version) now pool v =
    append-IsKeyed (record pp { resource_version = version; idle_since = now }) pool v

module _ (now : ℕ) (master : Option (Text → Option RunStatus))
    (mark_idle : FoundPod → Option Text) where
  adopt-IsKeyed :
      (pod : FoundPod) (version : Text) (pool : PodPool)
      → IsKeyed pool
      → IsKeyed (adopt now pod version pool)
  adopt-IsKeyed pod version pool v =
      append-IsKeyed
        (record {
          pod_name = pod.name;
          pool_key = pod.key;
          resource_version = version;
          idle_since = now;
          pod_uid = pod.uid;
        })
        pool v

  adopt_marked-IsKeyed :
      (pod : FoundPod) (version : Option Text) (pool : PodPool)
      → IsKeyed pool
      → IsKeyed (adopt_marked now pod version pool)
  adopt_marked-IsKeyed pod none pool v = v
  adopt_marked-IsKeyed pod (some version) pool v = adopt-IsKeyed pod version pool v

  pub restore-IsKeyed :
      (pods : List FoundPod) (pool : PodPool)
      → IsKeyed pool
      → IsKeyed (restore now master mark_idle pods pool)
  unfolding restore restore_pod
  restore-IsKeyed [] pool v = v
  restore-IsKeyed (pod ∷ pods) pool v =
      restore-IsKeyed pods (restore_pod now master mark_idle pod pool) (
        if_both IsKeyed _ _ _ v (
          if_both IsKeyed _ _ _ (adopt-IsKeyed pod pod.version pool v)
            (if_both IsKeyed _ _ _ (adopt_marked-IsKeyed pod (mark_idle pod) pool v) v)))
