-- ===== src/K8sagent/Pool/Count.antt =====
-- How many pods of a name the pool has, before and after each operation.
use unified_cd.Prelude.{
  ◌≡◌, refl, sym, ap, ◌∙◌, ℕ, ◌+◌, ◌≤◌, Bool, true, false, List, [], ◌∷◌, ◌++◌, Option, none, some,
  arith, Bool-cases, inl, inr, if◌then◌else◌, length, length-append, keep, Text, text_eq, lookup,
  insert,
}
use unified_cd.Prelude.Window.{keep-append}
use unified_cd.K8sagent.Pool.{
  PooledPod, PodPool, idle_pods, behind, pop_last, release_pod, is_fresh, evict_expired, FoundPod,
  adopt, adopt_marked, restore_pod, restore,
}
use unified_cd.Store.Tables.{RunStatus}

-- How many of the pods have the name.
unfoldable pub count : Text → List PooledPod → ℕ
unfolding keep text_eq
count n pods = length (keep (λ pp. text_eq pp.pod_name n) pods)

unfoldable pub count_idle : Text → PodPool → ℕ
unfolding count
count_idle n [] = 0
count_idle n ((key, idle) ∷ pool) = count n idle + count_idle n pool

pub count-append :
    (n : Text) (xs ys : List PooledPod) → count n (xs ++ ys) ≡ count n xs + count n ys
unfolding count
count-append n xs ys =
    ap length (keep-append (λ pp. text_eq pp.pod_name n) xs ys)
    ∙ length-append (keep (λ pp. text_eq pp.pod_name n) xs) (keep (λ pp. text_eq pp.pod_name n) ys)

-- A head counts alone.
pub count-cons :
    (n : Text) (pp : PooledPod) (xs : List PooledPod)
    → count n (pp ∷ xs) ≡ count n (pp ∷ []) + count n xs
count-cons n pp xs = count-append n (pp ∷ []) xs

pub count-nil : (n : Text) → count n [] ≡ 0
unfolding count keep
count-nil n = refl

pub count-single :
    (n : Text) (pp : PooledPod) → count n (pp ∷ []) ≡ (if text_eq pp.pod_name n then 1 else 0)
unfolding count keep
count-single n pp = ground arith

pub count-one : (n : Text) (pp : PooledPod) → count n (pp ∷ []) ≤ 1
count-one n pp = ground (arith, count-single n pp)

pub count-other :
    (n : Text) (pp : PooledPod) → text_eq pp.pod_name n ≡ false → count n (pp ∷ []) ≡ 0
count-other n pp other = ground (arith, count-single n pp)

pub count-same :
    (n : Text) (a b : PooledPod) → a.pod_name ≡ b.pod_name → count n (a ∷ []) ≡ count n (b ∷ [])
count-same n a b e =
    count-single n a ∙ ap (λ m. if text_eq m n then 1 else 0) e ∙ sym (count-single n b)

-- The bucket of the key is replaced.
pub count_idle-insert :
    (n key : Text) (idle : List PooledPod) (pool : PodPool)
    → count_idle n (insert key idle pool) + count n (idle_pods key pool)
      ≡ count_idle n pool + count n idle
unfolding count_idle insert idle_pods lookup
count_idle-insert n key idle [] = omega (arith, count-nil n)
count_idle-insert n key idle ((k, old) ∷ pool) = elim (Bool-cases (text_eq k key)) [
  | inl here ↦ rw here (omega arith)
  | inr other ↦ rw other (omega (arith, count_idle-insert n key idle pool))
]

pop_last-splits :
    (pp : PooledPod) (pods : List PooledPod)
    → pp ∷ pods ≡ (behind pp (pop_last pods)).0 ++ (behind pp (pop_last pods)).1 ∷ []
unfolding pop_last
pop_last-splits pp [] = refl
pop_last-splits pp (qq ∷ pods) = ap (λ r. pp ∷ r) (pop_last-splits qq pods)

-- The popped pod was the last.
pub pop_last-append :
    (pods idle : List PooledPod) (pp : PooledPod)
    → pop_last pods ≡ some (idle, pp)
    → pods ≡ idle ++ pp ∷ []
unfolding pop_last
pop_last-append [] idle pp e = let no_way : none ≡ some (idle, pp) = e in cc
pop_last-append (qq ∷ pods) idle pp e =
    pop_last-splits qq pods ∙ ap (λ o. (or_else o).0 ++ (or_else o).1 ∷ []) e
  where
    or_else : Option (List PooledPod × PooledPod) → List PooledPod × PooledPod
    or_else none = (idle, pp)
    or_else (some r) = r

pub count-keep :
    (n : Text) (p : PooledPod → Bool) (xs : List PooledPod) → count n (keep p xs) ≤ count n xs
unfolding count keep
count-keep n p [] = omega arith
count-keep n p (x ∷ xs) = ground (arith, count-keep n p xs)

pub count_idle-evict_expired :
    (n : Text) (now idle_timeout : ℕ) (pool : PodPool)
    → count_idle n (evict_expired now idle_timeout pool) ≤ count_idle n pool
unfolding count_idle evict_expired
count_idle-evict_expired n now idle_timeout [] = omega arith
count_idle-evict_expired n now idle_timeout ((key, idle) ∷ pool) = omega (
  arith,
  count-keep n (is_fresh now idle_timeout) idle,
  count_idle-evict_expired n now idle_timeout pool,
)

-- A pod is put at the end of its bucket.
count_idle-append :
    (n : Text) (pp : PooledPod) (pool : PodPool)
    → count_idle n (insert pp.pool_key (idle_pods pp.pool_key pool ++ pp ∷ []) pool)
      ≡ count_idle n pool + count n (pp ∷ [])
count_idle-append n pp pool =
    let idle = idle_pods pp.pool_key pool in
    omega
      (arith, count_idle-insert n pp.pool_key (idle ++ pp ∷ []) pool, count-append n idle (pp ∷ []))

pub count_idle-release_pod :
    (pp : PooledPod) (reuse : Bool) (updated : Option Text) (now : ℕ) (pool : PodPool) (n : Text)
    → count_idle n (release_pod pp reuse updated now pool) ≤ count_idle n pool + count n (pp ∷ [])
unfolding release_pod
count_idle-release_pod pp true none now pool n = omega arith
count_idle-release_pod pp true (some version) now pool n =
    let back : PooledPod = record pp { resource_version = version; idle_since = now } in
    omega (arith, count_idle-append n back pool, count-same n back pp refl)
count_idle-release_pod pp false updated now pool n = omega arith

pub count_idle-popped :
    (n key : Text) (pool : PodPool) (idle : List PooledPod) (pp : PooledPod)
    → pop_last (idle_pods key pool) ≡ some (idle, pp)
    → count_idle n (insert key idle pool) + count n (pp ∷ []) ≡ count_idle n pool
count_idle-popped n key pool idle pp e = omega (
  arith,
  count_idle-insert n key idle pool,
  count-append n idle (pp ∷ []),
  ap (count n) (pop_last-append (idle_pods key pool) idle pp e),
)

-- How many of the found pods have the name.
unfoldable pub found : Text → List FoundPod → ℕ
unfolding keep text_eq
found n pods = length (keep (λ pod. text_eq pod.name n) pods)

pub if_both {ℓ κ} :
    {A : Type ℓ} (P : A → Type κ) (b : Bool) (x y : A) → P x → P y → P (if b then x else y)
if_both P true x y px py = px
if_both P false x y px py = py

module _ (now : ℕ) (master : Option (Text → Option RunStatus)) (mark_idle : FoundPod → Option Text)
    (n : Text) where
  abbrev Grown : FoundPod → PodPool → PodPool → Type 0
  Grown pod pool new = count_idle n new ≤ count_idle n pool + found n (pod ∷ [])

  Grown-same : (pod : FoundPod) (pool : PodPool) → Grown pod pool pool
  Grown-same pod pool = omega arith

  Grown-adopt :
      (pod : FoundPod) (version : Text) (pool : PodPool)
      → Grown pod pool (adopt now pod version pool)
  unfolding found keep
  Grown-adopt pod version pool =
      let made : PooledPod = record {
        pod_name = pod.name;
        pool_key = pod.key;
        resource_version = version;
        idle_since = now;
        pod_uid = pod.uid;
      } in
      ground (arith, count_idle-append n made pool, count-single n made)

  Grown-adopt_marked :
      (pod : FoundPod) (version : Option Text) (pool : PodPool)
      → Grown pod pool (adopt_marked now pod version pool)
  Grown-adopt_marked pod none pool = omega arith
  Grown-adopt_marked pod (some version) pool = Grown-adopt pod version pool

  Grown-restore_pod :
      (pod : FoundPod) (pool : PodPool) → Grown pod pool (restore_pod now master mark_idle pod pool)
  unfolding restore_pod
  Grown-restore_pod pod pool = if_both (Grown pod pool) _ _ _ (Grown-same pod pool) (
      if_both (Grown pod pool) _ _ _ (Grown-adopt pod pod.version pool) (
        if_both (Grown pod pool) _ _ _ (Grown-adopt_marked pod (mark_idle pod) pool)
          (Grown-same pod pool)))

  pub count_idle-restore :
      (pods : List FoundPod) (pool : PodPool)
      → count_idle n (restore now master mark_idle pods pool) ≤ count_idle n pool + found n pods
  unfolding restore found keep
  count_idle-restore [] pool = omega arith
  count_idle-restore (pod ∷ pods) pool =
      let first = Grown-restore_pod pod pool in
      let others = count_idle-restore pods (restore_pod now master mark_idle pod pool) in
      ground (arith, first, others)
