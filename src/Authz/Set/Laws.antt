-- ===== src/Authz/Set/Laws.antt =====
-- Each operation on permission sets, told by the permissions that are held.
use unified_cd.Prelude.{
  ℕ, ◌^◌, ◌<◌, bit_or, ◌≡◌, refl, Bool, inl, inr, true, false, ◌&&◌, ◌||◌, List, [], ◌∷◌, none,
  some, arith, ltb, ◌==◌, Option-cases, Bool-cases, ltb→lt, ==_iff, contains, any, text_eq,
  text_eq_iff,
}
use unified_cd.Prelude.Bits.{
  bit, bit-bit_or, bit-bit_and, bit_and-one_shifted, bit-lt-two, bit-two_pow_self, bit-two_pow_ne,
  bit-ones, bit-ones_above, bit-zero,
}
use native.Mathlib.Nat.{one-le-pow, pow-le-pow_right}
use unified_cd.Authz.Catalogue.{
  Permission, bit_of, bit_of-lt, bit_of_inj, is_known, is_known-bit_of, folder_scopable,
}
use unified_cd.Authz.Set.{
  Set, one_shl, all_set, has_bit, has, with_one, with_all, union, intersect, folder_part,
  is_empty_set,
}

-- The bits below 26 are inside the word, so the shift does not overflow.
one_shl-eq-pow : (i : ℕ) → i < 32 → one_shl i ≡ 2 ^ i
one_shl-eq-pow i h =
    omega (arith, pow-le-pow_right {n = 2} (omega arith) {i = i} {j = 31} (omega arith))

pub has_bit-bit : (s i : ℕ) → i < 32 → has_bit s i ≡ (bit s i == 1)
unfolding has_bit
has_bit-bit s i h =
    rw (one_shl-eq-pow i h, bit_and-one_shifted i s)
      (elim (Bool-cases (bit s i == 1)) [
        | inl one ↦ ground (arith, one-le-pow i 2)
        | inr other ↦ ground (arith, bit-lt-two i s)
      ])

pub has-known : (s : Set) (p : Permission) {i : ℕ} → bit_of p ≡ some i → has s p ≡ (bit s i == 1)
unfolding has
has-known s p {i} e = rw e (has_bit-bit s i (omega (arith, bit_of-lt p i e)))

pub has-unknown : (s : Set) (p : Permission) → bit_of p ≡ none → has s p ≡ false
unfolding has
has-unknown s p e = rw e

-- A permission that is not in the catalogue is never held.
pub has-is_known : (s : Set) (p : Permission) → has s p ≡ true → is_known p ≡ true
has-is_known s p h = ground (arith, has-unknown s p, is_known-bit_of p)

module _ (s o : Set) (p : Permission) where
  pub has-union : has (union s o) p ≡ (has s p || has o p)
  unfolding union
  has-union = elim (Option-cases (bit_of p)) [
    | inl e ↦ rw (has-unknown _ p e, has-unknown s p e, has-unknown o p e)
    | inr (i, e) ↦
        rw (has-known _ p e, has-known s p e, has-known o p e)
          (ground (arith, bit-bit_or i s o, bit-lt-two i s, bit-lt-two i o))
  ]

  pub has-intersect : has (intersect s o) p ≡ (has s p && has o p)
  unfolding intersect
  has-intersect = elim (Option-cases (bit_of p)) [
    | inl e ↦ rw (has-unknown _ p e, has-unknown s p e)
    | inr (i, e) ↦
        rw (has-known _ p e, has-known s p e, has-known o p e)
          (ground (arith, bit-bit_and i s o, bit-lt-two i s, bit-lt-two i o))
  ]

bit-folder_part : (s i : ℕ) → (bit (folder_part s) i == 1) ≡ (bit s i == 1 && ltb i 9)
unfolding folder_part
bit-folder_part s i = elim (Bool-cases (ltb i 9)) [
  | inl low ↦
      rw (low, bit-bit_and i s 511, bit-ones i 9 (ltb→lt i 9 low)) (ground (arith, bit-lt-two i s))
  | inr high ↦
      rw (high, bit-bit_and i s 511, bit-ones_above i 9 (ground arith))
        (ground (arith, bit-lt-two i s))
]

pub has-folder_part :
    (s : Set) (p : Permission) → has (folder_part s) p ≡ (has s p && folder_scopable p)
unfolding folder_scopable
has-folder_part s p = elim (Option-cases (bit_of p)) [
  | inl e ↦ rw (has-unknown _ p e, has-unknown s p e)
  | inr (i, e) ↦ rw (has-known _ p e, has-known s p e, e) (bit-folder_part s i)
]

pub has-all_set : (p : Permission) → has all_set p ≡ is_known p
unfolding all_set
has-all_set p = elim (Option-cases (bit_of p)) [
  | inl e ↦ rw (has-unknown _ p e, is_known-bit_of p, e)
  | inr (i, e) ↦
      rw (has-known _ p e, is_known-bit_of p, e) (ground (arith, bit-ones i 26 (bit_of-lt p i e)))
]

bit-with_bit : (s i j : ℕ) → j < 32 → (bit (bit_or s (one_shl j)) i == 1) ≡ (bit s i == 1 || i == j)
bit-with_bit s i j h =
    rw (one_shl-eq-pow j h, bit-bit_or i s (2 ^ j))
      (elim (Bool-cases (i == j)) [
        | inl same ↦ rw ((==_iff i j).0 same, bit-two_pow_self j) (ground (arith, bit-lt-two j s))
        | inr apart ↦ rw (apart, bit-two_pow_ne i j (ground arith)) (ground (arith, bit-lt-two i s))
      ])

-- Two permissions share a bit exactly when they are the same.
one_bit : (p q : Permission) {i j : ℕ} → bit_of p ≡ some i → bit_of q ≡ some j → q ≡ p → i ≡ j
one_bit p q e f same = cc

same_bit :
    (p q : Permission) {i j : ℕ} → bit_of p ≡ some i → bit_of q ≡ some j → (i == j) ≡ text_eq q p
same_bit p q {i} {j} e f = elim (Bool-cases (text_eq q p)) [
  | inl t ↦ rw t ((==_iff i j).1 (one_bit p q e f ((text_eq_iff q p).0 t)))
  | inr t ↦ ground (arith, text_eq_iff q p, bit_of_inj q p i)
]

or_false : (b : Bool) → b ≡ (b || false)
or_false true = refl
or_false false = refl

known_ne : (p q : Permission) {i : ℕ} → bit_of p ≡ some i → bit_of q ≡ none → text_eq q p ≡ false
known_ne p q e f = elim (Bool-cases (text_eq q p)) [
  | inl t ↦ let same : q ≡ p = (text_eq_iff q p).0 t in cc
  | inr t ↦ t
]

pub has-with_one :
    (s : Set) (q p : Permission) → has (with_one s q) p ≡ (has s p || (is_known p && text_eq q p))
unfolding with_one
has-with_one s q p = elim (Option-cases (bit_of p)) [
  | inl e ↦ rw (has-unknown _ p e, has-unknown s p e, is_known-bit_of p, e)
  | inr (i, e) ↦
      rw (has-known _ p e, has-known s p e, is_known-bit_of p, e)
        (elim (Option-cases (bit_of q)) [
          | inl f ↦ rw (f, known_ne p q e f) (or_false (bit s i == 1))
          | inr (j, f) ↦
              rw f
                (rw (bit-with_bit s i j (omega (arith, bit_of-lt q j f))) (rw (same_bit p q e f)))
        ])
]

-- `With` adds the known permissions of the list, and nothing else.
pub has-with_all :
    (s : Set) (ps : List Permission) (p : Permission)
    → has (with_all s ps) p ≡ (has s p || (is_known p && contains ps p))
unfolding with_all contains any
has-with_all s [] p = ground arith
has-with_all s (q ∷ ps) p = ground (arith, has-with_all (with_one s q) ps p, has-with_one s q p)

pub has-empty : (p : Permission) → has 0 p ≡ false
has-empty p = elim (Option-cases (bit_of p)) [
  | inl e ↦ has-unknown 0 p e
  | inr (i, e) ↦ rw (has-known 0 p e, bit-zero i)
]

-- A set that holds some permission is not empty.
pub is_empty_set-has : (s : Set) (p : Permission) → is_empty_set s ≡ true → has s p ≡ false
unfolding is_empty_set
is_empty_set-has s p h = rw ((==_iff s 0).0 h) (has-empty p)
