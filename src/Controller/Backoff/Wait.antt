-- ===== src/Controller/Backoff/Wait.antt =====
-- How long a failed candidate is left out.
use unified_cd.Prelude.{
  ◌≡◌, refl, ℕ, zero, suc, ◌*◌, ◌^◌, ◌≤◌, ◌<◌, Bool, true, false, ◌&&◌, arith, ltb, ltb→lt,
  if◌then◌else◌, Bool-cases, ◌==◌, ==_iff, inl, inr,
}
use unified_cd.Controller.Backoff.{wait_for}

and_left : (a b : Bool) → (a && b) ≡ true → a ≡ true
and_left a b h = ground arith

and_right : (a b : Bool) → (a && b) ≡ true → b ≡ true
and_right a b h = ground arith

abbrev minute : ℕ
minute = 60000000000

abbrev hour : ℕ
hour = 3600000000000

-- What the wait is meant to be: doubled for every failure before, and at most `max`.
abbrev pub doubled_up_to : ℕ → ℕ → ℕ → ℕ
doubled_up_to base max n = if ltb (base * 2 ^ n) max then base * 2 ^ n else max

abbrev below : ℕ → (ℕ → Bool) → Bool
below zero test = true
below (suc n) test = test n && below n test

below-at : (k : ℕ) (test : ℕ → Bool) (n : ℕ) → below k test ≡ true → n < k → test n ≡ true
below-at zero test n h lt = ground arith
below-at (suc k) test n h lt = elim (Bool-cases (n == k)) [
  | inl here ↦ rw ((==_iff n k).0 here) (and_left (test k) _ h)
  | inr other ↦ below-at k test n (and_right (test k) _ h) (ground arith)
]

abbrev as_meant : ℕ → Bool
as_meant n = wait_for minute hour n == doubled_up_to minute hour n

small_counts : below 63 as_meant ≡ true
unfolding wait_for
small_counts = refl

lt_two_pow : (n : ℕ) → n < 2 ^ n
lt_two_pow zero = omega arith
lt_two_pow (suc n) = omega (arith, lt_two_pow n)

not_ltb : (a b : ℕ) → b ≤ a → ltb a b ≡ false
not_ltb a b h = ground arith

large_counts : (n : ℕ) → 63 ≤ n → wait_for minute hour n ≡ doubled_up_to minute hour n
unfolding wait_for
large_counts n h = rw (not_ltb n 63 h, not_ltb (minute * 2 ^ n) hour (omega (arith, lt_two_pow n)))

-- With the minute and the hour that the sweeps use, the wait after any number of failures is the
-- minute doubled for each of them, at most the hour: the 64-bit shift never wraps into a short
-- wait.
pub wait_for-sweeps : (n : ℕ) → wait_for minute hour n ≡ doubled_up_to minute hour n
wait_for-sweeps n = elim (Bool-cases (ltb n 63)) [
  | inl small ↦
      (==_iff (wait_for minute hour n) (doubled_up_to minute hour n)).0
        (below-at 63 as_meant n small_counts (ltb→lt n 63 small))
  | inr large ↦ large_counts n (ground arith)
]
