-- ===== src/Agent/Retry.antt =====
-- `retryUntilSuccess` of internal/agent/retry.go: how a report to the controller is repeated.
use unified_cd.Prelude.{ℕ, ◌*◌, ◌<◌, List, [], ◌∷◌, arith, ltb, if◌then◌else◌, All}

-- What one attempt and the wait after it come to.
pub data Attempt : Type 0 where
  succeeded : Attempt
  permanent : Attempt
  cancelled : Attempt
  retryable : Attempt

-- The waits of the loop, for the attempts as they turn out; a wait that is cancelled has begun.
unfoldable pub retry_waits : ℕ → ℕ → List Attempt → List ℕ
retry_waits max wait [] = []
retry_waits max wait (succeeded ∷ rest) = []
retry_waits max wait (permanent ∷ rest) = []
retry_waits max wait (cancelled ∷ rest) = wait ∷ []
retry_waits max wait (retryable ∷ rest) =
    wait ∷ retry_waits max (if ltb wait max then wait * 2 else wait) rest

abbrev pub retry_initial_wait : ℕ
retry_initial_wait = 1000000000

abbrev pub retry_max_wait : ℕ
retry_max_wait = 30000000000

next_wait : (max wait : ℕ) → wait < 2 * max → (if ltb wait max then wait * 2 else wait) < 2 * max
next_wait max wait h = ground arith

-- Started below twice the bound, every wait between two attempts is less than twice the bound.
pub retry_waits-lt :
    (max : ℕ) (attempts : List Attempt) (wait : ℕ)
    → wait < 2 * max
    → All (λ w. w < 2 * max) (retry_waits max wait attempts)
unfolding retry_waits
retry_waits-lt max [] wait h = tt
retry_waits-lt max (succeeded ∷ rest) wait h = tt
retry_waits-lt max (permanent ∷ rest) wait h = tt
retry_waits-lt max (cancelled ∷ rest) wait h = (h, tt)
retry_waits-lt max (retryable ∷ rest) wait h = (h, retry_waits-lt max rest _ (next_wait max wait h))
