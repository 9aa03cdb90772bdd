-- ===== src/Controller/Backoff.antt =====
-- internal/controller/failure_backoff.go: the candidates that a sweep leaves out for a while.
pub mod Wait
pub mod Tracked
pub mod Excluded
use unified_cd.Prelude.{
  ℕ, zero, suc, ◌+◌, ◌*◌, ◌%◌, ◌^◌, Bool, true, false, not, ◌&&◌, List, [], ◌∷◌, map, Option, none,
  some, ltb, if◌then◌else◌, length, keep, Text, text_eq,
}

-- Times and durations are in nanoseconds.
pub record BackoffEntry : Type 0 where
  pub id : Text
  pub failures : ℕ
  pub retry_at : ℕ

-- `order` is the list, the most recently failed first; the map `m` indexes its elements by their id.
pub record FailureBackoff : Type 0 where
  pub order : List BackoffEntry
  pub base : ℕ
  pub max : ℕ
  pub cap : ℕ

unfoldable pub new_failure_backoff : ℕ → ℕ → ℕ → FailureBackoff
new_failure_backoff base max cap = record { order = []; base = base; max = max; cap = cap }

-- `b.m[id]`
unfoldable pub find : Text → List BackoffEntry → Option BackoffEntry
find id [] = none
find id (e ∷ es) = if text_eq e.id id then some e else find id es

-- `b.order.Remove(el)` for the element of `id`.
unfoldable pub remove : Text → List BackoffEntry → List BackoffEntry
unfolding keep
remove id = keep (λ e. not (text_eq e.id id))

-- The list without its back.
unfoldable pub remove_back : List BackoffEntry → List BackoffEntry
remove_back [] = []
remove_back (e ∷ []) = []
remove_back (e ∷ f ∷ es) = e ∷ remove_back (f ∷ es)

-- `for len(b.m) > b.cap`, at most `fuel` times.
unfoldable pub evict : ℕ → ℕ → List BackoffEntry → List BackoffEntry
evict zero cap es = es
evict (suc fuel) cap es =
    let rest = evict fuel cap (remove_back es) in if ltb cap (length es) then rest else es

-- The wait after `n` earlier failures: `base << n` on int64, unless it wraps, is negative or reaches `max`.
unfoldable pub wait_for : ℕ → ℕ → ℕ → ℕ
wait_for base max n =
    let w = (base * 2 ^ n) % 2 ^ 64 in
    if ltb n 63 && (ltb 0 w && (ltb w (2 ^ 63) && ltb w max)) then w else max

-- One more failure of an entry: the wait is that of the failures before.
unfoldable pub bump : FailureBackoff → ℕ → BackoffEntry → BackoffEntry
bump b now e = record e {
  failures = suc e.failures;
  retry_at = now + wait_for b.base b.max e.failures;
}

abbrev pub fresh_entry : Text → BackoffEntry
fresh_entry id = record { id = id; failures = 0; retry_at = 0 }

abbrev pub failed_order : FailureBackoff → Text → ℕ → Option BackoffEntry → List BackoffEntry
failed_order b id now (some e) = bump b now e ∷ remove id b.order
failed_order b id now none =
    let grown = bump b now (fresh_entry id) ∷ b.order in evict (length grown) b.cap grown

unfoldable pub failure : FailureBackoff → Text → ℕ → FailureBackoff
failure b id now = record b { order = failed_order b id now (find id b.order) }

abbrev pub forgotten : FailureBackoff → Text → Option BackoffEntry → List BackoffEntry
forgotten b id none = b.order
forgotten b id (some e) = remove id b.order

unfoldable pub success : FailureBackoff → Text → FailureBackoff
success b id = record b { order = forgotten b id (find id b.order) }

-- The ids still inside their window; the program returns them in no order.
unfoldable pub excluded : FailureBackoff → ℕ → List Text
unfolding keep
excluded b now = map (λ e. e.id) (keep (λ e. ltb now e.retry_at) b.order)
