-- ===== src/Controller/Backoff/Excluded.antt =====
-- Which ids a failure and a success leave in their window.
use unified_cd.Prelude.{
  ◌≡◌, refl, ◌∙◌, ℕ, zero, suc, ◌+◌, ◌≤◌, Bool, true, false, not, ◌&&◌, ◌||◌, List, [], ◌∷◌, map,
  Option, none, some, arith, ltb, Bool-cases, inl, inr, length, any, any_congr, any_none, any-keep,
  Text, text_eq, text_eq_refl, contains,
}
use unified_cd.Controller.Backoff.{
  BackoffEntry, FailureBackoff, find, remove, remove_back, evict, wait_for, bump, fresh_entry,
  failed_order, failure, forgotten, success, excluded,
}

-- The entry is that of `id` and still waits at `t`.
abbrev pub waits : Text → ℕ → BackoffEntry → Bool
waits id t e = ltb t e.retry_at && text_eq e.id id

any-ids :
    (k : Text) (es : List BackoffEntry)
    → any (λ x. text_eq x k) (map (λ e. e.id) es) ≡ any (λ e. text_eq e.id k) es
unfolding any
any-ids k [] = refl
any-ids k (e ∷ es) = rw (any-ids k es)

contains-excluded :
    (b : FailureBackoff) (t : ℕ) (id : Text) → contains (excluded b t) id ≡ any (waits id t) b.order
unfolding contains excluded
contains-excluded b t id =
    any-ids id _ ∙ any-keep (λ e. text_eq e.id id) (λ e. ltb t e.retry_at) b.order

and_not : (a c : Bool) → (not a && (c && a)) ≡ false
and_not true c = refl
and_not false true = refl
and_not false false = refl

-- Nothing of a removed id is left.
any-remove : (id : Text) (t : ℕ) (es : List BackoffEntry) → any (waits id t) (remove id es) ≡ false
unfolding remove
any-remove id t es =
    any-keep (waits id t) (λ e. not (text_eq e.id id)) es
    ∙ any_congr (λ e. not (text_eq e.id id) && waits id t e) (λ e. false) es
        (λ e. and_not (text_eq e.id id) (ltb t e.retry_at))
    ∙ any_none es

entry_inj : {e f : BackoffEntry} → some e ≡ some f → e ≡ f
entry_inj h = cc

and_or : (a : Bool) → ((a && true) || false) ≡ a
and_or true = refl
and_or false = refl

and_true : (a : Bool) → (a && true) ≡ a
and_true true = refl
and_true false = refl

find-id :
    (id : Text) (es : List BackoffEntry) {e : BackoffEntry}
    → find id es ≡ some e
    → text_eq e.id id ≡ true
unfolding find
find-id id [] h = cc
find-id id (f ∷ es) {e} h = elim (Bool-cases (text_eq f.id id)) [
  | inl here ↦ rw (← entry_inj (rw here at h)) here
  | inr other ↦ find-id id es {e = e} (rw other at h)
]

and_false : (a : Bool) → (a && false) ≡ false
and_false true = refl
and_false false = refl

find-none :
    (id : Text) (t : ℕ) (es : List BackoffEntry) → find id es ≡ none → any (waits id t) es ≡ false
unfolding find any
find-none id t [] h = refl
find-none id t (f ∷ es) h = elim (Bool-cases (text_eq f.id id)) [
  | inl here ↦ let no_way : some f ≡ none = rw here at h in cc
  | inr other ↦ rw (other, and_false (ltb t f.retry_at)) (find-none id t es (rw other at h))
]

module _ (q : BackoffEntry → Bool) where
  any-remove_back : (es : List BackoffEntry) → any q es ≡ false → any q (remove_back es) ≡ false
  unfolding any remove_back
  any-remove_back [] h = refl
  any-remove_back (e ∷ []) h = refl
  any-remove_back (e ∷ f ∷ es) h = ground (arith, any-remove_back (f ∷ es))

  -- The entry in front is never evicted.
  any-evict :
      (fuel cap : ℕ) (e : BackoffEntry) (es : List BackoffEntry)
      → 1 ≤ cap
      → any q es ≡ false
      → any q (evict fuel cap (e ∷ es)) ≡ q e
  unfolding any evict remove_back
  any-evict zero cap e es room h = ground arith
  any-evict (suc fuel) cap e [] room h = ground arith
  any-evict (suc fuel) cap e (f ∷ es) room h = elim (Bool-cases (ltb cap (length (e ∷ f ∷ es)))) [
    | inl full ↦
        rw full (any-evict fuel cap e (remove_back (f ∷ es)) room (any-remove_back (f ∷ es) h))
    | inr fits ↦ rw fits (ground arith)
  ]

-- The failures counted so far.
abbrev pub failures_of : Option BackoffEntry → ℕ
failures_of none = 0
failures_of (some e) = e.failures

failed_order-waits :
    (b : FailureBackoff) (id : Text) (now t : ℕ) (o : Option BackoffEntry)
    → 1 ≤ b.cap
    → find id b.order ≡ o
    → any (waits id t) (failed_order b id now o)
      ≡ ltb t (now + wait_for b.base b.max (failures_of o))
unfolding any bump
failed_order-waits b id now t (some e) room found =
    rw (any-remove id t b.order, find-id id b.order found) (and_or (ltb t _))
failed_order-waits b id now t none room found =
    any-evict (waits id t) _ b.cap (bump b now (fresh_entry id)) b.order room
      (find-none id t b.order found)
    ∙ rw (text_eq_refl id) (and_true _)

-- With room for at least one entry, after a failure at some time the id is excluded at another
-- time exactly when that time is before the failure plus the wait for the failures counted before
-- it.
pub failure-excluded :
    (b : FailureBackoff) (id : Text) (now t : ℕ)
    → 1 ≤ b.cap
    → contains (excluded (failure b id now) t) id
      ≡ ltb t (now + wait_for b.base b.max (failures_of (find id b.order)))
unfolding failure
failure-excluded b id now t room =
    contains-excluded (failure b id now) t id
    ∙ failed_order-waits b id now t (find id b.order) room refl

forgotten-waits :
    (b : FailureBackoff) (id : Text) (t : ℕ) (o : Option BackoffEntry)
    → find id b.order ≡ o
    → any (waits id t) (forgotten b id o) ≡ false
forgotten-waits b id t none found = find-none id t b.order found
forgotten-waits b id t (some e) found = any-remove id t b.order

-- After a success the id is excluded at no time.
pub success-excluded :
    (b : FailureBackoff) (id : Text) (t : ℕ) → contains (excluded (success b id) t) id ≡ false
unfolding success
success-excluded b id t =
    contains-excluded (success b id) t id ∙ forgotten-waits b id t (find id b.order) refl
