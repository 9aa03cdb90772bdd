-- ===== src/Controller/Backoff/Tracked.antt =====
-- One entry for an id, and never more entries than the cap.
use unified_cd.Prelude.{
  ◌≡◌, refl, ℕ, zero, suc, ◌+◌, ◌-◌, ◌≤◌, Bool, true, false, not, ◌&&◌, List, [], ◌∷◌, Option, none,
  some, arith, ltb, Bool-cases, inl, inr, length, any, keep, Text, text_eq, text_eq_iff,
}
use unified_cd.Controller.Backoff.{
  BackoffEntry, FailureBackoff, find, remove, remove_back, evict, bump, fresh_entry, failed_order,
  failure, forgotten, success,
}

abbrev pub has_id : Text → BackoffEntry → Bool
has_id id e = text_eq e.id id

unfoldable pub is_distinct : List BackoffEntry → Bool
is_distinct [] = true
is_distinct (e ∷ es) = not (any (has_id e.id) es) && is_distinct es

pub record IsTracked (b : FailureBackoff) : Type 0 where
  pub distinct : is_distinct b.order ≡ true
  pub bounded : length b.order ≤ b.cap

any-remove-false :
    (q : BackoffEntry → Bool) (id : Text) (es : List BackoffEntry)
    → any q es ≡ false
    → any q (remove id es) ≡ false
unfolding any remove keep
any-remove-false q id [] h = refl
any-remove-false q id (e ∷ es) h = ground (arith, any-remove-false q id es)

remove-distinct :
    (id : Text) (es : List BackoffEntry) → is_distinct es ≡ true → is_distinct (remove id es) ≡ true
unfolding is_distinct remove keep any
remove-distinct id [] h = refl
remove-distinct id (e ∷ es) h =
    ground (arith, remove-distinct id es, any-remove-false (has_id e.id) id es)

-- Nothing of a removed id is left.
any-removed : (id : Text) (es : List BackoffEntry) → any (has_id id) (remove id es) ≡ false
unfolding any remove keep
any-removed id [] = refl
any-removed id (e ∷ es) = ground (arith, any-removed id es)

length-remove : (id : Text) (es : List BackoffEntry) → length (remove id es) ≤ length es
unfolding remove keep
length-remove id [] = omega arith
length-remove id (e ∷ es) = ground (arith, length-remove id es)

-- Removing an id that is there makes room.
length-remove_found :
    (id : Text) (es : List BackoffEntry) {e : BackoffEntry}
    → find id es ≡ some e
    → suc (length (remove id es)) ≤ length es
unfolding remove keep find
length-remove_found id [] h = cc
length-remove_found id (f ∷ es) {e} h = elim (Bool-cases (text_eq f.id id)) [
  | inl here ↦ ground (arith, here, length-remove id es)
  | inr other ↦ ground (arith, other, length-remove_found id es {e = e} (rw other at h))
]

any-find-none :
    (id : Text) (es : List BackoffEntry) → find id es ≡ none → any (has_id id) es ≡ false
unfolding any find
any-find-none id [] h = refl
any-find-none id (f ∷ es) h = elim (Bool-cases (text_eq f.id id)) [
  | inl here ↦ let no_way : some f ≡ none = rw here at h in cc
  | inr other ↦ rw other (any-find-none id es (rw other at h))
]

any-remove_back-false :
    (q : BackoffEntry → Bool) (es : List BackoffEntry)
    → any q es ≡ false
    → any q (remove_back es) ≡ false
unfolding any remove_back
any-remove_back-false q [] h = refl
any-remove_back-false q (e ∷ []) h = refl
any-remove_back-false q (e ∷ f ∷ es) h = ground (arith, any-remove_back-false q (f ∷ es))

remove_back-distinct :
    (es : List BackoffEntry) → is_distinct es ≡ true → is_distinct (remove_back es) ≡ true
unfolding is_distinct remove_back any
remove_back-distinct [] h = refl
remove_back-distinct (e ∷ []) h = refl
remove_back-distinct (e ∷ f ∷ es) h =
    ground (arith, remove_back-distinct (f ∷ es), any-remove_back-false (has_id e.id) (f ∷ es))

evict-distinct :
    (fuel cap : ℕ) (es : List BackoffEntry)
    → is_distinct es ≡ true
    → is_distinct (evict fuel cap es) ≡ true
unfolding evict
evict-distinct zero cap es h = h
evict-distinct (suc fuel) cap es h = elim (Bool-cases (ltb cap (length es))) [
  | inl full ↦ rw full (evict-distinct fuel cap (remove_back es) (remove_back-distinct es h))
  | inr fits ↦ rw fits h
]

length-remove_back : (es : List BackoffEntry) → length (remove_back es) ≡ length es - 1
unfolding remove_back
length-remove_back [] = omega arith
length-remove_back (e ∷ []) = omega arith
length-remove_back (e ∷ f ∷ es) = omega (arith, length-remove_back (f ∷ es))

-- As much fuel as there are entries is enough to come down to the cap.
length-evict :
    (fuel cap : ℕ) (es : List BackoffEntry)
    → length es ≤ fuel + cap
    → length (evict fuel cap es) ≤ cap
unfolding evict
length-evict zero cap es h = omega arith
length-evict (suc fuel) cap es h = elim (Bool-cases (ltb cap (length es))) [
  | inl full ↦
      rw full (length-evict fuel cap (remove_back es) (omega (arith, length-remove_back es)))
  | inr fits ↦ rw fits (ground arith)
]

not_and : (a b : Bool) → a ≡ false → b ≡ true → (not a && b) ≡ true
not_and a b h k = ground arith

entry_inj : {e f : BackoffEntry} → some e ≡ some f → e ≡ f
entry_inj h = cc

find-has_id :
    (id : Text) (es : List BackoffEntry) {e : BackoffEntry} → find id es ≡ some e → e.id ≡ id
unfolding find
find-has_id id [] h = cc
find-has_id id (f ∷ es) {e} h = elim (Bool-cases (text_eq f.id id)) [
  | inl here ↦
      let same : some f ≡ some e = rw here at h in
      rw (← entry_inj same) ((text_eq_iff f.id id).0 here)
  | inr other ↦ find-has_id id es {e = e} (rw other at h)
]

failed_order-IsTracked :
    (b : FailureBackoff) (id : Text) (now : ℕ) (o : Option BackoffEntry)
    → IsTracked b
    → find id b.order ≡ o
    → IsTracked (record b { order = failed_order b id now o })
unfolding is_distinct bump
failed_order-IsTracked b id now (some e) t found = record {
  distinct =
      rw (find-has_id id b.order found)
        (not_and _ _ (any-removed id b.order) (remove-distinct id b.order t.distinct));
  bounded = omega (arith, length-remove_found id b.order found, t.bounded);
}
failed_order-IsTracked b id now none t found =
    let grown = bump b now (fresh_entry id) ∷ b.order in
    record {
      distinct =
          evict-distinct (length grown) b.cap grown
            (not_and _ _ (any-find-none id b.order found) t.distinct);
      bounded = length-evict (length grown) b.cap grown (omega arith);
    }

failure-IsTracked :
    (b : FailureBackoff) (id : Text) (now : ℕ) → IsTracked b → IsTracked (failure b id now)
unfolding failure
failure-IsTracked b id now t = failed_order-IsTracked b id now (find id b.order) t refl

forgotten-IsTracked :
    (b : FailureBackoff) (id : Text) (o : Option BackoffEntry)
    → IsTracked b
    → IsTracked (record b { order = forgotten b id o })
forgotten-IsTracked b id none t = record { distinct = t.distinct; bounded = t.bounded }
forgotten-IsTracked b id (some e) t = record {
  distinct = remove-distinct id b.order t.distinct;
  bounded = omega (arith, length-remove id b.order, t.bounded);
}

success-IsTracked : (b : FailureBackoff) (id : Text) → IsTracked b → IsTracked (success b id)
unfolding success
success-IsTracked b id t = forgotten-IsTracked b id (find id b.order) t

-- A failure and a success keep one entry for an id and no more entries than the cap.
pub operations-IsTracked :
    (b : FailureBackoff) (id : Text) (now : ℕ)
    → IsTracked b
    → IsTracked (failure b id now) × IsTracked (success b id)
operations-IsTracked b id now t = (failure-IsTracked b id now t, success-IsTracked b id t)
