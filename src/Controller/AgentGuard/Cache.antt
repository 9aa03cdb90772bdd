-- ===== src/Controller/AgentGuard/Cache.antt =====
-- The cache of claims: what it holds after a use, and its bound.
use unified_cd.Prelude.{
  ◌≡◌, refl, sym, ap, ◌∙◌, suc, ◌≤◌, true, false, List, [], ◌∷◌, Option, none, some, arith,
  if◌then◌else◌, Bool-cases, inl, inr, ◌⊎◌, is_empty, length, keep, Text, text_eq, text_eq_iff,
}
use unified_cd.Prelude.Recency.{first, length-evict_back, first-evict_back}
use unified_cd.Controller.AgentGuard.{
  ClaimedByEntry, ClaimedByCache, find_entry, has_run, without, used, get, put_missing, put,
}

-- The entry that is found is of the run that was asked for.
pub find_entry-run :
    (run : Text) (es : List ClaimedByEntry) (e : ClaimedByEntry)
    → find_entry run es ≡ some e
    → e.run_id ≡ run
unfolding find_entry first
find_entry-run run [] e h = cc
find_entry-run run (k ∷ es) e h = elim (Bool-cases (text_eq k.run_id run)) [
  | inl here ↦
      let same : some k ≡ some e = rw here at h in
      let there : k.run_id ≡ run = (text_eq_iff k.run_id run).0 here in cc
  | inr other ↦ find_entry-run run es e (rw other at h)
]

find_entry-without :
    (run other : Text) (es : List ClaimedByEntry)
    → text_eq run other ≡ false
    → find_entry other (without run es) ≡ find_entry other es
unfolding find_entry first without keep
find_entry-without run other [] apart = refl
find_entry-without run other (e ∷ es) apart = ground (
  arith,
  find_entry-without run other es,
  text_eq_iff e.run_id run,
  text_eq_iff e.run_id other,
  text_eq_iff run other,
)

find_entry-cons :
    (run : Text) (e : ClaimedByEntry) (es : List ClaimedByEntry)
    → find_entry run (e ∷ es) ≡ (if text_eq e.run_id run then some e else find_entry run es)
unfolding find_entry first
find_entry-cons run e es = refl

used-finds :
    (c : ClaimedByCache) (run other : Text) (o : Option ClaimedByEntry)
    → find_entry run c.order ≡ o
    → find_entry other (used c run o).0.order ≡ find_entry other c.order
used-finds c run other none h = refl
used-finds c run other (some e) h =
    let there : text_eq e.run_id other ≡ text_eq run other =
      ap (λ k. text_eq k other) (find_entry-run run c.order e h) in
    elim (Bool-cases (text_eq run other)) [
      | inl mine ↦
          let same : run ≡ other = (text_eq_iff run other).0 mine in
          let this : text_eq e.run_id other ≡ true = there ∙ mine in
          find_entry-cons other e (without run c.order)
          ∙ rw this (sym h ∙ ap (λ k. find_entry k c.order) same)
      | inr apart ↦
          let that : text_eq e.run_id other ≡ false = there ∙ apart in
          find_entry-cons other e (without run c.order)
          ∙ rw that (find_entry-without run other c.order apart)
    ]

-- A use changes the order, and nothing that a later use can find.
pub get-finds :
    (c : ClaimedByCache) (run other : Text)
    → find_entry other (get c run).0.order ≡ find_entry other c.order
unfolding get
get-finds c run other = used-finds c run other (find_entry run c.order) refl

abbrev pub owner_of : Option ClaimedByEntry → Option Text
owner_of none = none
owner_of (some e) = some e.owner

used-owner :
    (c : ClaimedByCache) (run : Text) (o : Option ClaimedByEntry) → (used c run o).1 ≡ owner_of o
used-owner c run none = refl
used-owner c run (some e) = refl

pub get-owner :
    (c : ClaimedByCache) (run : Text) → (get c run).1 ≡ owner_of (find_entry run c.order)
unfolding get
get-owner c run = used-owner c run (find_entry run c.order)

-- The new entry is found for its run, and every other entry was there before.
put_missing-finds :
    (c : ClaimedByCache) (run owner other : Text) (o : Option ClaimedByEntry) (e : ClaimedByEntry)
    → find_entry other (put_missing c run owner o).order ≡ some e
    → (find_entry other c.order ≡ some e) ⊎ ((run ≡ other) × (e.owner ≡ owner))
unfolding find_entry
put_missing-finds c run owner other (some k) e h = inl h
put_missing-finds c run owner other none e h =
    let entry : ClaimedByEntry = record { run_id = run; owner = owner } in
    let grown = entry ∷ c.order in
    let before : find_entry other grown ≡ some e =
      first-evict_back (has_run other) (length grown) c.cap grown e h in
    elim (Bool-cases (text_eq run other)) [
      | inl mine ↦
          let same : some entry ≡ some e =
            sym (find_entry-cons other entry c.order ∙ rw mine) ∙ before in
          inr ((text_eq_iff run other).0 mine, owner_eq same)
      | inr apart ↦ inl (sym (find_entry-cons other entry c.order ∙ rw apart) ∙ before)
    ]
  where
    owner_eq :
        {e : ClaimedByEntry}
        → some (record { run_id = run; owner = owner }) ≡ some e
        → e.owner ≡ owner
    owner_eq q = cc

pub put-finds :
    (c : ClaimedByCache) (run owner other : Text) (e : ClaimedByEntry)
    → find_entry other (put c run owner).order ≡ some e
    → (find_entry other c.order ≡ some e)
      ⊎ ((run ≡ other) × (e.owner ≡ owner) × (is_empty owner ≡ false))
unfolding put
put-finds c run [] other e h = inl h
put-finds c run (b ∷ owner) other e h =
    elim (put_missing-finds c run (b ∷ owner) other (find_entry run c.order) e h) [
      | inl old ↦ inl old
      | inr new ↦ inr (new.0, new.1, refl)
    ]

-- Bounds.
length-without : (run : Text) (es : List ClaimedByEntry) → length (without run es) ≤ length es
unfolding without keep
length-without run [] = omega arith
length-without run (e ∷ es) = ground (arith, length-without run es)

-- An entry that moves to the front leaves its place.
length-without_found :
    (run : Text) (es : List ClaimedByEntry) (e : ClaimedByEntry)
    → find_entry run es ≡ some e
    → suc (length (without run es)) ≤ length es
unfolding without keep find_entry first
length-without_found run [] e h = cc
length-without_found run (k ∷ es) e h = elim (Bool-cases (text_eq k.run_id run)) [
  | inl here ↦ ground (arith, here, length-without run es)
  | inr other ↦ ground (arith, other, length-without_found run es e (rw other at h))
]

abbrev pub IsBounded : ClaimedByCache → Type 0
IsBounded c = length c.order ≤ c.cap

used-IsBounded :
    (c : ClaimedByCache) (run : Text) (o : Option ClaimedByEntry)
    → find_entry run c.order ≡ o
    → IsBounded c
    → IsBounded (used c run o).0
used-IsBounded c run none h b = b
used-IsBounded c run (some e) h b = omega (arith, length-without_found run c.order e h)

pub get-IsBounded : (c : ClaimedByCache) (run : Text) → IsBounded c → IsBounded (get c run).0
unfolding get
get-IsBounded c run b = used-IsBounded c run (find_entry run c.order) refl b

put_missing-IsBounded :
    (c : ClaimedByCache) (run owner : Text) (o : Option ClaimedByEntry)
    → IsBounded c
    → IsBounded (put_missing c run owner o)
put_missing-IsBounded c run owner (some e) b = b
put_missing-IsBounded c run owner none b =
    length-evict_back (suc (length c.order)) c.cap
      (record { run_id = run; owner = owner } ∷ c.order) (omega arith)

pub put-IsBounded :
    (c : ClaimedByCache) (run owner : Text) → IsBounded c → IsBounded (put c run owner)
unfolding put
put-IsBounded c run [] b = b
put-IsBounded c run (x ∷ owner) b =
    put_missing-IsBounded c run (x ∷ owner) (find_entry run c.order) b
