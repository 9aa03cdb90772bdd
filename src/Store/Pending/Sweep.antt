-- ===== src/Store/Pending/Sweep.antt =====
-- The scan reaches every pending run: the cursor moves on by a full batch, and a short batch sends
-- it back to the head.
use unified_cd.Prelude.{
  ◌≡◌, refl, ap, ◌∙◌, ℕ, suc, ◌+◌, ◌*◌, ◌≤◌, ◌<◌, Bool, true, false, ◌&&◌, ◌||◌, List, [], ◌∷◌,
  ◌++◌, Option, none, some, arith, Bool-cases, inl, inr, length, length-append, any, keep, All,
  text_eq, text_eq_refl, le_cases,
}
use unified_cd.Prelude.Window.{
  take, last, ordered, Advance, advance, take-append, length-take, length-take_le, any-take,
  keep-append, keep-hit, length-keep_le, ordered-prefix, ordered-before,
}
use unified_cd.Store.Tables.{Tables}
use unified_cd.Store.Pending.{PendingCursor, before, is_past, is_pending, candidates, next_cursor}
use unified_cd.Store.Pending.Cursor.{
  before-IsOrder, is_past-upward, length-keep_behind, past-some, past-none, keep-some,
}

next_cursor-full :
    (m : ℕ) (batch : List PendingCursor)
    → length batch ≡ suc m
    → next_cursor (suc m) batch ≡ last batch
unfolding next_cursor
next_cursor-full m batch h = ground arith

next_cursor-short :
    (m : ℕ) (batch : List PendingCursor) → length batch ≤ m → next_cursor (suc m) batch ≡ none
unfolding next_cursor
next_cursor-short m batch h = ground arith

-- Whether one of the scans examines the run; between two scans the tables may change.
unfoldable pub examines :
    List PendingCursor → ℕ → PendingCursor → List Tables → Option PendingCursor → Bool
unfolding candidates next_cursor any text_eq
examines order limit x [] after = false
examines order limit x (t ∷ ts) after =
    let batch = candidates order limit after t in
    let rest = examines order limit x ts (next_cursor limit batch) in
    any (λ k. text_eq k.id x.id) batch || rest

one_less : (a b n m : ℕ) → a + suc m ≤ b → b < suc n * suc m → a < n * suc m
one_less a b n m h k = omega arith

enough : (a b c n m : ℕ) → a ≤ b → c + suc m + b < suc n * suc m → a < n * suc m
enough a b c n m h k = omega arith

or_right : (b : Bool) {c : Bool} → c ≡ true → (b || c) ≡ true
or_right b h = ground arith

module _ (m : ℕ) (pre post : List PendingCursor) (x : PendingCursor)
    (sorted : ordered before (pre ++ x ∷ post) ≡ true) where
  abbrev order : List PendingCursor
  order = pre ++ x ∷ post

  abbrev asks : Option PendingCursor → Tables → PendingCursor → Bool
  asks after t k = is_pending t k && is_past after k

  abbrev is_here : PendingCursor → Bool
  is_here k = text_eq k.id x.id

  asks-past :
      (after : Option PendingCursor) (t : Tables) (k : PendingCursor)
      → asks after t k ≡ true
      → is_past after k ≡ true
  asks-past after t k h = ground arith

  moved :
      (after : Option PendingCursor) (t : Tables) (ks : List PendingCursor)
      → ordered before ks ≡ true
      → suc m ≤ length (keep (asks after t) ks)
      → Advance before (asks after t) (is_past after) (suc m) ks
  moved after t ks o h =
      advance before before-IsOrder (asks after t) (is_past after) (asks-past after t)
        (is_past-upward after) m ks o h

  -- The batch that holds the run.
  batch-here :
      (after : Option PendingCursor) (t : Tables)
      → asks after t x ≡ true
      → length (keep (asks after t) pre) ≤ m
      → any is_here (candidates order (suc m) after t) ≡ true
  unfolding candidates
  batch-here after t wanted few =
      let split : keep (asks after t) order
          ≡ keep (asks after t) pre ++ x ∷ keep (asks after t) post =
        keep-append (asks after t) pre (x ∷ post)
        ∙ ap (λ r. keep (asks after t) pre ++ r) (keep-hit (asks after t) x post wanted) in
      ap (λ r. any is_here (take (suc m) r)) split
      ∙ any-take is_here m (keep (asks after t) pre) (keep (asks after t) post) x few
          (text_eq_refl x.id)

  -- The batch that fills up before it.
  batch-before :
      (after : Option PendingCursor) (t : Tables)
      → (long : suc m ≤ length (keep (asks after t) pre))
      → next_cursor (suc m) (candidates order (suc m) after t)
        ≡ some (moved after t pre (ordered-prefix before pre (x ∷ post) sorted) long).end
  unfolding candidates
  batch-before after t long =
      let a = moved after t pre (ordered-prefix before pre (x ∷ post) sorted) long in
      let cut : take (suc m) (keep (asks after t) order) ≡ take (suc m) (keep (asks after t) pre) =
        ap (take (suc m)) (keep-append (asks after t) pre (x ∷ post))
        ∙ take-append (suc m) (keep (asks after t) pre) (keep (asks after t) (x ∷ post)) long in
      ap (next_cursor (suc m)) cut
      ∙ next_cursor-full m (take (suc m) (keep (asks after t) pre))
          (length-take (suc m) (keep (asks after t) pre) long)
      ∙ a.found

  batch-full :
      (after : Option PendingCursor) (t : Tables)
      → (long : suc m ≤ length (keep (asks after t) order))
      → next_cursor (suc m) (candidates order (suc m) after t)
        ≡ some (moved after t order sorted long).end
  unfolding candidates
  batch-full after t long =
      next_cursor-full m (take (suc m) (keep (asks after t) order))
        (length-take (suc m) (keep (asks after t) order) long)
      ∙ (moved after t order sorted long).found

  batch-short :
      (after : Option PendingCursor) (t : Tables)
      → length (keep (asks after t) order) ≤ m
      → next_cursor (suc m) (candidates order (suc m) after t) ≡ none
  unfolding candidates
  batch-short after t short =
      let whole : take (suc m) (keep (asks after t) order) ≡ keep (asks after t) order =
        length-take_le (suc m) (keep (asks after t) order) (omega arith) in
      ap (next_cursor (suc m)) whole ∙ next_cursor-short m (keep (asks after t) order) short

  -- A run that is past the cursor.
  examines-ahead :
      (ts : List Tables) (after : Option PendingCursor)
      → All (λ t. is_pending t x ≡ true) ts
      → is_past after x ≡ true
      → length (keep (is_past after) pre) < length ts * suc m
      → examines order (suc m) x ts after ≡ true
  unfolding examines
  examines-ahead [] after waiting ahead near = absurd (omega arith)
  examines-ahead (t ∷ ts) after waiting ahead near =
      let wanted : asks after t x ≡ true = ground (arith, waiting.0) in
      elim (le_cases (length (keep (asks after t) pre)) m) [
        | inl few ↦ rw (batch-here after t wanted few) refl
        | inr long ↦
            let a = moved after t pre (ordered-prefix before pre (x ∷ post) sorted) long in
            let past : before a.end x ≡ true =
              a.member (λ k. before k x) (ordered-before before pre post x sorted) in
            let rest : examines order (suc m) x ts (some a.end) ≡ true =
              examines-ahead ts (some a.end) waiting.1 (past-some a.end x past) (
                rw (keep-some a.end pre) (
                  one_less (length (keep (before a.end) pre)) (length (keep (is_past after) pre))
                    (length ts) m a.shorter near)) in
            or_right (any is_here (candidates order (suc m) after t))
              (ap (examines order (suc m) x ts) (batch-before after t long) ∙ rest)
      ]

  -- A run anywhere: the scan first comes to the end, and starts again at the head.
  examines-behind :
      (ts : List Tables) (after : Option PendingCursor)
      → All (λ t. is_pending t x ≡ true) ts
      → length (keep (is_past after) order) + suc m + length pre < length ts * suc m
      → examines order (suc m) x ts after ≡ true
  unfolding examines
  examines-behind [] after waiting near = absurd (omega arith)
  examines-behind (t ∷ ts) after waiting near =
      elim (le_cases (length (keep (asks after t) order)) m) [
        | inl short ↦ or_right (any is_here (candidates order (suc m) after t)) (
            ap (examines order (suc m) x ts) (batch-short after t short)
            ∙ examines-ahead ts none waiting.1 (past-none x) (
                enough (length (keep (is_past none) pre)) (length pre)
                  (length (keep (is_past after) order)) (length ts) m
                  (length-keep_le (is_past none) pre) near))
        | inr long ↦
            let a = moved after t order sorted long in
            or_right (any is_here (candidates order (suc m) after t)) (
              ap (examines order (suc m) x ts) (batch-full after t long)
              ∙ examines-behind ts (some a.end) waiting.1 (
                  rw (keep-some a.end order) (
                    one_less (length (keep (before a.end) order) + suc m + length pre)
                      (length (keep (is_past after) order) + suc m + length pre) (length ts) m
                      (omega (arith, a.shorter)) near)))
      ]

  -- As many scans as fill the listing once, and one more.
  pub examines_every :
      (ts : List Tables) (after : Option PendingCursor)
      → All (λ t. is_pending t x ≡ true) ts
      → length order + suc m ≤ length ts * suc m
      → examines order (suc m) x ts after ≡ true
  examines_every ts after waiting many = elim (Bool-cases (is_past after x)) [
    | inl ahead ↦ examines-ahead ts after waiting ahead (
        within (length (keep (is_past after) pre)) (length pre) (length post) (length order)
          (length ts * suc m) m (length-keep_le (is_past after) pre) (length-append pre (x ∷ post))
          many)
    | inr behind ↦ examines-behind ts after waiting (
        beyond (length (keep (is_past after) order)) (length pre) (length post) (length order)
          (length ts * suc m) m
          (length-keep_behind (is_past after) x pre post (is_past-upward after)
            (ordered-before before pre post x sorted) behind)
          (length-append pre (x ∷ post)) many)
  ]
    where
      within : (a b c n w m : ℕ) → a ≤ b → n ≡ b + suc c → n + suc m ≤ w → a < w
      within a b c n w m h e k = omega arith

      beyond : (a b c n w m : ℕ) → a ≤ c → n ≡ b + suc c → n + suc m ≤ w → a + suc m + b < w
      beyond a b c n w m h e k = omega arith
