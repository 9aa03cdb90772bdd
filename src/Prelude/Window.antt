-- ===== src/Prelude/Window.antt =====
-- A window of bounded size on an ordered list, and how far its last member is past its start.
use Prim.Native.Nat.{ℕ, zero, suc, ◌+◌, ◌≤◌}
use mathlib.Core.Path.{◌≡◌, refl, sym, ap, ◌∙◌}
use mathlib.Core.Logic.{inl, inr}
use mathlib.Core.Bool.{Bool, true, false, ◌&&◌}
use mathlib.Core.Option.{Option, none, some}
use mathlib.Core.List.{List, [], ◌∷◌, ◌++◌}
use native.Mathlib.Omega.{arith}
use unified_cd.Prelude.Tests.{Bool-cases}
use unified_cd.Prelude.Lists.{length, any, all, keep}

module _ {ℓ} {A : Type ℓ} where
  unfoldable pub take : ℕ → List A → List A
  take zero xs = []
  take (suc n) [] = []
  take (suc n) (x ∷ xs) = x ∷ take n xs

  unfoldable pub last : List A → Option A
  last [] = none
  last (x ∷ []) = some x
  last (x ∷ y ∷ ys) = last (y ∷ ys)

  -- Each member stands before all that follow it.
  unfoldable pub ordered : (A → A → Bool) → List A → Bool
  unfolding all
  ordered before [] = true
  ordered before (x ∷ xs) = all (before x) xs && ordered before xs

module _ {ℓ} {A : Type ℓ} where
  pub length-take_le : (n : ℕ) (xs : List A) → length xs ≤ n → take n xs ≡ xs
  unfolding take
  length-take_le zero [] h = refl
  length-take_le zero (x ∷ xs) h = absurd (omega arith)
  length-take_le (suc n) [] h = refl
  length-take_le (suc n) (x ∷ xs) h = ap (λ r. x ∷ r) (length-take_le n xs (omega arith))

  pub length-take : (n : ℕ) (xs : List A) → n ≤ length xs → length (take n xs) ≡ n
  unfolding take
  length-take zero xs h = refl
  length-take (suc n) [] h = absurd (omega arith)
  length-take (suc n) (x ∷ xs) h = ap suc (length-take n xs (omega arith))

  pub take-append : (n : ℕ) (xs ys : List A) → n ≤ length xs → take n (xs ++ ys) ≡ take n xs
  unfolding take
  take-append zero xs ys h = refl
  take-append (suc n) [] ys h = absurd (omega arith)
  take-append (suc n) (x ∷ xs) ys h = ap (λ r. x ∷ r) (take-append n xs ys (omega arith))

  -- A window that reaches past a prefix holds what follows it.
  pub any-take :
      (p : A → Bool) (m : ℕ) (xs ys : List A) (x : A)
      → length xs ≤ m
      → p x ≡ true
      → any p (take (suc m) (xs ++ x ∷ ys)) ≡ true
  unfolding take any
  any-take p m [] ys x h hit = rw hit refl
  any-take p zero (z ∷ xs) ys x h hit = absurd (omega arith)
  any-take p (suc m) (z ∷ xs) ys x h hit = ground (arith, any-take p m xs ys x (omega arith) hit)

  last_cons : (x y : A) (xs : List A) → last xs ≡ some y → last (x ∷ xs) ≡ some y
  unfolding last
  last_cons x y [] h = let no_way : none ≡ some y = h in cc
  last_cons x y (z ∷ xs) h = h

  pub keep-hit : (p : A → Bool) (x : A) (xs : List A) → p x ≡ true → keep p (x ∷ xs) ≡ x ∷ keep p xs
  unfolding keep
  keep-hit p x xs hit = rw (keep, hit) refl

  pub keep-miss : (p : A → Bool) (x : A) (xs : List A) → p x ≡ false → keep p (x ∷ xs) ≡ keep p xs
  unfolding keep
  keep-miss p x xs miss = rw (keep, miss) refl

  keep-nil : (p : A → Bool) → keep p [] ≡ []
  unfolding keep
  keep-nil p = refl

  pub keep-append : (p : A → Bool) (xs ys : List A) → keep p (xs ++ ys) ≡ keep p xs ++ keep p ys
  keep-append p [] ys = ap (λ r. r ++ keep p ys) (sym (keep-nil p))
  keep-append p (x ∷ xs) ys = elim (Bool-cases (p x)) [
    | inl hit ↦
        keep-hit p x (xs ++ ys) hit
        ∙ ap (λ r. x ∷ r) (keep-append p xs ys)
        ∙ ap (λ r. r ++ keep p ys) (sym (keep-hit p x xs hit))
    | inr miss ↦
        keep-miss p x (xs ++ ys) miss
        ∙ keep-append p xs ys
        ∙ ap (λ r. r ++ keep p ys) (sym (keep-miss p x xs miss))
  ]

  pub length-keep_mono :
      (p q : A → Bool) (xs : List A)
      → ((x : A) → p x ≡ true → q x ≡ true)
      → length (keep p xs) ≤ length (keep q xs)
  unfolding keep
  length-keep_mono p q [] h = omega arith
  length-keep_mono p q (x ∷ xs) h = ground (arith, h x, length-keep_mono p q xs h)

  pub length-keep_le : (p : A → Bool) (xs : List A) → length (keep p xs) ≤ length xs
  unfolding keep
  length-keep_le p [] = omega arith
  length-keep_le p (x ∷ xs) = ground (arith, length-keep_le p xs)

  pub length-keep_none :
      (p : A → Bool) (xs : List A)
      → all (λ x. elim (p x) [ true ↦ false | false ↦ true ]) xs ≡ true
      → length (keep p xs) ≡ 0
  unfolding keep all
  length-keep_none p [] h = refl
  length-keep_none p (x ∷ xs) h = ground (arith, length-keep_none p xs)

  all-keep : (p q : A → Bool) (xs : List A) → all p xs ≡ true → all p (keep q xs) ≡ true
  unfolding keep all
  all-keep p q [] h = refl
  all-keep p q (x ∷ xs) h = ground (arith, all-keep p q xs)

  pub all_weaken :
      (p q : A → Bool) (xs : List A)
      → all p xs ≡ true
      → ((x : A) → p x ≡ true → q x ≡ true)
      → all q xs ≡ true
  unfolding all
  all_weaken p q [] h imp = refl
  all_weaken p q (x ∷ xs) h imp = ground (arith, imp x, all_weaken p q xs)

  pub all-append_left : (p : A → Bool) (xs ys : List A) → all p (xs ++ ys) ≡ true → all p xs ≡ true
  unfolding all
  all-append_left p [] ys h = refl
  all-append_left p (x ∷ xs) ys h = ground (arith, all-append_left p xs ys)

  pub all-mid : (p : A → Bool) (xs ys : List A) (x : A) → all p (xs ++ x ∷ ys) ≡ true → p x ≡ true
  unfolding all
  all-mid p [] ys x h = ground arith
  all-mid p (z ∷ xs) ys x h = ground (arith, all-mid p xs ys x)

module _ {ℓ} {A : Type ℓ} (b : A → A → Bool) where
  pub ordered-prefix : (xs ys : List A) → ordered b (xs ++ ys) ≡ true → ordered b xs ≡ true
  unfolding ordered all
  ordered-prefix [] ys o = refl
  ordered-prefix (x ∷ xs) ys o = ground (arith, all-append_left (b x) xs ys, ordered-prefix xs ys)

  pub ordered-before :
      (xs ys : List A) (x : A) → ordered b (xs ++ x ∷ ys) ≡ true → all (λ k. b k x) xs ≡ true
  unfolding ordered all
  ordered-before [] ys x o = refl
  ordered-before (z ∷ xs) ys x o = ground (arith, all-mid (b z) xs ys x, ordered-before xs ys x)

-- A strict order.
pub record IsOrder {ℓ} {A : Type ℓ} (before : A → A → Bool) : Type ℓ where
  pub irreflexive : (x : A) → before x x ≡ false
  pub transitive : (x y z : A) → before x y ≡ true → before y z ≡ true → before x z ≡ true

-- The last member `b` of a full window on `xs`: what is past it is fewer, by the window, than what
-- the test passes.
pub record Advance {ℓ} {A : Type ℓ} (before : A → A → Bool) (p q : A → Bool) (n : ℕ) (xs : List A)
    : Type ℓ where
  pub end : A
  pub found : last (take n (keep p xs)) ≡ some end
  pub passes : q end ≡ true
  pub member : (r : A → Bool) → all r xs ≡ true → r end ≡ true
  pub shorter : length (keep (before end) xs) + n ≤ length (keep q xs)

module _ {ℓ} {A : Type ℓ} (before : A → A → Bool) (order : IsOrder before) where
  pub not_back : (x y : A) → before x y ≡ true → before y x ≡ false
  not_back x y h = elim (Bool-cases (before y x)) [
    | inl back ↦
        let no_way : true ≡ false = sym (order.transitive x y x h back) ∙ order.irreflexive x in cc
    | inr other ↦ other
  ]

  module _ (p q : A → Bool) (passed : (x : A) → p x ≡ true → q x ≡ true)
      (upward : (x y : A) → q x ≡ true → before x y ≡ true → q y ≡ true) where
    advance_first : (x : A) (xs : List A) → p x ≡ true → Advance before p q 1 (x ∷ xs)
    unfolding keep take last all
    advance_first x xs hit = record {
      end = x;
      found = ap (λ r. last (take 1 r)) (keep-hit p x xs hit);
      passes = passed x hit;
      member = λ r h. ground arith;
      shorter =
          let more = length-keep_mono (before x) q xs (λ y h. upward x y (passed x hit) h) in
          ground (arith, order.irreflexive x, passed x hit, more);
    }

    -- A member that stands before the window's end joins it.
    advance_hit :
        (m : ℕ) (x : A) (xs : List A)
        → all (before x) xs ≡ true
        → p x ≡ true
        → Advance before p q (suc m) xs
        → Advance before p q (suc (suc m)) (x ∷ xs)
    unfolding keep take all
    advance_hit m x xs first hit a = record {
      end = a.end;
      found =
          ap (λ r. last (take (suc (suc m)) r)) (keep-hit p x xs hit)
          ∙ last_cons x a.end (take (suc m) (keep p xs)) a.found;
      passes = a.passes;
      member = λ r h. a.member r (ground arith);
      shorter =
          let back = not_back x a.end (a.member (before x) first) in
          ground (arith, back, passed x hit, a.shorter);
    }

    advance_miss :
        (m : ℕ) (x : A) (xs : List A)
        → all (before x) xs ≡ true
        → p x ≡ false
        → Advance before p q (suc m) xs
        → Advance before p q (suc m) (x ∷ xs)
    unfolding keep all
    advance_miss m x xs first miss a = record {
      end = a.end;
      found = ap (λ r. last (take (suc m) r)) (keep-miss p x xs miss) ∙ a.found;
      passes = a.passes;
      member = λ r h. a.member r (ground arith);
      shorter =
          let back = not_back x a.end (a.member (before x) first) in
          ground (arith, back, a.shorter);
    }

    pub advance :
        (m : ℕ) (xs : List A)
        → ordered before xs ≡ true
        → suc m ≤ length (keep p xs)
        → Advance before p q (suc m) xs
    unfolding keep ordered
    advance m [] o h = absurd (omega arith)
    advance zero (x ∷ xs) o h = elim (Bool-cases (p x)) [
      | inl hit ↦ advance_first x xs hit
      | inr miss ↦
          advance_miss zero x xs (ground arith) miss (advance zero xs (ground arith) (ground arith))
    ]
    advance (suc m) (x ∷ xs) o h = elim (Bool-cases (p x)) [
      | inl hit ↦ advance_hit m x xs (ground arith) hit (advance m xs (ground arith) (ground arith))
      | inr miss ↦
          advance_miss (suc m) x xs (ground arith) miss
            (advance (suc m) xs (ground arith) (ground arith))
    ]
