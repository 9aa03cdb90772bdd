-- ===== src/Store/Pending/Cursor.antt =====
-- The order of the pending runs, and what is past a cursor.
use unified_cd.Prelude.{
  ◌≡◌, refl, ◌≤◌, Bool, true, false, List, [], ◌∷◌, ◌++◌, Option, none, some, arith, length, all,
  keep, Text, text_lt,
}
use unified_cd.Prelude.Window.{IsOrder, length-keep_le}
use unified_cd.Store.Pending.{PendingCursor, before, is_past}

pub text_lt-irreflexive : (s : Text) → text_lt s s ≡ false
unfolding text_lt
text_lt-irreflexive [] = refl
text_lt-irreflexive (a ∷ s) = ground (arith, text_lt-irreflexive s)

pub text_lt-transitive :
    (s t u : Text) → text_lt s t ≡ true → text_lt t u ≡ true → text_lt s u ≡ true
unfolding text_lt
text_lt-transitive s t [] h k = k
text_lt-transitive [] t (c ∷ u) h k = refl
text_lt-transitive (a ∷ s) [] (c ∷ u) h k = let no_way : false ≡ true = h in cc
text_lt-transitive (a ∷ s) (b ∷ t) (c ∷ u) h k = ground (arith, text_lt-transitive s t u)

pub before-IsOrder : IsOrder before
unfolding before
before-IsOrder = record {
  irreflexive = λ x. ground (arith, text_lt-irreflexive x.id);
  transitive = λ x y z h k. ground (arith, text_lt-transitive x.id y.id z.id);
}

pub is_past-upward :
    (after : Option PendingCursor) (k j : PendingCursor)
    → is_past after k ≡ true
    → before k j ≡ true
    → is_past after j ≡ true
unfolding is_past
is_past-upward none k j h b = refl
is_past-upward (some c) k j h b = before-IsOrder.transitive c k j h b

-- Nothing that stands before a key that is not past the cursor is past it.
pub length-keep_behind :
    (q : PendingCursor → Bool) (x : PendingCursor) (pre post : List PendingCursor)
    → ((k j : PendingCursor) → q k ≡ true → before k j ≡ true → q j ≡ true)
    → all (λ k. before k x) pre ≡ true
    → q x ≡ false
    → length (keep q (pre ++ x ∷ post)) ≤ length post
unfolding keep all
length-keep_behind q x [] post up o h = ground (arith, length-keep_le q post)
length-keep_behind q x (k ∷ pre) post up o h =
    ground (arith, up k x, length-keep_behind q x pre post up)

pub past-some : (e k : PendingCursor) → before e k ≡ true → is_past (some e) k ≡ true
unfolding is_past
past-some e k h = h

pub past-none : (k : PendingCursor) → is_past none k ≡ true
unfolding is_past
past-none k = refl

pub keep-some :
    (e : PendingCursor) (ks : List PendingCursor) → keep (is_past (some e)) ks ≡ keep (before e) ks
unfolding is_past
keep-some e ks = refl
