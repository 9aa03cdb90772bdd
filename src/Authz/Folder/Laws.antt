-- ===== src/Authz/Folder/Laws.antt =====
-- `Ancestors` lists exactly the non-empty folders that `Covers` accepts.
use unified_cd.Prelude.{
  ℕ, ◌≡◌, Bool, any, refl, true, false, not, ◌&&◌, ◌||◌, [], ◌∷◌, ◌++◌, append-nil, append_assoc,
  arith, ◌==◌, Bool-cases, inl, inr, is_empty, contains, Text, text_eq, text_eq_iff, text_eq_refl,
  has_prefix, has_prefix-append_both, Bool-eq,
}
use unified_cd.Authz.Folder.{
  ok, slash, split, trim, is_bad_segment, normalize_folder, covers, ancestors_from, ancestors,
}

-- What follows the folder on the way to the job starts with the slash.
covers-step : (pre a rest : Text) → covers (pre ++ a) (pre ++ rest) ≡ covers a rest
unfolding covers
covers-step pre a rest =
    rw (append_assoc pre a (slash ∷ [])) (has_prefix-append_both pre rest (a ++ slash ∷ []))

covers-root : (a : Text) → covers a [] ≡ true → ⊥
unfolding covers has_prefix
covers-root [] h = cc
covers-root (x ∷ a) h = cc

covers-nil : (rest : Text) → covers [] (slash ∷ rest) ≡ true
unfolding covers has_prefix
covers-nil rest = refl

covers-cut : (c : ℕ) (rest : Text) → covers [] (c ∷ rest) ≡ true → c ≡ slash
unfolding covers has_prefix
covers-cut c rest h = ground arith

covers-cons :
    (x : ℕ) (a : Text) (c : ℕ) (rest : Text)
    → covers (x ∷ a) (c ∷ rest) ≡ true
    → (c ≡ x) × (covers a rest ≡ true)
unfolding covers has_prefix
covers-cons x a c rest h = ground arith

is_empty-step : (pre : Text) (c : ℕ) (a : Text) → is_empty ((pre ++ c ∷ []) ++ a) ≡ false
is_empty-step [] c a = refl
is_empty-step (x ∷ pre) c a = refl

covers-hit : (pre rest : Text) → covers pre (pre ++ slash ∷ rest) ≡ true
unfolding covers has_prefix
covers-hit pre rest = has_prefix-append_both pre (slash ∷ rest) (slash ∷ [])

-- One round of the loop, told by membership.
contains-round :
    (f pre rest : Text) (c : ℕ)
    → contains (ancestors_from pre (c ∷ rest)) f ≡ (
        (c == slash && not (is_empty pre) && text_eq pre f)
        || contains (ancestors_from (pre ++ c ∷ []) rest) f)
unfolding contains ancestors_from
contains-round f pre rest c = elim (Bool-cases (c == slash && not (is_empty pre))) [
  | inl hit ↦ rw hit
  | inr miss ↦ rw miss
]

contains-hit :
    (f pre rest : Text) (c : ℕ)
    → contains (ancestors_from (pre ++ c ∷ []) rest) f ≡ false
    → ((c == slash && not (is_empty pre) && text_eq pre f)
        || contains (ancestors_from (pre ++ c ∷ []) rest) f)
      ≡ true
    → (covers f (pre ++ c ∷ rest) ≡ true) × (is_empty f ≡ false)
contains-hit f pre rest c miss h =
    let hit : (c == slash && not (is_empty pre) && text_eq pre f) ≡ true = ground (arith, miss) in
    let same : pre ≡ f = (text_eq_iff pre f).0 (ground arith) in
    let cut : c ≡ slash = ground arith in rw (← same, cut) (covers-hit pre rest, ground arith)

-- Each listed ancestor is a folder above the job, and not the root.
contains-covers :
    (f pre rest : Text)
    → contains (ancestors_from pre rest) f ≡ true
    → (covers f (pre ++ rest) ≡ true) × (is_empty f ≡ false)
contains-covers f pre [] h = unfold contains ancestors_from in cc
contains-covers f pre (c ∷ rest) h =
    elim (Bool-cases (contains (ancestors_from (pre ++ c ∷ []) rest) f)) [
      | inl more ↦
          rw (append_assoc pre (c ∷ []) rest) at (contains-covers f (pre ++ c ∷ []) rest more)
      | inr none_more ↦ contains-hit f pre rest c none_more (rw (contains-round f pre rest c) at h)
    ]

-- Each folder above the job is listed.
covers-contains :
    (pre a rest : Text)
    → covers a rest ≡ true
    → is_empty (pre ++ a) ≡ false
    → contains (ancestors_from pre rest) (pre ++ a) ≡ true
covers-contains pre a [] h n = unfold covers has_prefix in absurd (covers-root a h)
covers-contains pre [] (c ∷ rest) h n =
    rw (contains-round (pre ++ []) pre rest c, append-nil pre, text_eq_refl pre)
      (ground (arith, covers-cut c rest h, append-nil pre))
covers-contains pre (x ∷ a) (c ∷ rest) h n =
    let same : c ≡ x = (covers-cons x a c rest h).0 in
    let more =
      covers-contains (pre ++ c ∷ []) a rest (covers-cons x a c rest h).1 (is_empty-step pre c a) in
    rw (contains-round (pre ++ x ∷ a) pre rest c, ← same)
      (ground (arith, rw (append_assoc pre (c ∷ []) a) at more))

-- Ancestors lists a folder exactly when the folder is not empty and Covers says that it covers the
-- job.
pub contains-ancestors :
    (f job : Text) → contains (ancestors job) f ≡ (not (is_empty f) && covers f job)
unfolding ancestors
contains-ancestors f job =
    Bool-eq _ _ (λ h. ground (arith, contains-covers f [] job h))
      (λ h. covers-contains [] f job (ground arith) (ground arith))

root_refused :
    (t f : Text) → any is_bad_segment (split slash t) ≡ false → t ≡ f → is_empty f ≡ false
root_refused [] f h e = unfold any split is_bad_segment in cc
root_refused (c ∷ t) f h e = ground arith

-- A key that is accepted is never the root: its segments are checked, and the root has a bad one.
pub normalize_folder-not-root :
    (has_space : Text → Bool) (key : Text) {f : Text}
    → normalize_folder has_space key ≡ ok f
    → is_empty f ≡ false
unfolding normalize_folder
normalize_folder-not-root has_space key {f} h =
    root_refused (trim slash key) f (ground arith) (ground arith)
