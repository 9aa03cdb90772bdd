-- ===== src/Dsl/QualifiedName.antt =====
-- internal/dsl/qualname.go: names in directories.
use unified_cd.Prelude.{
  ◌≡◌, refl, sym, ap, ◌∙◌, ℕ, Bool, true, false, ◌||◌, [], ◌∷◌, ◌++◌, Option, none, some, arith,
  ◌==◌, if◌then◌else◌, Bool-cases, inl, inr, is_empty, any, Text,
}
use unified_cd.Authz.Folder.{slash, trim}

unfoldable pub qualify_name : Text → Text → Text
qualify_name path name =
    let p = trim slash path in let n = trim slash name in if is_empty p then n else p ++ slash ∷ n

abbrev pub cut_here : Bool → ℕ → Text → Option (Text × Text) → Option (Text × Text)
cut_here b c s (some (path, leaf)) = some (c ∷ path, leaf)
cut_here b c s none = if b then some ([], s) else none

-- The two sides of the last slash.
unfoldable pub cut_last : Text → Option (Text × Text)
cut_last [] = none
cut_last (c ∷ s) = cut_here (c == slash) c s (cut_last s)

abbrev pub split_or_whole : Text → Option (Text × Text) → Text × Text
split_or_whole s none = ([], s)
split_or_whole s (some cut) = cut

unfoldable pub split_qualified_name : Text → Text × Text
split_qualified_name s = split_or_whole s (cut_last s)

abbrev pub has_slash : Text → Bool
has_slash s = any (λ c. c == slash) s

cut_last-none : (s : Text) → has_slash s ≡ false → cut_last s ≡ none
unfolding cut_last any
cut_last-none [] h = refl
cut_last-none (c ∷ s) h = elim (Bool-cases (c == slash)) [
  | inl here ↦ let no_way : true ≡ false = rw here at h in cc
  | inr other ↦ rw (cut_last-none s (rw other at h), other)
]

cut_last-append :
    (path leaf : Text)
    → has_slash leaf ≡ false
    → cut_last (path ++ slash ∷ leaf) ≡ some (path, leaf)
unfolding cut_last
cut_last-append [] leaf h = rw (cut_last-none leaf h)
cut_last-append (c ∷ path) leaf h = rw (cut_last-append path leaf h)

split_joined :
    (p n : Text)
    → has_slash n ≡ false
    → (split_qualified_name (if is_empty p then n else p ++ slash ∷ n)) ≡ (p, n)
unfolding split_qualified_name
split_joined [] n h = rw (cut_last-none n h)
split_joined (c ∷ p) n h = rw (cut_last-append (c ∷ p) n h)

-- A qualified name splits into the trimmed directory and the trimmed name that it was made of,
-- when the trimmed name has no slash.
pub split-qualify_name :
    (path name : Text)
    → has_slash (trim slash name) ≡ false
    → split_qualified_name (qualify_name path name) ≡ (trim slash path, trim slash name)
unfolding split_qualified_name qualify_name
split-qualify_name path name h = split_joined (trim slash path) (trim slash name) h

cut_here-none :
    (b : Bool) (c : ℕ) (s : Text) (o : Option (Text × Text))
    → (o ≡ none → has_slash s ≡ false)
    → cut_here b c s o ≡ none
    → (b || has_slash s) ≡ false
cut_here-none b c s (some cut) later h = cc
cut_here-none true c s none later h = cc
cut_here-none false c s none later h = later refl

abbrev cut_at : Text → Text → Option (Text × Text)
cut_at p l = some (p, l)

pair_inj : {p l q m : Text} → cut_at p l ≡ cut_at q m → (p ≡ q) × (l ≡ m)
pair_inj h = (cc, cc)

cut_last-slash : (s : Text) → cut_last s ≡ none → has_slash s ≡ false
unfolding cut_last any
cut_last-slash [] h = refl
cut_last-slash (c ∷ s) h = cut_here-none (c == slash) c s (cut_last s) (cut_last-slash s) h

cut_here-some :
    (b : Bool) (c : ℕ) (s path leaf : Text) (o : Option (Text × Text))
    → (b ≡ true → c ≡ slash)
    → (o ≡ none → has_slash s ≡ false)
    → ((p l : Text) → o ≡ some (p, l) → ((p ++ slash ∷ l) ≡ s) × (has_slash l ≡ false))
    → cut_here b c s o ≡ some (path, leaf)
    → ((path ++ slash ∷ leaf) ≡ c ∷ s) × (has_slash leaf ≡ false)
cut_here-some b c s path leaf (some (p, l)) at_c whole later h =
    let (joins, clean) = later p l refl in
    let (heads, leaves) = pair_inj h in rw (← heads, ← leaves) (ap (λ t. c ∷ t) joins, clean)
cut_here-some true c s path leaf none at_c whole later h =
    let (heads, leaves) = pair_inj h in
    rw (← heads, ← leaves) (ap (λ d. d ∷ s) (sym (at_c refl)), whole refl)
cut_here-some false c s path leaf none at_c whole later h = cc

cut_last-some :
    (s path leaf : Text)
    → cut_last s ≡ some (path, leaf)
    → ((path ++ slash ∷ leaf) ≡ s) × (has_slash leaf ≡ false)
unfolding cut_last
cut_last-some [] path leaf h = cc
cut_last-some (c ∷ s) path leaf h =
    cut_here-some (c == slash) c s path leaf (cut_last s) (λ e. ground arith) (cut_last-slash s)
      (cut_last-some s) h

split_or_whole-joins :
    (s : Text) (o : Option (Text × Text))
    → cut_last s ≡ o
    → has_slash s ≡ true
    → (((split_or_whole s o).0 ++ slash ∷ (split_or_whole s o).1) ≡ s)
      × (has_slash (split_or_whole s o).1 ≡ false)
split_or_whole-joins s (some (path, leaf)) e h = cut_last-some s path leaf e
split_or_whole-joins s none e h = let clash = sym h ∙ cut_last-slash s e in cc

-- A name with a slash splits into a directory and a leaf without a slash, which joined by a slash
-- give the name.
pub split_qualified_name-joins :
    (s : Text)
    → has_slash s ≡ true
    → (((split_qualified_name s).0 ++ slash ∷ (split_qualified_name s).1) ≡ s)
      × (has_slash (split_qualified_name s).1 ≡ false)
unfolding split_qualified_name
split_qualified_name-joins s h = split_or_whole-joins s (cut_last s) refl h
