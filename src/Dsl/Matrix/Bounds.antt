-- ===== src/Dsl/Matrix/Bounds.antt =====
-- How many combinations a matrix gives, and which.
use unified_cd.Prelude.{
  ◌≡◌, refl, sym, ap, ◌∙◌, ℕ, suc, ◌*◌, ◌/◌, ◌≤◌, ◌<◌, Bool, true, false, not, List, [], ◌∷◌,
  Option, none, some, arith, ltb, ◌==◌, if◌then◌else◌, Bool-cases, inl, inr, length, length-append,
  is_empty, all, keep, Text, Table,
}
use native.Mathlib.Nat.{le-div_iff_mul-le}
use unified_cd.Dsl.Matrix.{
  no_dimensions, MatrixCombo, MatrixDimension, MatrixDef, Expansion, combos, failed, too_many,
  empty_combo, extend_all, product, first_with_slash, product_unless, exceeds, add_items,
  matches_any_exclude, and_then, expand, filtered, eval_matrix, default_matrix_max_combinations,
}

length-extend_all :
    (c : MatrixCombo) (name : Text) (vs : List Text) → length (extend_all c name vs) ≡ length vs
unfolding extend_all
length-extend_all c name [] = refl
length-extend_all c name (v ∷ vs) = ap suc (length-extend_all c name vs)

-- The product has as many members as both factors say.
length-product :
    (cs : List MatrixCombo) (name : Text) (vs : List Text)
    → length (product cs name vs) ≡ length cs * length vs
unfolding product
length-product [] name vs = omega arith
length-product (c ∷ cs) name vs =
    length-append (extend_all c name vs) (product cs name vs)
    ∙ omega (arith, length-extend_all c name vs, length-product cs name vs)

positive : (n : ℕ) → 0 < suc n
positive n = omega arith

times_divided : (a m n : ℕ) → a ≤ m / suc n → a * suc n ≤ m
times_divided a m n h = (le-div_iff_mul-le (positive n)).0 h

length-keep : (p : MatrixCombo → Bool) (cs : List MatrixCombo) → length (keep p cs) ≤ length cs
unfolding keep
length-keep p [] = omega arith
length-keep p (c ∷ cs) = ground (arith, length-keep p cs)

all-keep : (p : MatrixCombo → Bool) (cs : List MatrixCombo) → all p (keep p cs) ≡ true
unfolding keep all
all-keep p [] = refl
all-keep p (c ∷ cs) = ground (arith, all-keep p cs)

combos_inj : {cs ds : List MatrixCombo} → combos cs ≡ combos ds → cs ≡ ds
combos_inj h = cc

within : (a b : ℕ) → ltb b a ≡ false → a ≤ b
within a b h = ground arith

fits-product :
    (max : ℕ) (cs : List MatrixCombo) (name : Text) (items : List Text)
    → exceeds max cs items ≡ false
    → length (product cs name items) ≤ max
unfolding exceeds
fits-product max cs name [] h = omega (arith, length-product cs name [])
fits-product max cs name (v ∷ vs) h =
    let fitting =
      times_divided (length cs) max (length vs) (within (length cs) (max / suc (length vs)) h) in
    omega (arith, length-product cs name (v ∷ vs))

product_unless-le :
    (max : ℕ) (cs : List MatrixCombo) (name : Text) (items : List Text) (o : Option Text)
    {out : List MatrixCombo}
    → exceeds max cs items ≡ false
    → product_unless cs name items o ≡ combos out
    → length out ≤ max
product_unless-le max cs name items none h e =
    rw (← combos_inj e) (fits-product max cs name items h)
product_unless-le max [] name items (some v) h e = rw (← combos_inj e) (omega arith)
product_unless-le max (c ∷ cs) name items (some v) h e = cc

add_items-le :
    (max : ℕ) (name : Text) (cs : List MatrixCombo) (o : Option (List Text))
    {out : List MatrixCombo}
    → add_items max name cs o ≡ combos out
    → length out ≤ max
add_items-le max name cs none e = cc
add_items-le max name cs (some items) {out} e = elim (Bool-cases (exceeds max cs items)) [
  | inl over ↦
      let no_way : failed (too_many (length cs * length items) max) ≡ combos out = rw over at e in
      cc
  | inr fine ↦ product_unless-le max cs name items (first_with_slash items) fine (rw fine at e)
]

-- The cap in force.
abbrev pub limit_of : ℕ → ℕ
limit_of max_combos = if max_combos == 0 then default_matrix_max_combinations else max_combos

limit_positive : (m : ℕ) → 1 ≤ limit_of m
limit_positive m = ground arith

not_over : (a b : ℕ) → a ≤ b → ltb b a ≡ false
not_over a b h = ground arith

module _ {S : Type 0} (eval_source : S → Option (List Text)) where
  and_then-inv :
      (m : Expansion) (next : List MatrixCombo → Expansion) {out : List MatrixCombo}
      → and_then m next ≡ combos out
      → (cs : List MatrixCombo) × (m ≡ combos cs) × (next cs ≡ combos out)
  and_then-inv (failed e) next h = cc
  and_then-inv (combos cs) next h = (cs, refl, h)

  -- The product never grows over the cap on the way.
  expand-le :
      (max : ℕ) (ds : List (MatrixDimension S)) (cs : List MatrixCombo) {out : List MatrixCombo}
      → length cs ≤ max
      → expand eval_source max ds cs ≡ combos out
      → length out ≤ max
  unfolding expand
  expand-le max [] cs h e = rw (← combos_inj e) h
  expand-le max (d ∷ ds) cs h e =
      let (next, made, rest) = and_then-inv (add_items max d.name cs (eval_source d.source)) _ e in
      expand-le max ds next (add_items-le max d.name cs (eval_source d.source) made) rest

  -- The check after the exclusion never refuses what the product let pass.
  filtered-keeps :
      (max : ℕ) (exclude : List (Table Text)) (cs : List MatrixCombo)
      → length cs ≤ max
      → filtered max exclude cs ≡ combos (keep (λ c. not (matches_any_exclude c.values exclude)) cs)
  unfolding filtered
  filtered-keeps max exclude cs h =
      rw
        (not_over (length (keep (λ c. not (matches_any_exclude c.values exclude)) cs)) max
          (omega (arith, length-keep (λ c. not (matches_any_exclude c.values exclude)) cs)))
        refl

  expand-within :
      (def : MatrixDef S) (max_combos : ℕ) {cs : List MatrixCombo}
      → expand eval_source (limit_of max_combos) def.dimensions (empty_combo ∷ []) ≡ combos cs
      → length cs ≤ limit_of max_combos
  expand-within def max_combos =
      expand-le (limit_of max_combos) def.dimensions (empty_combo ∷ []) (limit_positive max_combos)

  -- When a matrix has a dimension and its dimensions expand to a product under the cap in force,
  -- the evaluation succeeds with the combinations of the product that match no exclude entry, in
  -- their order: the check after the exclusion refuses nothing.
  pub eval_matrix-expands :
      (def : MatrixDef S) (max_combos : ℕ) {cs : List MatrixCombo}
      → is_empty def.dimensions ≡ false
      → expand eval_source (limit_of max_combos) def.dimensions (empty_combo ∷ []) ≡ combos cs
      → eval_matrix eval_source def max_combos
        ≡ combos (keep (λ c. not (matches_any_exclude c.values def.exclude)) cs)
  unfolding eval_matrix
  eval_matrix-expands def max_combos {cs} some_dimension expanded =
      rw (some_dimension, expanded)
        (filtered-keeps (limit_of max_combos) def.exclude cs
          (expand-within def max_combos expanded))

  kept_within :
      (max : ℕ) (exclude : List (Table Text)) (cs : List MatrixCombo) {out : List MatrixCombo}
      → length cs ≤ max
      → filtered max exclude cs ≡ combos out
      → (length out ≤ max) × (all (λ c. not (matches_any_exclude c.values exclude)) out ≡ true)
  kept_within max exclude cs h done =
      let same = combos_inj (sym (filtered-keeps max exclude cs h) ∙ done) in
      rw (← same) (
        omega (arith, length-keep (λ c. not (matches_any_exclude c.values exclude)) cs),
        all-keep (λ c. not (matches_any_exclude c.values exclude)) cs,
      )

  -- A matrix that evaluates gives at most as many combinations as the cap in force, and none of
  -- them matches an exclude entry.
  pub eval_matrix-le :
      (def : MatrixDef S) (max_combos : ℕ) {out : List MatrixCombo}
      → eval_matrix eval_source def max_combos ≡ combos out
      → (length out ≤ limit_of max_combos)
        × (all (λ c. not (matches_any_exclude c.values def.exclude)) out ≡ true)
  unfolding eval_matrix
  eval_matrix-le def max_combos {out} done = elim (Bool-cases (is_empty def.dimensions)) [
    | inl nothing ↦ let no_way : failed no_dimensions ≡ combos out = rw nothing at done in cc
    | inr something ↦
        let (cs, expanded, kept) =
          and_then-inv (expand eval_source (limit_of max_combos) def.dimensions (empty_combo ∷ []))
            _ (rw something at done) in
        kept_within (limit_of max_combos) def.exclude cs (expand-within def max_combos expanded)
          kept
  ]
