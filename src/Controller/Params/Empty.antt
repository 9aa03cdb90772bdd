-- ===== src/Controller/Params/Empty.antt =====
-- Which inputs may end up with an empty value.
use unified_cd.Prelude.{
  ◌≡◌, refl, sym, ◌∙◌, Bool, true, not, ◌||◌, List, [], ◌∷◌, ◌++◌, Option, none, some, arith,
  Bool-cases, inl, inr, is_empty, all, Text, text_eq_refl, lookup, lookup-insert,
}
use unified_cd.Controller.Params.{Input, value_of, is_set, Filled, fill_unset, fill_one, fill_all}
use unified_cd.Controller.Params.Filling.{
  is_set-same, fill_all-keeps, fill_all-missing, grown_not_empty,
}

-- Optional without a default, or with a default that is empty itself.
abbrev pub allows_empty : Bool → Option Text → Bool
allows_empty required none = not required
allows_empty required (some d) = is_empty d

either : (b : Bool) → (not b || b) ≡ true
either b = ground arith

fill_unset-set :
    (f : Filled) (i : Input) (o : Option Text)
    → is_empty (fill_unset f i o).missing ≡ true
    → (is_set (fill_unset f i o).values i.name || allows_empty i.required o) ≡ true
unfolding is_set
fill_unset-set f i (some d) h =
    rw (lookup-insert i.name i.name d f.values, text_eq_refl i.name) (either (is_empty d))
fill_unset-set f i none h = elim (Bool-cases i.required) [
  | inl needed ↦
      let no_way : is_empty (f.missing ++ i.name ∷ []) ≡ true = rw needed at h in
      let clash = sym no_way ∙ grown_not_empty f.missing i.name in cc
  | inr free ↦ rw free (or_true (not (is_empty (value_of (lookup i.name f.values)))))
]
  where
    or_true : (b : Bool) → (b || true) ≡ true
    or_true b = ground arith

or_first : (a b : Bool) → a ≡ true → (a || b) ≡ true
or_first a b h = ground arith

fill_one-set :
    (f : Filled) (i : Input)
    → is_empty (fill_one f i).missing ≡ true
    → (is_set (fill_one f i).values i.name || allows_empty i.required i.default) ≡ true
unfolding fill_one
fill_one-set f i h = elim (Bool-cases (is_set f.values i.name)) [
  | inl present ↦ rw present (or_first (is_set f.values i.name) _ present)
  | inr unset ↦ rw unset (fill_unset-set f i i.default (rw unset at h))
]

or_weaken : (a b c : Bool) → (a ≡ true → b ≡ true) → (a || c) ≡ true → (b || c) ≡ true
or_weaken a b c h e = ground (arith, h)

-- Once no required input is missing, an input has a value that is not empty, or allows an empty one.
pub fill_all-set :
    (f : Filled) (is : List Input)
    → is_empty (fill_all f is).missing ≡ true
    → all (λ i. is_set (fill_all f is).values i.name || allows_empty i.required i.default) is ≡ true
unfolding fill_all all
fill_all-set f [] h = refl
fill_all-set f (i ∷ is) h =
    let g = fill_one f i in
    let kept =
      or_weaken (is_set g.values i.name) (is_set (fill_all g is).values i.name) _
        (λ e. is_set-same (fill_all g is).values g.values i.name (fill_all-keeps g is i.name e) ∙ e)
        (fill_one-set f i (fill_all-missing g is h)) in
    rw kept (fill_all-set g is h)
