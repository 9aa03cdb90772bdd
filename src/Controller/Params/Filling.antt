-- ===== src/Controller/Params/Filling.antt =====
-- The first loop of `resolveParams`: what it keeps, supplies and leaves alone.
use unified_cd.Prelude.{
  ◌≡◌, refl, sym, ap, ◌∙◌, Bool, true, false, not, ◌&&◌, ◌||◌, List, [], ◌∷◌, ◌++◌, Option, none,
  some, arith, Bool-cases, inl, inr, is_empty, any, all, Text, text_eq, text_eq_iff, text_eq_refl,
  Table, lookup, insert, lookup-insert,
}
use unified_cd.Controller.Params.{Input, value_of, is_set, Filled, fill_unset, fill_one, fill_all}

-- What the first loop left: every required input is present, and not empty where it has no default.
abbrev pub is_present : Option Text → Bool
is_present none = false
is_present (some v) = true

abbrev pub is_supplied : Table Text → Input → Bool
is_supplied m i = is_set m i.name || (is_present i.default && is_present (lookup i.name m))

is_set-insert :
    (k j v : Text) (m : Table Text)
    → is_set m k ≡ false
    → is_set m j ≡ true
    → lookup j (insert k v m) ≡ lookup j m
unfolding is_set
is_set-insert k j v m unset set = elim (Bool-cases (text_eq k j)) [
  | inl same ↦
      let no_way : true ≡ false =
        sym set ∙ (ap (is_set m) (sym ((text_eq_iff k j).0 same)) ∙ unset) in
      cc
  | inr other ↦ lookup-insert k j v m ∙ rw other refl
]

pub is_set-same : (m n : Table Text) (k : Text) → lookup k m ≡ lookup k n → is_set m k ≡ is_set n k
unfolding is_set
is_set-same m n k h = ap (λ o. not (is_empty (value_of o))) h

-- A value that is set stays as it is.
fill_unset-keeps :
    (f : Filled) (i : Input) (o : Option Text) (k : Text)
    → is_set f.values i.name ≡ false
    → is_set f.values k ≡ true
    → lookup k (fill_unset f i o).values ≡ lookup k f.values
fill_unset-keeps f i (some d) k unset set = is_set-insert i.name k d f.values unset set
fill_unset-keeps f i none k unset set = elim (Bool-cases i.required) [
  | inl needed ↦ rw needed
  | inr free ↦ rw free
]

fill_one-keeps :
    (f : Filled) (i : Input) (k : Text)
    → is_set f.values k ≡ true
    → lookup k (fill_one f i).values ≡ lookup k f.values
unfolding fill_one
fill_one-keeps f i k set = elim (Bool-cases (is_set f.values i.name)) [
  | inl present ↦ rw present
  | inr unset ↦ rw unset (fill_unset-keeps f i i.default k unset set)
]

pub fill_all-keeps :
    (f : Filled) (is : List Input) (k : Text)
    → is_set f.values k ≡ true
    → lookup k (fill_all f is).values ≡ lookup k f.values
unfolding fill_all
fill_all-keeps f [] k set = refl
fill_all-keeps f (i ∷ is) k set =
    let step = fill_one-keeps f i k set in
    fill_all-keeps (fill_one f i) is k (is_set-same (fill_one f i).values f.values k step ∙ set)
    ∙ step

-- A key that is no input is left alone.
fill_unset-other :
    (f : Filled) (i : Input) (o : Option Text) (k : Text)
    → text_eq i.name k ≡ false
    → lookup k (fill_unset f i o).values ≡ lookup k f.values
fill_unset-other f i (some d) k other = lookup-insert i.name k d f.values ∙ rw other refl
fill_unset-other f i none k other = elim (Bool-cases i.required) [
  | inl needed ↦ rw needed
  | inr free ↦ rw free
]

fill_one-other :
    (f : Filled) (i : Input) (k : Text)
    → text_eq i.name k ≡ false
    → lookup k (fill_one f i).values ≡ lookup k f.values
unfolding fill_one
fill_one-other f i k other = elim (Bool-cases (is_set f.values i.name)) [
  | inl present ↦ rw present
  | inr unset ↦ rw unset (fill_unset-other f i i.default k other)
]

or_no : (a b : Bool) → (a || b) ≡ false → (a ≡ false) × (b ≡ false)
or_no true b h = cc
or_no false b h = (refl, h)

pub fill_all-other :
    (f : Filled) (is : List Input) (k : Text)
    → any (λ i. text_eq i.name k) is ≡ false
    → lookup k (fill_all f is).values ≡ lookup k f.values
unfolding fill_all any
fill_all-other f [] k h = refl
fill_all-other f (i ∷ is) k h =
    let (here, later) = or_no (text_eq i.name k) _ h in
    fill_all-other (fill_one f i) is k later ∙ fill_one-other f i k here

-- A key that is present stays present.
insert-present :
    (k j v : Text) (m : Table Text)
    → is_present (lookup j m) ≡ true
    → is_present (lookup j (insert k v m)) ≡ true
insert-present k j v m h = elim (Bool-cases (text_eq k j)) [
  | inl same ↦ rw (lookup-insert k j v m, same)
  | inr other ↦ rw (lookup-insert k j v m, other) h
]

fill_unset-present :
    (f : Filled) (i : Input) (o : Option Text) (k : Text)
    → is_present (lookup k f.values) ≡ true
    → is_present (lookup k (fill_unset f i o).values) ≡ true
fill_unset-present f i (some d) k h = insert-present i.name k d f.values h
fill_unset-present f i none k h = elim (Bool-cases i.required) [
  | inl needed ↦ rw needed h
  | inr free ↦ rw free h
]

fill_one-present :
    (f : Filled) (i : Input) (k : Text)
    → is_present (lookup k f.values) ≡ true
    → is_present (lookup k (fill_one f i).values) ≡ true
unfolding fill_one
fill_one-present f i k h = elim (Bool-cases (is_set f.values i.name)) [
  | inl present ↦ rw present h
  | inr unset ↦ rw unset (fill_unset-present f i i.default k h)
]

pub fill_all-present :
    (f : Filled) (is : List Input) (k : Text)
    → is_present (lookup k f.values) ≡ true
    → is_present (lookup k (fill_all f is).values) ≡ true
unfolding fill_all
fill_all-present f [] k h = h
fill_all-present f (i ∷ is) k h = fill_all-present (fill_one f i) is k (fill_one-present f i k h)

pub grown_not_empty : (xs : List Text) (x : Text) → is_empty (xs ++ x ∷ []) ≡ false
grown_not_empty [] x = refl
grown_not_empty (y ∷ xs) x = refl

-- A missing name stays missing.
fill_unset-missing :
    (f : Filled) (i : Input) (o : Option Text)
    → is_empty (fill_unset f i o).missing ≡ true
    → is_empty f.missing ≡ true
fill_unset-missing f i (some d) h = h
fill_unset-missing f i none h = elim (Bool-cases i.required) [
  | inl needed ↦
      let no_way : is_empty (f.missing ++ i.name ∷ []) ≡ true = rw needed at h in
      let clash = sym no_way ∙ grown_not_empty f.missing i.name in cc
  | inr free ↦ rw free at h
]

fill_one-missing :
    (f : Filled) (i : Input) → is_empty (fill_one f i).missing ≡ true → is_empty f.missing ≡ true
unfolding fill_one
fill_one-missing f i h = elim (Bool-cases (is_set f.values i.name)) [
  | inl present ↦ rw present at h
  | inr unset ↦ fill_unset-missing f i i.default (rw unset at h)
]

pub fill_all-missing :
    (f : Filled) (is : List Input)
    → is_empty (fill_all f is).missing ≡ true
    → is_empty f.missing ≡ true
unfolding fill_all
fill_all-missing f [] h = h
fill_all-missing f (i ∷ is) h = fill_one-missing f i (fill_all-missing (fill_one f i) is h)

any_or_true : (a b : Bool) → (a || (b || true)) ≡ true
any_or_true a b = ground arith

-- The step of a required input supplies it, or names it as missing.
fill_unset-supplied :
    (f : Filled) (i : Input) (o : Option Text)
    → is_empty (fill_unset f i o).missing ≡ true
    → (not i.required
        || (is_set (fill_unset f i o).values i.name
            || (is_present o && is_present (lookup i.name (fill_unset f i o).values))))
      ≡ true
fill_unset-supplied f i (some d) h =
    rw (lookup-insert i.name i.name d f.values, text_eq_refl i.name)
      (any_or_true (not i.required) _)
fill_unset-supplied f i none h = elim (Bool-cases i.required) [
  | inl needed ↦
      let no_way : is_empty (f.missing ++ i.name ∷ []) ≡ true = rw needed at h in
      let clash = sym no_way ∙ grown_not_empty f.missing i.name in cc
  | inr free ↦ rw free
]

or_first : (a b c : Bool) → b ≡ true → (a || (b || c)) ≡ true
or_first a b c h = ground arith

fill_one-supplied :
    (f : Filled) (i : Input)
    → is_empty (fill_one f i).missing ≡ true
    → (not i.required || is_supplied (fill_one f i).values i) ≡ true
unfolding fill_one
fill_one-supplied f i h = elim (Bool-cases (is_set f.values i.name)) [
  | inl present ↦ rw present (or_first (not i.required) (is_set f.values i.name) _ present)
  | inr unset ↦ rw unset (fill_unset-supplied f i i.default (rw unset at h))
]

weaken :
    (a b b' c d d' : Bool)
    → (b ≡ true → b' ≡ true)
    → (d ≡ true → d' ≡ true)
    → (a || (b || (c && d))) ≡ true
    → (a || (b' || (c && d'))) ≡ true
weaken a b b' c d d' h k e = ground (arith, h, k)

pub fill_all-supplied :
    (f : Filled) (is : List Input)
    → is_empty (fill_all f is).missing ≡ true
    → all (λ i. not i.required || is_supplied (fill_all f is).values i) is ≡ true
unfolding fill_all all
fill_all-supplied f [] h = refl
fill_all-supplied f (i ∷ is) h =
    let g = fill_one f i in
    let here = fill_one-supplied f i (fill_all-missing g is h) in
    let kept =
      weaken (not i.required) (is_set g.values i.name) (is_set (fill_all g is).values i.name)
        (is_present i.default) _ _
        (λ e. is_set-same (fill_all g is).values g.values i.name (fill_all-keeps g is i.name e) ∙ e)
        (fill_all-present g is i.name) here in
    rw kept (fill_all-supplied g is h)
