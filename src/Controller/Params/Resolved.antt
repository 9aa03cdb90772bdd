-- ===== src/Controller/Params/Resolved.antt =====
-- What a successful `resolveParams` guarantees.
use unified_cd.Prelude.{
  ◌≡◌, refl, Bool, true, false, not, ◌&&◌, ◌||◌, List, [], ◌∷◌, Option, none, some, if◌then◌else◌,
  Bool-cases, inl, inr, is_empty, any, all, Text, text_eq, contains, Table, lookup,
}
use unified_cd.Controller.Params.{
  Input, ParamError, resolved, failed, missing_params, is_set, Filled, fill_all, or_error,
  choice_error, choice_error_at, check_choice, check_choices, match_error, pattern_error_at,
  check_pattern, check_patterns, resolved_unless, resolve_params,
}
use unified_cd.Controller.Params.Filling.{
  is_present, is_supplied, fill_all-keeps, fill_all-other, fill_all-present, fill_all-supplied,
}
use unified_cd.Controller.Params.Empty.{allows_empty, fill_all-set}

abbrev pub matches_with : Option (Text → Bool) → Text → Bool
matches_with none v = false
matches_with (some m) v = m v

-- What the two loops let pass: a value that matches the pattern of the input, where it has one, and
-- is empty or one of its choices, where it has any; and no value.
abbrev pub accepts : (Text → Option (Text → Bool)) → Input → Option Text → Bool
accepts compile i none = true
accepts compile i (some v) =
    (is_empty i.pattern || matches_with (compile i.pattern) v)
    && (is_empty i.choices || (is_empty v || contains i.choices v))

or_error-none : (a b : Option ParamError) → or_error a b ≡ none → (a ≡ none) × (b ≡ none)
or_error-none none b h = (refl, h)
or_error-none (some e) b h = cc

if_none_bool : (b : Bool) (e : ParamError) → (if b then none else some e) ≡ none → b ≡ true
if_none_bool true e h = refl
if_none_bool false e h = cc

module _ (compile : Text → Option (Text → Bool)) where
  matches-some :
      (i : Input) (v : Text) (o : Option (Text → Bool))
      → match_error compile i v o ≡ none
      → matches_with o v ≡ true
  matches-some i v none h = cc
  matches-some i v (some m) h = if_none_bool (m v) _ h

  pattern-holds :
      (b : Bool) (i : Input) (v : Text) (o : Option (Text → Bool))
      → (if b then none else match_error compile i v o) ≡ none
      → (b || matches_with o v) ≡ true
  pattern-holds true i v o h = refl
  pattern-holds false i v o h = matches-some i v o h

  choice-holds :
      (b : Bool) (i : Input) (v : Text)
      → (if b then none else choice_error i v) ≡ none
      → (b || (is_empty v || contains i.choices v)) ≡ true
  choice-holds true i v h = refl
  choice-holds false i v h = if_none_bool (is_empty v || contains i.choices v) _ h

  accepts-at :
      (i : Input) (o : Option Text)
      → (if is_empty i.pattern then none else pattern_error_at compile i o) ≡ none
      → (if is_empty i.choices then none else choice_error_at i o) ≡ none
      → accepts compile i o ≡ true
  accepts-at i none h k = refl
  accepts-at i (some v) h k =
      rw (pattern-holds (is_empty i.pattern) i v (compile i.pattern) h)
        (choice-holds (is_empty i.choices) i v k)

  pub accepts-all :
      (m : Table Text) (is : List Input)
      → check_patterns compile m is ≡ none
      → check_choices m is ≡ none
      → all (λ i. accepts compile i (lookup i.name m)) is ≡ true
  unfolding check_patterns check_choices check_pattern check_choice all
  accepts-all m [] h k = refl
  accepts-all m (i ∷ is) h k =
      let (h1, h2) = or_error-none (check_pattern compile m i) (check_patterns compile m is) h in
      let (k1, k2) = or_error-none (check_choice m i) (check_choices m is) k in
      rw (accepts-at i (lookup i.name m) h1 k1) (accepts-all m is h2 k2)

resolved_inj : {m r : Table Text} → resolved m ≡ resolved r → m ≡ r
resolved_inj h = cc

resolved_unless-inv :
    (compile : Text → Option (Text → Bool)) (m r : Table Text) (o : Option ParamError)
    → resolved_unless compile m o ≡ resolved r
    → (o ≡ none) × (m ≡ r)
resolved_unless-inv compile m r none h = (refl, resolved_inj h)
resolved_unless-inv compile m r (some e) h = cc

-- What a result tells of the loops.
record IsResolved (compile : Text → Option (Text → Bool)) (inputs : List Input) (f : Filled)
    (r : Table Text) : Type 0 where
  none_missing : is_empty f.missing ≡ true
  same : f.values ≡ r
  patterns_ok : check_patterns compile f.values inputs ≡ none
  choices_ok : check_choices f.values inputs ≡ none

resolve_params-inv :
    (compile : Text → Option (Text → Bool)) (inputs : List Input) (supplied : Table Text)
    {r : Table Text}
    → resolve_params compile inputs supplied ≡ resolved r
    → IsResolved compile inputs (fill_all (record { values = supplied; missing = [] }) inputs) r
unfolding resolve_params
resolve_params-inv compile inputs supplied {r} h =
    let f = fill_all (record { values = supplied; missing = [] }) inputs in
    elim (Bool-cases (is_empty f.missing)) [
      | inl fine ↦
          let (checked, same) = resolved_unless-inv compile f.values r _ (rw fine at h) in
          let (p, c) =
            or_error-none (check_patterns compile f.values inputs) (check_choices f.values inputs)
              checked in
          record { none_missing = fine; same = same; patterns_ok = p; choices_ok = c }
      | inr lacking ↦
          let no_way : failed (missing_params f.missing) ≡ resolved r = rw lacking at h in cc
    ]

module _ (compile : Text → Option (Text → Bool)) (inputs : List Input) (supplied : Table Text)
    {r : Table Text} (done : resolve_params compile inputs supplied ≡ resolved r) where
  -- When the parameters resolve, the value of every declared input that has one satisfies the
  -- pattern of the input, if any, and is empty or one of its choices, if any.
  pub resolve_params-accepts : all (λ i. accepts compile i (lookup i.name r)) inputs ≡ true
  resolve_params-accepts =
      let inv = resolve_params-inv compile inputs supplied done in
      rw (← inv.same) (accepts-all compile _ inputs inv.patterns_ok inv.choices_ok)

  -- When the parameters resolve, every required input has a value that is not empty, or declares a
  -- default and has a value.
  pub resolve_params-required : all (λ i. not i.required || is_supplied r i) inputs ≡ true
  resolve_params-required =
      let inv = resolve_params-inv compile inputs supplied done in
      rw (← inv.same)
        (fill_all-supplied (record { values = supplied; missing = [] }) inputs inv.none_missing)

  -- When the parameters resolve, every value that the caller supplied and that is not empty is
  -- passed on unchanged.
  pub resolve_params-keeps : (k : Text) → is_set supplied k ≡ true → lookup k r ≡ lookup k supplied
  resolve_params-keeps k set =
      let inv = resolve_params-inv compile inputs supplied done in
      rw (← inv.same) (fill_all-keeps (record { values = supplied; missing = [] }) inputs k set)

  -- When the parameters resolve, a parameter that no input declares is passed on unchanged.
  pub resolve_params-undeclared :
      (k : Text) → any (λ i. text_eq i.name k) inputs ≡ false → lookup k r ≡ lookup k supplied
  resolve_params-undeclared k none_of =
      let inv = resolve_params-inv compile inputs supplied done in
      rw (← inv.same) (fill_all-other (record { values = supplied; missing = [] }) inputs k none_of)

  -- A parameter that the caller supplied, be it empty, has a value.
  pub resolve_params-present :
      (k : Text) → is_present (lookup k supplied) ≡ true → is_present (lookup k r) ≡ true
  resolve_params-present k h =
      let inv = resolve_params-inv compile inputs supplied done in
      rw (← inv.same) (fill_all-present (record { values = supplied; missing = [] }) inputs k h)

  -- A declared input has a value that is not empty, or it allows an empty one.
  pub resolve_params-set :
      all (λ i. is_set r i.name || allows_empty i.required i.default) inputs ≡ true
  resolve_params-set =
      let inv = resolve_params-inv compile inputs supplied done in
      rw (← inv.same)
        (fill_all-set (record { values = supplied; missing = [] }) inputs inv.none_missing)
