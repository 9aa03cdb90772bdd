-- ===== src/Authz/Policy/Scopes.antt =====
-- What the compiled set of an entry holds: what its names say, and on a folder no global-only permission.
use unified_cd.Prelude.{
  ◌≡◌, refl, sym, ap, ◌∙◌, Bool, true, false, not, ◌&&◌, ◌||◌, List, [], ◌∷◌, Option, none, some,
  arith, Bool-cases, inl, inr, is_empty, any, All, Text, text_eq, text_eq_iff,
}
use unified_cd.Authz.Catalogue.{Permission, parse, parse-same, is_known, folder_scopable}
use unified_cd.Authz.Set.{Set, has, bundle, with_one}
use unified_cd.Authz.Set.Laws.{has-union, has-folder_part, has-with_one, has-empty}
use unified_cd.Authz.Policy.{
  GrantEntry, PolicyGrant, ok, err, >>=-ok, compile_parsed, compile_bundle, compile_name,
  compile_names, compile_entry, compile_grants,
}

-- What one name stands for on a scope: a role's permissions (on a folder, the folder-scopable
-- ones), or the permission of that name.
abbrev pub bundle_grants : Text → Permission → Text → Option Set → Bool
bundle_grants folder p name (some b) = has b p && (is_empty folder || folder_scopable p)
bundle_grants folder p name none = is_known p && text_eq name p

abbrev pub name_grants : Text → Permission → Text → Bool
name_grants folder p name = bundle_grants folder p name (bundle name)

and_true : (a b : Bool) → (a || b) ≡ (a || b && true)
and_true true b = refl
and_true false true = refl
and_true false false = refl

pub ok_inj {ℓ} : {A : Type ℓ} {a b : A} → ok a ≡ ok b → a ≡ b
ok_inj h = cc

module _ (folder key : Text) (set : Set) (name : Text) {set' : Set} (p : Permission) where
  compile_parsed-has :
      (o : Option Permission)
      → parse name ≡ o
      → compile_parsed folder key set name o ≡ ok set'
      → has set' p ≡ (has set p || is_known p && text_eq name p)
  compile_parsed-has none e h = cc
  compile_parsed-has (some perm) e h =
      elim (Bool-cases (not (is_empty folder) && not (folder_scopable perm))) [
        | inl bad ↦ let no_way : err _ ≡ ok set' = rw bad at h in cc
        | inr fine ↦
            let same : ok (with_one set perm) ≡ ok set' = rw fine at h in
            rw (← ok_inj same, has-with_one set perm p, parse-same name e)
      ]

  compile_bundle-has :
      (o : Option Set)
      → compile_bundle folder key set name o ≡ ok set'
      → has set' p ≡ (has set p || bundle_grants folder p name o)
  compile_bundle-has none h = compile_parsed-has (parse name) refl h
  compile_bundle-has (some b) h =
      rw (← ok_inj h, has-union set _ p)
        (elim (Bool-cases (is_empty folder)) [
          | inl root ↦ rw root (and_true (has set p) (has b p))
          | inr sub ↦ rw (sub, has-folder_part b p)
        ])

  compile_name-has :
      compile_name folder key set name ≡ ok set'
      → has set' p ≡ (has set p || name_grants folder p name)
  unfolding compile_name
  compile_name-has h = compile_bundle-has (bundle name) h

compile_names-has :
    (folder key : Text) (set : Set) (names : List Text) {set' : Set} (p : Permission)
    → compile_names folder key set names ≡ ok set'
    → has set' p ≡ (has set p || any (name_grants folder p) names)
unfolding compile_names any
compile_names-has folder key set [] p h = rw (sym (ok_inj h)) (ground arith)
compile_names-has folder key set (name ∷ rest) p h =
    let (mid, one, more) = >>=-ok (compile_name folder key set name) _ h in
    ground (
      arith,
      compile_name-has folder key set name p one,
      compile_names-has folder key mid rest p more,
    )

-- An entry that compiles keeps its key, and holds a permission exactly when one of its names
-- stands for it: a role by its bundle, on a folder cut to the folder-scopable part, or the
-- permission itself.
pub compile_entry-has :
    (folder : Text) (e : GrantEntry) {g : PolicyGrant} (p : Permission)
    → compile_entry folder e ≡ ok g
    → (g.key ≡ e.key) × (has g.set p ≡ any (name_grants folder p) e.grants)
unfolding compile_entry
compile_entry-has folder e {g} p h = elim (Bool-cases (is_empty e.grants)) [
  | inl none_given ↦ let no_way : err _ ≡ ok g = rw none_given at h in cc
  | inr given ↦
      let (set, made, done) = >>=-ok (compile_names folder e.key 0 e.grants) _ (rw given at h) in
      rw (← ok_inj done) (
        refl,
        compile_names-has folder e.key 0 e.grants p made
            ∙ ap (λ b. b || any (name_grants folder p) e.grants) (has-empty p),
      )
]

-- Every permission of the set may be granted on a folder.
abbrev pub IsFolderSet : Set → Type 0
IsFolderSet set = (p : Permission) → has set p ≡ true → folder_scopable p ≡ true

nothing-IsFolderSet : IsFolderSet 0
nothing-IsFolderSet p held = let no_way : false ≡ true = rw (has-empty p) at held in cc

module _ (folder key : Text) (sub : is_empty folder ≡ false) where
  compile_parsed-scopable :
      (set : Set) (name : Text) {set' : Set} (o : Option Permission)
      → parse name ≡ o
      → compile_parsed folder key set name o ≡ ok set'
      → folder_scopable name ≡ true
  compile_parsed-scopable set name none e h = cc
  compile_parsed-scopable set name {set'} (some perm) e h =
      elim (Bool-cases (folder_scopable perm)) [
        | inl fine ↦ rw (parse-same name e) at fine
        | inr bad ↦ let no_way : err _ ≡ ok set' = rw (sub, bad) at h in cc
      ]

  compile_bundle-IsFolderSet :
      (set : Set) (name : Text) {set' : Set} (o : Option Set)
      → IsFolderSet set
      → compile_bundle folder key set name o ≡ ok set'
      → IsFolderSet set'
  compile_bundle-IsFolderSet set name none old h p held = ground (
    arith,
    old p,
    compile_parsed-has folder key set name p (parse name) refl h,
    compile_parsed-scopable set name (parse name) refl h,
    text_eq_iff name p,
  )
  compile_bundle-IsFolderSet set name (some b) old h p held =
      ground (arith, old p, compile_bundle-has folder key set name p (some b) h, sub)

  compile_names-IsFolderSet :
      (set : Set) (names : List Text) {set' : Set}
      → IsFolderSet set
      → compile_names folder key set names ≡ ok set'
      → IsFolderSet set'
  unfolding compile_names compile_name
  compile_names-IsFolderSet set [] old h = rw (ok_inj h) at old
  compile_names-IsFolderSet set (name ∷ rest) old h =
      let (mid, one, more) = >>=-ok (compile_name folder key set name) _ h in
      compile_names-IsFolderSet mid rest (compile_bundle-IsFolderSet set name (bundle name) old one)
        more

pub compile_entry-IsFolderSet :
    (folder : Text) (e : GrantEntry) {g : PolicyGrant}
    → is_empty folder ≡ false
    → compile_entry folder e ≡ ok g
    → IsFolderSet g.set
unfolding compile_entry
compile_entry-IsFolderSet folder e {g} sub h = elim (Bool-cases (is_empty e.grants)) [
  | inl none_given ↦ let no_way : err _ ≡ ok g = rw none_given at h in cc
  | inr given ↦
      let (set, made, done) = >>=-ok (compile_names folder e.key 0 e.grants) _ (rw given at h) in
      rw (← ok_inj done)
        (compile_names-IsFolderSet folder e.key sub 0 e.grants nothing-IsFolderSet made)
]

pub compile_grants-IsFolderSet :
    (folder : Text) (es : List GrantEntry) {gs : List PolicyGrant}
    → is_empty folder ≡ false
    → compile_grants folder es ≡ ok gs
    → All (λ g. IsFolderSet g.set) gs
unfolding compile_grants
compile_grants-IsFolderSet folder [] sub h = rw (← ok_inj h) tt
compile_grants-IsFolderSet folder (e ∷ es) sub h =
    let (g, one, more) = >>=-ok (compile_entry folder e) _ h in
    let (gs, rest, done) = >>=-ok (compile_grants folder es) _ more in
    rw (← ok_inj done)
      (compile_entry-IsFolderSet folder e sub one, compile_grants-IsFolderSet folder es sub rest)
