-- ===== src/Authz/Policy/Folders.antt =====
-- What a compiled policy is made of: a global scope, then one scope for each folder, none twice.
use unified_cd.Prelude.{
  ◌≡◌, refl, sym, ap, Bool, true, false, ◌&&◌, List, [], ◌∷◌, Option, none, some, arith,
  if◌then◌else◌, Bool-cases, inl, inr, is_empty, any, All, any_congr_All, All-imp, Text, text_eq,
  Table, lookup, insert, lookup-insert,
}
use unified_cd.Authz.Catalogue.{Permission, folder_scopable}
use unified_cd.Authz.Folder.{Normalized, normalize_folder}
use unified_cd.Authz.Folder.Laws.{normalize_folder-not-root}
use unified_cd.Authz.Grants.{can}
use unified_cd.Authz.Policy.{
  PolicyEntry, FolderEntry, PolicyGrant, PolicyScope, Policy, PolicyConfig, Legacy, ok, err, >>=-ok,
  compile_grants, compile_scope, keyed, normal_key, compile_unseen, compile_folder, compile_folders,
  compile_config, compile, legacy_role_lines,
}
use unified_cd.Authz.Policy.Scopes.{ok_inj, IsFolderSet, compile_grants-IsFolderSet}
use unified_cd.Authz.Policy.Matching.{Identity, match, group_matches, user_matches}
use unified_cd.Authz.Policy.Meaning.{entry_grants, scope_grants, can-match}

-- A scope on a folder: not the root, and with folder-scopable permissions only.
pub record IsFolderScope (s : PolicyScope) : Type 0 where
  pub not_root : is_empty s.folder ≡ false
  pub groups_scopable : All (λ g. IsFolderSet g.set) s.groups
  pub users_scopable : All (λ g. IsFolderSet g.set) s.users

compile_scope-folder :
    (folder : Text) (e : PolicyEntry) {s : PolicyScope}
    → compile_scope folder e ≡ ok s
    → s.folder ≡ folder
unfolding compile_scope
compile_scope-folder folder e h =
    let (groups, hg, more) = >>=-ok (compile_grants folder e.groups) _ h in
    let (users, hu, done) = >>=-ok (compile_grants folder e.users) _ more in rw (← ok_inj done)

compile_scope-IsFolderScope :
    (folder : Text) (e : PolicyEntry) {s : PolicyScope}
    → is_empty folder ≡ false
    → compile_scope folder e ≡ ok s
    → IsFolderScope s
unfolding compile_scope
compile_scope-IsFolderScope folder e sub h =
    let (groups, hg, more) = >>=-ok (compile_grants folder e.groups) _ h in
    let (users, hu, done) = >>=-ok (compile_grants folder e.users) _ more in
    rw (← ok_inj done) (record {
      not_root = sub;
      groups_scopable = compile_grants-IsFolderSet folder e.groups sub hg;
      users_scopable = compile_grants-IsFolderSet folder e.users sub hu;
    })

keyed-ok :
    (key : Text) (n : Normalized) {folder : Text}
    → keyed key n ≡ ok folder
    → n ≡ Normalized.ok folder
keyed-ok key (Normalized.ok f) h = cc
keyed-ok key (Normalized.err e) h = cc

-- A folder that compiles was not seen before, and gives its own scope.
compile_unseen-new :
    (folder : Text) (f : FolderEntry) {s : PolicyScope} (o : Option Text)
    → compile_unseen folder f o ≡ ok s
    → (o ≡ none) × (compile_scope folder f.entry ≡ ok s)
compile_unseen-new folder f (some first) h = cc
compile_unseen-new folder f {s} none h =
    elim (Bool-cases (is_empty f.entry.groups && is_empty f.entry.users)) [
      | inl bare ↦ let no_way : err _ ≡ ok s = rw bare at h in cc
      | inr full ↦ (refl, rw full at h)
    ]

-- No two scopes of the list are on one folder, and none is on a folder of `seen`.
abbrev pub IsFresh : Table Text → List PolicyScope → Type 0
IsFresh seen [] = Unit
IsFresh seen (s ∷ ss) =
    (lookup s.folder seen ≡ none)
    × All (λ t. text_eq s.folder t.folder ≡ false) ss
    × IsFresh seen ss

if_some-none :
    {A : Type 0} (b : Bool) (a : A) {o : Option A}
    → (if b then some a else o) ≡ none
    → (b ≡ false) × (o ≡ none)
if_some-none true a h = cc
if_some-none false a h = (refl, h)

IsFresh-tail :
    (folder key : Text) (seen : Table Text) (ss : List PolicyScope)
    → IsFresh (insert folder key seen) ss
    → All (λ t. text_eq folder t.folder ≡ false) ss × IsFresh seen ss
IsFresh-tail folder key seen [] h = (tt, tt)
IsFresh-tail folder key seen (t ∷ ts) h =
    let apart =
      if_some-none (text_eq folder t.folder) key
        (rw (lookup-insert folder t.folder key seen) at h.0) in
    let later = IsFresh-tail folder key seen ts h.2 in ((apart.0, later.0), (apart.1, h.1, later.1))

module _ (has_space : Text → Bool) where
  compile_folders_sound :
      (seen : Table Text) (fs : List FolderEntry) {ss : List PolicyScope}
      → compile_folders has_space seen fs ≡ ok ss
      → All IsFolderScope ss × IsFresh seen ss
  unfolding compile_folders normal_key compile_folder
  compile_folders_sound seen [] h = rw (← ok_inj h) (tt, tt)
  compile_folders_sound seen (f ∷ fs) h =
      let (folder, keyed_as, h1) = >>=-ok (keyed f.key (normalize_folder has_space f.key)) _ h in
      let (s, made, h2) = >>=-ok (compile_unseen folder f (lookup folder seen)) _ h1 in
      let (ss, rest, done) =
        >>=-ok (compile_folders has_space (insert folder f.key seen) fs) _ h2 in
      let sub = normalize_folder-not-root has_space f.key (keyed-ok f.key _ keyed_as) in
      let (unseen, scoped) = compile_unseen-new folder f (lookup folder seen) made in
      let (later, fresh) = compile_folders_sound (insert folder f.key seen) fs rest in
      let (apart, fresh') = IsFresh-tail folder f.key seen ss fresh in
      let same = compile_scope-folder folder f.entry scoped in
      rw (← ok_inj done, same)
        ((compile_scope-IsFolderScope folder f.entry sub scoped, later), (unseen, apart, fresh'))

  compile_config-shape :
      (cfg : PolicyConfig) (issuer : Text) (lines : List (Text × Text)) {pol : Policy}
      → compile_config has_space cfg issuer lines ≡ ok pol
      → (global : PolicyScope) × (folders : List PolicyScope) × (pol.scopes ≡ global ∷ folders)
        × (global.folder ≡ [])
        × All IsFolderScope folders
        × IsFresh [] folders
  unfolding compile_config
  compile_config-shape cfg issuer [] {pol} h = elim (Bool-cases (is_empty issuer)) [
    | inl bare ↦ let no_way : err _ ≡ ok pol = rw bare at h in cc
    | inr given ↦
        let (global, hg, h1) = >>=-ok (compile_scope [] cfg.global) _ (rw given at h) in
        let (folders, hf, done) = >>=-ok (compile_folders has_space [] cfg.folders) _ h1 in
        let (all_folders, fresh) = compile_folders_sound [] cfg.folders hf in
        (
          global,
          folders,
          sym (ap (λ p. p.scopes) (ok_inj done)),
          compile_scope-folder [] cfg.global hg,
          all_folders,
          fresh,
        )
  ]
  compile_config-shape cfg issuer ((k, r) ∷ lines) {pol} h = elim (Bool-cases (is_empty issuer)) [
    | inl bare ↦ let no_way : err _ ≡ ok pol = rw bare at h in cc
    | inr given ↦ let no_way : err _ ≡ ok pol = rw given at h in cc
  ]

  -- A policy that compiled from a block is the global scope followed by folder scopes, which are
  -- not on the root, hold folder-scopable permissions only, and are on pairwise different folders.
  pub compile-shape :
      (cfg : PolicyConfig) (legacy : Legacy) (issuer : Text) {pol : Policy}
      {warnings : List (Text × Text)}
      → compile has_space (some cfg) legacy issuer ≡ ok (pol, warnings)
      → (global : PolicyScope) × (folders : List PolicyScope) × (pol.scopes ≡ global ∷ folders)
        × (global.folder ≡ [])
        × All IsFolderScope folders
        × IsFresh [] folders
  unfolding compile
  compile-shape cfg legacy issuer h =
      let (p, made, done) =
        >>=-ok (compile_config has_space cfg issuer (legacy_role_lines legacy)) _ h in
      rw (ap (λ t. t.0) (ok_inj done)) at
        (compile_config-shape cfg issuer (legacy_role_lines legacy) made)

-- A permission that no folder may carry is granted by no entry of a folder scope.
not_granted :
    (matches : PolicyGrant → Bool) (p : Permission) (gs : List PolicyGrant)
    → folder_scopable p ≡ false
    → All (λ g. IsFolderSet g.set) gs
    → any (entry_grants matches p) gs ≡ false
unfolding any
not_granted matches p [] n h = refl
not_granted matches p (g ∷ gs) n h = ground (arith, not_granted matches p gs n h.1, h.0 p)

scope_grants-folder :
    (id : Identity) (p : Permission) (job : Text) (s : PolicyScope)
    → folder_scopable p ≡ false
    → IsFolderScope s
    → scope_grants id p job s ≡ scope_grants id p [] s
scope_grants-folder id p job s n scoped =
    rw
      (
        not_granted (group_matches id) p s.groups n scoped.groups_scopable,
        not_granted (user_matches id) p s.users n scoped.users_scopable,
      )
      (ground arith)

-- Under a policy that compiled, what Match gives an identity answers the same for a permission
-- that is not folder-scopable on every job: no folder entry grants it.
pub global_only_everywhere :
    (has_space : Text → Bool) (quote : Text → Text) (cfg : PolicyConfig) (legacy : Legacy)
    (issuer : Text) {pol : Policy} {warnings : List (Text × Text)} (id : Identity) (p : Permission)
    (job : Text)
    → compile has_space (some cfg) legacy issuer ≡ ok (pol, warnings)
    → folder_scopable p ≡ false
    → can (match quote (some pol) id).0 p job ≡ can (match quote (some pol) id).0 p []
global_only_everywhere has_space quote cfg legacy issuer {pol} id p job h n =
    let (global, folders, shape, root, scoped, _) = compile-shape has_space cfg legacy issuer h in
    rw (can-match quote (some pol) id p job, can-match quote (some pol) id p [], shape)
      (any_congr_All (scope_grants id p job) (scope_grants id p []) (global ∷ folders)
        (rw root, All-imp IsFolderScope _ folders (λ s. scope_grants-folder id p job s n) scoped))
