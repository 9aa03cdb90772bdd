-- ===== src/Authz/Policy.antt =====
-- internal/authz/policy.go: the compiled oidc.permissions block.
pub mod Matching
pub mod Meaning
pub mod Scopes
pub mod Folders
use unified_cd.Prelude.{
  ℕ, ◌≡◌, refl, Bool, true, false, not, ◌&&◌, ◌||◌, List, [], ◌∷◌, ◌++◌, Option, none, some,
  if◌then◌else◌, is_empty, Text, str, text_eq, Table, lookup, insert,
}
use unified_cd.Authz.Catalogue.{Permission, parse, folder_scopable}
use unified_cd.Authz.Set.{Set, bundle, union, with_one, folder_part, sort_strings}
use unified_cd.Authz.Folder.{FolderError, Normalized, normalize_folder}

-- The decoded block. Keys keep file order.
pub record GrantEntry : Type 0 where
  pub key : Text
  pub grants : List Text

pub record PolicyEntry : Type 0 where
  pub groups : List GrantEntry
  pub users : List GrantEntry

pub record FolderEntry : Type 0 where
  pub key : Text
  pub entry : PolicyEntry

pub record PolicyConfig : Type 0 where
  pub global : PolicyEntry
  pub folders : List FolderEntry

pub record Legacy : Type 0 where
  pub roles_claim : Text
  pub role_map : Table Text
  pub user_map : Table Text
  pub default_role : Text

-- The compiled block.
pub record PolicyGrant : Type 0 where
  pub key : Text
  pub grant : List Text
  pub set : Set

pub record PolicyScope : Type 0 where
  pub folder : Text
  pub groups : List PolicyGrant
  pub users : List PolicyGrant

pub record Policy : Type 0 where
  pub scopes : List PolicyScope

-- The errors, with what their messages name.
pub data PolicyError : Type 0 where
  issuer_missing : PolicyError
  legacy_role : Text → Text → PolicyError
  bad_folder : Text → FolderError → PolicyError
  same_folder : Text → Text → PolicyError
  no_entries : Text → PolicyError
  empty_grant : Text → PolicyError
  unknown_name : Text → Text → PolicyError
  global_only : Text → Text → PolicyError

-- A value, or the first error of the block.
pub data Result {ℓ} (V : Type ℓ) : Type ℓ where
  err : PolicyError → Result V
  ok : V → Result V

infixl 5 ◌>>=◌
abbrev pub ◌>>=◌ {ℓ κ} : {V : Type ℓ} {W : Type κ} → Result V → (V → Result W) → Result W
err why >>= next = err why
ok v >>= next = next v

-- What a successful chain did at its first step.
pub >>=-ok {ℓ κ} :
    {V : Type ℓ} {W : Type κ} (first : Result V) (next : V → Result W) {w : W}
    → (first >>= next) ≡ ok w
    → (v : V) × (first ≡ ok v) × (next v ≡ ok w)
>>=-ok (err why) next done = cc
>>=-ok (ok v) next done = (v, refl, done)

-- A name that is no role: a permission, which on a folder has to be folder-scopable.
abbrev pub compile_parsed : Text → Text → Set → Text → Option Permission → Result Set
compile_parsed folder key set name none = err (unknown_name key name)
compile_parsed folder key set name (some perm) =
    if not (is_empty folder) && not (folder_scopable perm)
    then err (global_only key name)
    else ok (with_one set perm)

abbrev pub compile_bundle : Text → Text → Set → Text → Option Set → Result Set
compile_bundle folder key set name (some b) =
    ok (union set (if is_empty folder then b else folder_part b))
compile_bundle folder key set name none = compile_parsed folder key set name (parse name)

-- One round of the loop over the names of an entry.
unfoldable pub compile_name : Text → Text → Set → Text → Result Set
compile_name folder key set name = compile_bundle folder key set name (bundle name)

unfoldable pub compile_names : Text → Text → Set → List Text → Result Set
compile_names folder key set [] = ok set
compile_names folder key set (name ∷ rest) = do
  set' ← compile_name folder key set name
  compile_names folder key set' rest

unfoldable pub compile_entry : Text → GrantEntry → Result PolicyGrant
compile_entry folder e = if is_empty e.grants then err (empty_grant e.key) else do
  set ← compile_names folder e.key 0 e.grants
  ok (record { key = e.key; grant = e.grants; set = set })

unfoldable pub compile_grants : Text → List GrantEntry → Result (List PolicyGrant)
compile_grants folder [] = ok []
compile_grants folder (e ∷ rest) = do
  g ← compile_entry folder e
  gs ← compile_grants folder rest
  ok (g ∷ gs)

unfoldable pub compile_scope : Text → PolicyEntry → Result PolicyScope
compile_scope folder e = do
  groups ← compile_grants folder e.groups
  users ← compile_grants folder e.users
  ok (record { folder = folder; groups = groups; users = users })

-- The legacy role lines: the keys of roleMap in sorted order with a value that is no role.
abbrev pub is_reported : Text → Bool
is_reported r =
    not (is_empty r)
    && not (text_eq r (str "deny"))
    && elim (bundle r) [ none ↦ true | some b ↦ false ]

abbrev pub or_text : Option Text → Text
or_text none = []
or_text (some t) = t

unfoldable pub report_lines : Table Text → List Text → List (Text × Text)
report_lines m [] = []
report_lines m (k ∷ ks) =
    let rest = report_lines m ks in
    let r = or_text (lookup k m) in if is_reported r then (k, r) ∷ rest else rest

unfoldable pub keys {ℓ} : {V : Type ℓ} → Table V → List Text
keys [] = []
keys ((k, v) ∷ m) = k ∷ keys m

unfoldable pub legacy_role_lines : Legacy → List (Text × Text)
legacy_role_lines l = report_lines l.role_map (sort_strings (keys l.role_map))

-- What the loop over the folders does with a folder whose earlier raw key is `first`, if any.
abbrev pub compile_unseen : Text → FolderEntry → Option Text → Result PolicyScope
compile_unseen folder f (some first) = err (same_folder first f.key)
compile_unseen folder f none =
    if is_empty f.entry.groups && is_empty f.entry.users
    then err (no_entries f.key)
    else compile_scope folder f.entry

unfoldable pub compile_folder : Table Text → Text → FolderEntry → Result PolicyScope
compile_folder seen folder f = compile_unseen folder f (lookup folder seen)

abbrev pub keyed : Text → Normalized → Result Text
keyed key (Normalized.ok folder) = ok folder
keyed key (Normalized.err e) = err (bad_folder key e)

module _ (has_space : Text → Bool) where
  unfoldable pub normal_key : FolderEntry → Result Text
  normal_key f = keyed f.key (normalize_folder has_space f.key)

  -- The loop over the folders; `seen` maps a normalised folder to its first raw key.
  unfoldable pub compile_folders : Table Text → List FolderEntry → Result (List PolicyScope)
  compile_folders seen [] = ok []
  compile_folders seen (f ∷ rest) = do
    folder ← normal_key f
    scope ← compile_folder seen folder f
    scopes ← compile_folders (insert folder f.key seen) rest
    ok (scope ∷ scopes)

  -- What `Compile` does with a block, the legacy lines at hand.
  unfoldable pub compile_config : PolicyConfig → Text → List (Text × Text) → Result Policy
  compile_config cfg issuer [] = if is_empty issuer then err issuer_missing else do
    global ← compile_scope [] cfg.global
    folders ← compile_folders [] cfg.folders
    ok (record { scopes = global ∷ folders })
  compile_config cfg issuer ((k, r) ∷ lines) =
      if is_empty issuer then err issuer_missing else err (legacy_role k r)

  -- `Compile`: the policy and the warnings.
  unfoldable pub compile :
      Option PolicyConfig → Legacy → Text → Result (Policy × List (Text × Text))
  compile none legacy issuer = ok (record { scopes = [] }, legacy_role_lines legacy)
  compile (some cfg) legacy issuer = do
    p ← compile_config cfg issuer (legacy_role_lines legacy)
    ok (p, [])
