-- ===== src/Authz/Grants.antt =====
-- internal/authz/grants.go: what a principal holds, globally and per folder.
pub mod Invariant
pub mod Decision
pub mod Algebra
use unified_cd.Prelude.{
  ℕ, suc, ◌+◌, Bool, true, false, not, ◌&&◌, ◌||◌, List, [], ◌∷◌, ◌++◌, map, Option, none, some,
  ◌==◌, leb, if◌then◌else◌, is_empty, any, Text, str, Table, lookup, insert,
}
use unified_cd.Prelude.Sort.{sort_by}
use unified_cd.Authz.Catalogue.{Permission, job_read}
use unified_cd.Authz.Set.{Set, has, union, intersect, is_empty_set, all_set, bundle}
use unified_cd.Authz.Folder.{slash, covers, ancestors}

-- One grant with the reason it exists. The empty folder means global.
pub record Source : Type 0 where
  pub folder : Text
  pub perms : Set
  pub by : Text

pub record Grants : Type 0 where
  pub global : Set
  pub folders : Table Set
  pub sources : List Source

-- The zero value holds nothing.
unfoldable pub no_grants : Grants
no_grants = record { global = 0; folders = []; sources = [] }

abbrev pub or_empty : Option Set → Set
or_empty none = 0
or_empty (some s) = s

-- `g.folders[f]`, the empty set on a missing key.
unfoldable pub folder_set : Text → Table Set → Set
folder_set f m = or_empty (lookup f m)

unfoldable pub add : Grants → Text → Set → Text → Grants
add g folder perms by =
    let s : Source = record { folder = folder; perms = perms; by = by } in
    if is_empty_set perms
    then g
    else if is_empty folder
    then record g { global = union g.global perms; sources = g.sources ++ s ∷ [] }
    else record g {
      folders = insert folder (union (folder_set folder g.folders) perms) g.folders;
      sources = g.sources ++ s ∷ [];
    }

-- A loop that adds sources in order.
unfoldable pub add_all : Grants → List Source → Grants
add_all g [] = g
add_all g (s ∷ ss) = add_all (add g s.folder s.perms s.by) ss

-- `Grants.Union`
unfoldable pub join : Grants → Grants → Grants
join g o = add_all (add_all no_grants g.sources) o.sources

unfoldable pub can : Grants → Permission → Text → Bool
can g p job = has g.global p || any (λ f. has (folder_set f g.folders) p) (ancestors job)

-- The loop of `ordered`: the global sources and the folder sources that grant `p` on `job`.
unfoldable pub sift : Permission → Text → List Source → List Source × List Source
sift p job [] = ([], [])
sift p job (s ∷ ss) =
    let (global, folders) = sift p job ss in
    if not (has s.perms p)
    then (global, folders)
    else if is_empty s.folder
    then (s ∷ global, folders)
    else if covers s.folder job
    then (global, s ∷ folders)
    else (global, folders)

-- strings.Count(folder, "/")
unfoldable pub depth : Text → ℕ
depth [] = 0
depth (c ∷ s) = if c == slash then suc (depth s) else depth s

unfoldable pub ordered : Grants → Permission → Text → List Source
ordered g p job =
    let (global, folders) = sift p job g.sources in
    global ++ sort_by (λ a b. leb (depth a.folder) (depth b.folder)) folders

abbrev pub first_by : List Source → Bool × Text
first_by [] = (false, [])
first_by (s ∷ ss) = (true, s.by)

unfoldable pub decide : Grants → Permission → Text → Bool × Text
decide g p job = first_by (ordered g p job)

unfoldable pub explain : Grants → Permission → Text → List Text
explain g p job = map (λ s. s.by) (ordered g p job)

unfoldable pub held_anywhere : Grants → Permission → Bool
held_anywhere g p = has g.global p || any (λ e. has e.1 p) g.folders

unfoldable pub is_empty_grants : Grants → Bool
is_empty_grants g = is_empty g.sources

-- The loop of `Restrict`.
unfoldable pub restrict_all : Set → Text → Grants → List Source → Grants
restrict_all ceiling suffix out [] = out
restrict_all ceiling suffix out (s ∷ ss) =
    restrict_all ceiling suffix (add out s.folder (intersect s.perms ceiling) (s.by ++ suffix)) ss

unfoldable pub restrict : Grants → Set → Text → Grants
restrict g ceiling suffix = restrict_all ceiling suffix no_grants g.sources

abbrev pub or_bundle : Option Set → Text → Grants
or_bundle none by = no_grants
or_bundle (some set) by = add no_grants [] set by

-- The global bundle of a role; nothing for an unknown role.
unfoldable pub role_grants : Text → Text → Grants
role_grants role by = or_bundle (bundle role) by

unfoldable pub all_grants : Text → Grants
all_grants by = add no_grants [] all_set by
