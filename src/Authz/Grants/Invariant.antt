-- ===== src/Authz/Grants/Invariant.antt =====
-- Grants are kept twice, as sets for `Can` and as sources for `Decide`: the two views agree.
use unified_cd.Prelude.{
  ◌≡◌, refl, Bool, true, false, not, ◌&&◌, ◌||◌, List, [], ◌∷◌, ◌++◌, arith, if◌then◌else◌,
  Bool-cases, Option-cases, inl, inr, is_empty, any, any-append, Text, text_eq, text_eq_iff, Table,
  lookup, insert, lookup-insert,
}
use unified_cd.Authz.Catalogue.{Permission}
use unified_cd.Authz.Set.{Set, has, union, intersect, is_empty_set, bundle}
use unified_cd.Authz.Set.Laws.{has-union, has-empty}
use unified_cd.Authz.Grants.{
  Source, Grants, no_grants, folder_set, add, add_all, join, restrict_all, restrict, role_grants,
}

-- The sources of one scope that hold `p`.
abbrev pub on_folder : Text → Permission → Source → Bool
on_folder f p s = text_eq s.folder f && has s.perms p

abbrev pub on_global : Permission → Source → Bool
on_global p s = is_empty s.folder && has s.perms p

abbrev pub on_some_folder : Permission → Source → Bool
on_some_folder p s = not (is_empty s.folder) && has s.perms p

pub record IsBuilt (g : Grants) : Type 0 where
  pub global_built : (p : Permission) → has g.global p ≡ any (on_global p) g.sources
  pub folder_built :
      (f : Text) (p : Permission)
      → is_empty f ≡ false
      → has (folder_set f g.folders) p ≡ any (on_folder f p) g.sources
  pub some_folder_built :
      (p : Permission) → any (λ e. has e.1 p) g.folders ≡ any (on_some_folder p) g.sources

pub no_grants-IsBuilt : IsBuilt no_grants
unfolding no_grants any folder_set lookup
no_grants-IsBuilt = record {
  global_built = λ p. has-empty p;
  folder_built = λ f p n. has-empty p;
  some_folder_built = λ p. refl;
}

folder_set-insert :
    (k f : Text) (s : Set) (m : Table Set)
    → folder_set f (insert k s m) ≡ (if text_eq k f then s else folder_set f m)
unfolding folder_set
folder_set-insert k f s m =
    rw (lookup-insert k f s m) (elim (Bool-cases (text_eq k f)) [ inl e ↦ rw e | inr e ↦ rw e ])

-- Writing the united set of a folder adds what the new set holds, and nothing else.
any-insert-union :
    (k : Text) (perms : Set) (p : Permission) (m : Table Set)
    → any (λ e. has e.1 p) (insert k (union (folder_set k m) perms) m)
      ≡ (any (λ e. has e.1 p) m || has perms p)
unfolding any insert folder_set lookup
any-insert-union k perms p [] = ground (arith, has-union 0 perms p, has-empty p)
any-insert-union k perms p ((j, w) ∷ m) =
    ground (arith, has-union w perms p, any-insert-union k perms p m)

or_false_and : (b c : Bool) → b ≡ (b || false && c)
or_false_and true c = refl
or_false_and false c = refl

has-after_union :
    (folder f : Text) (m : Table Set) (perms : Set) (p : Permission)
    → has (if text_eq folder f then union (folder_set folder m) perms else folder_set f m) p
      ≡ (has (folder_set f m) p || text_eq folder f && has perms p)
has-after_union folder f m perms p = elim (Bool-cases (text_eq folder f)) [
  | inl same ↦ rw (same, has-union (folder_set folder m) perms p, (text_eq_iff folder f).0 same)
  | inr apart ↦ rw apart (or_false_and (has (folder_set f m) p) (has perms p))
]

root_ne : (folder f : Text) → is_empty f ≡ false → is_empty folder ≡ true → text_eq folder f ≡ false
root_ne folder f n root = ground (arith, text_eq_iff folder f)

module _ (g : Grants) (folder : Text) (perms : Set) (by : Text) where
  abbrev new_source : Source
  new_source = record { folder = folder; perms = perms; by = by }

  any-last :
      (test : Source → Bool)
      → any test (g.sources ++ new_source ∷ []) ≡ (any test g.sources || test new_source)
  unfolding any
  any-last test = rw (any-append test g.sources (new_source ∷ [])) (ground arith)

  -- What `Add` does to the sources, seen through a test that an empty set fails.
  pub any-add :
      (test : Source → Bool)
      → (is_empty_set perms ≡ true → test new_source ≡ false)
      → any test (add g folder perms by).sources ≡ (any test g.sources || test new_source)
  unfolding add
  any-add test h = ground (arith, any-last test)

  -- `Add` keeps the two views of the grants in step.
  pub add-IsBuilt : IsBuilt g → IsBuilt (add g folder perms by)
  unfolding add
  add-IsBuilt built = elim (Bool-cases (is_empty_set perms)) [
    | inl e ↦ rw e built
    | inr e ↦ rw e (elim (Bool-cases (is_empty folder)) [
      | inl root ↦ rw root (record {
        global_built = λ p.
            rw (any-last (on_global p), has-union g.global perms p, root)
              (ground (arith, built.global_built p));
        folder_built = λ f p n.
            rw (any-last (on_folder f p), root_ne folder f n root)
              (ground (arith, built.folder_built f p n));
        some_folder_built =
            λ p. rw (any-last (on_some_folder p), root) (ground (arith, built.some_folder_built p));
      })
      | inr sub ↦ rw sub (record {
        global_built = λ p. rw (any-last (on_global p), sub) (ground (arith, built.global_built p));
        folder_built = λ f p n.
            rw
              (
                any-last (on_folder f p),
                folder_set-insert folder f (union (folder_set folder g.folders) perms) g.folders,
                has-after_union folder f g.folders perms p,
              )
              (rw (built.folder_built f p n));
        some_folder_built = λ p.
            rw (any-last (on_some_folder p), any-insert-union folder perms p g.folders, sub)
              (ground (arith, built.some_folder_built p));
      })
    ])
  ]

pub add_all-IsBuilt : (g : Grants) (ss : List Source) → IsBuilt g → IsBuilt (add_all g ss)
unfolding add_all
add_all-IsBuilt g [] built = built
add_all-IsBuilt g (s ∷ ss) built =
    add_all-IsBuilt (add g s.folder s.perms s.by) ss (add-IsBuilt g s.folder s.perms s.by built)

-- `Union` of any two grants is built, whatever the inputs are.
pub join-IsBuilt : (g o : Grants) → IsBuilt (join g o)
unfolding join
join-IsBuilt g o =
    add_all-IsBuilt (add_all no_grants g.sources) o.sources
      (add_all-IsBuilt no_grants g.sources no_grants-IsBuilt)

restrict_all-IsBuilt :
    (c : Set) (suffix : Text) (out : Grants) (ss : List Source)
    → IsBuilt out
    → IsBuilt (restrict_all c suffix out ss)
unfolding restrict_all
restrict_all-IsBuilt c suffix out [] built = built
restrict_all-IsBuilt c suffix out (s ∷ ss) built =
    restrict_all-IsBuilt c suffix (add out s.folder (intersect s.perms c) (s.by ++ suffix)) ss
      (add-IsBuilt out s.folder (intersect s.perms c) (s.by ++ suffix) built)

pub restrict-IsBuilt : (g : Grants) (c : Set) (suffix : Text) → IsBuilt (restrict g c suffix)
unfolding restrict
restrict-IsBuilt g c suffix = restrict_all-IsBuilt c suffix no_grants g.sources no_grants-IsBuilt

pub role_grants-IsBuilt : (role by : Text) → IsBuilt (role_grants role by)
unfolding role_grants
role_grants-IsBuilt role by = elim (Option-cases (bundle role)) [
  | inl e ↦ rw e no_grants-IsBuilt
  | inr (set, e) ↦ rw e (add-IsBuilt no_grants [] set by no_grants-IsBuilt)
]

-- A test of one source that an empty set never passes.
abbrev pub SkipsEmpty : (Source → Bool) → Type 0
SkipsEmpty test = (s : Source) → is_empty_set s.perms ≡ true → test s ≡ false

pub any-add_all :
    (test : Source → Bool) (g : Grants) (ss : List Source)
    → SkipsEmpty test
    → any test (add_all g ss).sources ≡ (any test g.sources || any test ss)
unfolding add_all any
any-add_all test g [] skips = ground arith
any-add_all test g (s ∷ ss) skips = ground (
  arith,
  any-add_all test (add g s.folder s.perms s.by) ss skips,
  any-add g s.folder s.perms s.by test (skips s),
)

pub any-join :
    (test : Source → Bool) (g o : Grants)
    → SkipsEmpty test
    → any test (join g o).sources ≡ (any test g.sources || any test o.sources)
unfolding join
any-join test g o skips =
    rw (any-add_all test (add_all no_grants g.sources) o.sources skips)
      (rw (any-add_all test no_grants g.sources skips) (unfold no_grants any in refl))
