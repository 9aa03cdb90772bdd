-- ===== src/Authz/Grants/Algebra.antt =====
-- Union, restriction, inheritance and the pre-check, in terms of `Can`.
use unified_cd.Prelude.{
  ◌≡◌, refl, sym, ◌∙◌, true, false, ◌&&◌, ◌||◌, Option, none, some, List, [], ◌∷◌, ◌++◌, arith, any,
  Text, any_imp, has_prefix-extend,
}
use unified_cd.Authz.Catalogue.{Permission}
use unified_cd.Authz.Set.{Set, has, intersect, bundle}
use unified_cd.Authz.Set.Laws.{has-intersect, has-empty}
use unified_cd.Authz.Folder.{slash, covers}
use unified_cd.Authz.Grants.{
  Source, Grants, can, held_anywhere, join, restrict_all, restrict, add, no_grants, or_empty,
  or_bundle, role_grants,
}
use unified_cd.Authz.Grants.Invariant.{
  IsBuilt, no_grants-IsBuilt, add-IsBuilt, any-join, any-add, join-IsBuilt, restrict-IsBuilt,
}
use unified_cd.Authz.Grants.Decision.{grants_on, grants_on-SkipsEmpty, can-any, held_anywhere-any}

-- The union of two grants that Add built grants a permission on a job exactly when one of the two
-- grants it.
pub can-join :
    {g o : Grants}
    → IsBuilt g
    → IsBuilt o
    → (p : Permission) (job : Text) → can (join g o) p job ≡ (can g p job || can o p job)
can-join {g} {o} bg bo p job =
    rw (can-any (join-IsBuilt g o) p job, can-any bg p job, can-any bo p job)
      (any-join (grants_on p job) g o (grants_on-SkipsEmpty p job))

any-restrict_all :
    (c : Set) (suffix : Text) (p : Permission) (job : Text) (out : Grants) (ss : List Source)
    → any (grants_on p job) (restrict_all c suffix out ss).sources
      ≡ (any (grants_on p job) out.sources || has c p && any (grants_on p job) ss)
unfolding restrict_all any
any-restrict_all c suffix p job out [] = ground arith
any-restrict_all c suffix p job out (s ∷ ss) = ground (
  arith,
  any-restrict_all c suffix p job (add out s.folder (intersect s.perms c) (s.by ++ suffix)) ss,
  any-add out s.folder (intersect s.perms c) (s.by ++ suffix) (grants_on p job)
      (grants_on-SkipsEmpty p job _),
  has-intersect s.perms c p,
)

any-restrict :
    (g : Grants) (c : Set) (suffix : Text) (p : Permission) (job : Text)
    → any (grants_on p job) (restrict g c suffix).sources
      ≡ (any (grants_on p job) g.sources && has c p)
unfolding restrict no_grants
any-restrict g c suffix p job =
    rw (any-restrict_all c suffix p job no_grants g.sources) (unfold any in ground arith)

-- Grants that Add built, restricted to a ceiling, grant a permission on a job exactly when they
-- granted it and the ceiling holds it.
pub can-restrict :
    {g : Grants}
    → IsBuilt g
    → (ceiling : Set) (suffix : Text) (p : Permission) (job : Text)
    → can (restrict g ceiling suffix) p job ≡ (can g p job && has ceiling p)
can-restrict {g} built c suffix p job =
    rw (can-any (restrict-IsBuilt g c suffix) p job, can-any built p job)
      (any-restrict g c suffix p job)

-- What a folder covers, it covers further down.
covers-below : (f job sub : Text) → covers f job ≡ true → covers f (job ++ slash ∷ sub) ≡ true
unfolding covers
covers-below f job sub h = has_prefix-extend job (f ++ slash ∷ []) (slash ∷ sub) h

-- What grants that Add built grant on a job, they grant on every job below it.
pub can-below :
    {g : Grants}
    → IsBuilt g
    → (p : Permission) (job sub : Text) → can g p job ≡ true
    → can g p (job ++ slash ∷ sub) ≡ true
can-below {g} built p job sub h = rw (can-any built p (job ++ slash ∷ sub)) (
    any_imp (grants_on p job) (grants_on p (job ++ slash ∷ sub)) g.sources
      (λ s m. ground (arith, m, covers-below s.folder job sub)) (rw (can-any built p job) at h))

-- A permission that grants built by Add grant on some job passes the pre-check HeldAnywhere.
pub can-held_anywhere :
    {g : Grants}
    → IsBuilt g
    → (p : Permission) (job : Text) → can g p job ≡ true
    → held_anywhere g p ≡ true
can-held_anywhere {g} built p job h = rw (held_anywhere-any built p) (
    any_imp (grants_on p job) (λ s. has s.perms p) g.sources (λ s m. ground (arith, m))
      (rw (can-any built p job) at h))

pub can-no_grants : (p : Permission) (job : Text) → can no_grants p job ≡ false
can-no_grants p job = rw (can-any no_grants-IsBuilt p job) (unfold no_grants any in refl)

-- A global set grants what it holds on every job.
pub can-add_global :
    (set : Set) (by : Text) (p : Permission) (job : Text)
    → can (add no_grants [] set by) p job ≡ has set p
can-add_global set by p job =
    rw
      (
        can-any (add-IsBuilt no_grants [] set by no_grants-IsBuilt) p job,
        any-add no_grants [] set by (grants_on p job)
            (grants_on-SkipsEmpty p job (record { folder = []; perms = set; by = by })),
      )
      (unfold no_grants any in ground arith)

can-or_bundle :
    (o : Option Set) (by : Text) (p : Permission) (job : Text)
    → can (or_bundle o by) p job ≡ has (or_empty o) p
can-or_bundle none by p job = can-no_grants p job ∙ sym (has-empty p)
can-or_bundle (some set) by p job = can-add_global set by p job

pub can-role_grants :
    (role by : Text) (p : Permission) (job : Text)
    → can (role_grants role by) p job ≡ has (or_empty (bundle role)) p
unfolding role_grants
can-role_grants role by p job = can-or_bundle (bundle role) by p job
