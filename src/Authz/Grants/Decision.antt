-- ===== src/Authz/Grants/Decision.antt =====
-- `Can`, `Decide`, `Explain` and `HeldAnywhere` against one description: some source grants.
use unified_cd.Prelude.{
  ◌≡◌, refl, sym, ◌∙◌, Bool, true, not, ◌&&◌, ◌||◌, List, [], ◌∷◌, arith, is_empty, any, any-append,
  any_congr, any_swap, any_or, Text, contains, text_eq_comm, any_congr_members,
}
use mathlib.Core.Path.{◌≡⟨◌⟩◌, ◌∎}
use unified_cd.Prelude.Sort.{any-sort_by}
use unified_cd.Authz.Catalogue.{Permission}
use unified_cd.Authz.Set.{has}
use unified_cd.Authz.Set.Laws.{is_empty_set-has}
use unified_cd.Authz.Folder.{covers, ancestors}
use unified_cd.Authz.Folder.Laws.{contains-ancestors}
use unified_cd.Authz.Grants.{
  Source, Grants, folder_set, can, sift, ordered, first_by, decide, held_anywhere,
}
use unified_cd.Authz.Grants.Invariant.{on_folder, on_global, on_some_folder, IsBuilt, SkipsEmpty}

-- The source grants `p` on `job`: it holds `p`, globally or on a folder above the job.
abbrev pub grants_on : Permission → Text → Source → Bool
grants_on p job s = has s.perms p && (is_empty s.folder || covers s.folder job)

pub grants_on-SkipsEmpty : (p : Permission) (job : Text) → SkipsEmpty (grants_on p job)
grants_on-SkipsEmpty p job s h = rw (is_empty_set-has s.perms p h)

any-sift :
    (p : Permission) (job : Text) (ss : List Source)
    → (any (λ s. true) (sift p job ss).0 || any (λ s. true) (sift p job ss).1)
      ≡ any (grants_on p job) ss
unfolding sift any
any-sift p job [] = refl
any-sift p job (s ∷ ss) = ground (arith, any-sift p job ss)

first_by-any : (ss : List Source) → (first_by ss).0 ≡ any (λ s. true) ss
unfolding any
first_by-any [] = refl
first_by-any (s ∷ ss) = refl

-- `Decide` answers yes exactly when some source grants.
pub decide-any :
    (g : Grants) (p : Permission) (job : Text)
    → (decide g p job).0 ≡ any (grants_on p job) g.sources
unfolding decide ordered
decide-any g p job = rw (first_by-any, any-append, any-sort_by) (any-sift p job g.sources)

-- A source on a folder is found at the ancestor that is its folder.
any-on_folder :
    (p : Permission) (s : Source) (fs : List Text)
    → any (λ f. on_folder f p s) fs ≡ (has s.perms p && contains fs s.folder)
unfolding contains any
any-on_folder p s [] = ground arith
any-on_folder p s (f ∷ fs) = ground (arith, any-on_folder p s fs, text_eq_comm s.folder f)

any-on_ancestor :
    (p : Permission) (job : Text) (s : Source)
    → any (λ f. on_folder f p s) (ancestors job)
      ≡ (has s.perms p && (not (is_empty s.folder) && covers s.folder job))
any-on_ancestor p job s = rw (any-on_folder p s (ancestors job), contains-ancestors s.folder job)

module _ {g : Grants} (built : IsBuilt g) (p : Permission) (job : Text) where
  folders-any :
      any (λ f. has (folder_set f g.folders) p) (ancestors job)
      ≡ any (λ s. has s.perms p && (not (is_empty s.folder) && covers s.folder job)) g.sources
  folders-any =
      any (λ f. has (folder_set f g.folders) p) (ancestors job)
      ≡⟨ any_congr_members _ _ (ancestors job)
          (λ f m. built.folder_built f p (ground (arith, contains-ancestors f job))) ⟩
        any (λ f. any (on_folder f p) g.sources) (ancestors job)
      ≡⟨ any_swap (λ f s. on_folder f p s) (ancestors job) g.sources ⟩
        any (λ s. any (λ f. on_folder f p s) (ancestors job)) g.sources
      ≡⟨ any_congr _ _ g.sources (any-on_ancestor p job) ⟩
        any (λ s. has s.perms p && (not (is_empty s.folder) && covers s.folder job)) g.sources ∎

  pub can-any : can g p job ≡ any (grants_on p job) g.sources
  unfolding can
  can-any =
      rw (built.global_built p, folders-any)
        (sym (any_or (on_global p) _ g.sources) ∙ any_congr _ _ g.sources (λ s. ground arith))

  -- For grants that Add built, Can answers yes for a permission on a job exactly when Decide finds
  -- a source that grants it: the precomputed global and folder sets and the list of sources agree.
  pub can-decide : can g p job ≡ (decide g p job).0
  can-decide = can-any ∙ sym (decide-any g p job)

pub held_anywhere-any :
    {g : Grants}
    → IsBuilt g
    → (p : Permission) → held_anywhere g p ≡ any (λ s. has s.perms p) g.sources
unfolding held_anywhere
held_anywhere-any {g} built p =
    rw (built.global_built p, built.some_folder_built p)
      (sym (any_or (on_global p) (on_some_folder p) g.sources)
        ∙ any_congr _ _ g.sources (λ s. ground arith))
