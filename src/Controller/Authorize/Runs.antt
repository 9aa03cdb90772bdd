-- ===== src/Controller/Authorize/Runs.antt =====
-- The decision on a job, on the job of a run and on the target of a schedule.
use unified_cd.Prelude.{
  ◌≡◌, refl, Bool, true, false, not, ◌&&◌, ◌||◌, [], ◌∷◌, Option, none, some, arith, if◌then◌else◌,
  Bool-cases, inl, inr, is_empty, any_imp, Text, has_prefix, str,
}
use unified_cd.Authz.Catalogue.{Permission, job_read}
use unified_cd.Authz.Folder.{covers}
use unified_cd.Authz.Grants.{Grants, can, decide}
use unified_cd.Authz.Grants.Invariant.{IsBuilt}
use unified_cd.Authz.Grants.Decision.{grants_on, can-any, can-decide}
use unified_cd.Controller.Routes.Rules.{RouteRule}
use unified_cd.Controller.Authorize.{
  Answer, Outcome, pass, answer, deny, Request, Store, run_of, no_run, schedule_of, hide_with,
  hidden_or_told, require_job_of, is_held_everywhere, authorize_run, authorize_schedule,
}

-- Whether the handler runs.
abbrev pub passes : Outcome → Bool
passes (pass d) = true
passes (answer a d) = false

-- What the caller sees of a request that the check answers.
abbrev pub answer_of : Outcome → Option Answer
answer_of (pass d) = none
answer_of (answer a d) = some a

covers-root :
    (f job : Text) → (is_empty f || covers f []) ≡ true → (is_empty f || covers f job) ≡ true
unfolding covers has_prefix
covers-root [] job h = refl
covers-root (c ∷ f) job h = cc

passes-hidden :
    (perm : Permission) (job : Text) (hide : Option Answer)
    → passes (hidden_or_told perm job hide) ≡ false
unfolding deny hide_with
passes-hidden perm job none = refl
passes-hidden perm job (some hidden) = refl

pub passes-if :
    (b : Bool) (o u : Outcome) → passes (if b then o else u) ≡ (if b then passes o else passes u)
passes-if true o u = refl
passes-if false o u = refl

if_not : (a b : Bool) → (if not a then false else (if not b then false else true)) ≡ (a && b)
if_not true true = refl
if_not true false = refl
if_not false b = refl

module _ {g : Grants} (built : IsBuilt g) where
  -- What is granted globally is granted on every job.
  pub can-root : (p : Permission) (job : Text) → can g p [] ≡ true → can g p job ≡ true
  can-root p job h = rw (can-any built p job) (
      any_imp (grants_on p []) (grants_on p job) g.sources
        (λ s m. ground (arith, m, covers-root s.folder job)) (rw (can-any built p []) at h))

  -- A request on a job passes exactly when the caller may read the job and holds the permission on it.
  pub require_job_of-passes :
      (perm : Permission) (job : Text) (hide : Option Answer)
      → passes (require_job_of g perm job hide) ≡ (can g job_read job && can g perm job)
  unfolding require_job_of
  require_job_of-passes perm job hide =
      rw
        (
          passes-if (not (decide g job_read job).0),
          passes-hidden perm job hide,
          passes-if (not (decide g perm job).0),
          can-decide built job_read job,
          can-decide built perm job,
        )
        (unfold deny in if_not (decide g job_read job).0 (decide g perm job).0)

  everywhere-can :
      (perm : Permission) (job : Text)
      → is_held_everywhere g perm ≡ true
      → (can g job_read job && can g perm job) ≡ true
  unfolding is_held_everywhere
  everywhere-can perm job h = ground (arith, h, can-root perm job, can-root job_read job)

  -- The run's job is known: the answer is the one for that job, also where the lookup is skipped.
  pub authorize_run-passes :
      (st : Store) (r : Request) (rule : RouteRule) (job : Text)
      → st.run_job_name (r.url_param rule.run_param) ≡ run_of job
      → passes (authorize_run st r g rule) ≡ (can g job_read job && can g rule.perm job)
  unfolding authorize_run
  authorize_run-passes st r rule job found = elim (Bool-cases (is_held_everywhere g rule.perm)) [
    | inl fast ↦ rw fast (rw (everywhere-can rule.perm job fast))
    | inr slow ↦ rw (slow, found) (require_job_of-passes rule.perm job _)
  ]

  unreadable-slow :
      (perm : Permission) (job : Text)
      → can g job_read job ≡ false
      → is_held_everywhere g perm ≡ false
  unfolding is_held_everywhere
  unreadable-slow perm job h = ground (arith, h, can-root job_read job)

  require_job_of-hides :
      (perm : Permission) (job : Text) (hidden : Answer)
      → can g job_read job ≡ false
      → answer_of (require_job_of g perm job (some hidden)) ≡ some hidden
  unfolding require_job_of hide_with
  require_job_of-hides perm job hidden h = rw (← can-decide built job_read job, h)

  -- With grants that Add built, a run whose job the caller may not read is answered exactly like a
  -- run that the store does not have.
  pub authorize_run-hides :
      (st st_without : Store) (r : Request) (rule : RouteRule) (job : Text)
      → st.run_job_name (r.url_param rule.run_param) ≡ run_of job
      → st_without.run_job_name (r.url_param rule.run_param) ≡ no_run
      → can g job_read job ≡ false
      → answer_of (authorize_run st r g rule) ≡ answer_of (authorize_run st_without r g rule)
  unfolding authorize_run hide_with
  authorize_run-hides st st_without r rule job found missing h =
      rw (unreadable-slow rule.perm job h, found, missing) (require_job_of-hides rule.perm job _ h)

  -- With grants that Add built, a request on a schedule whose target the store knows passes
  -- exactly when the caller holds both job.read and the permission of the route on the target.
  pub authorize_schedule-passes :
      (st : Store) (r : Request) (rule : RouteRule) (job : Text)
      → st.get_schedule (r.url_param (str "name")) ≡ schedule_of job
      → passes (authorize_schedule st r g rule) ≡ (can g job_read job && can g rule.perm job)
  unfolding authorize_schedule
  authorize_schedule-passes st r rule job found =
      elim (Bool-cases (is_held_everywhere g rule.perm)) [
        | inl fast ↦ rw fast (rw (everywhere-can rule.perm job fast))
        | inr slow ↦ rw (slow, found) (require_job_of-passes rule.perm job _)
      ]
