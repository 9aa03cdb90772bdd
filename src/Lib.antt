-- ===== src/Lib.antt =====
-- The decisions of unified-cd, a controller with agents that run jobs: who may do what, with which
-- parameters a run starts, which agent can take it, which locks it holds from its queueing to its
-- end, which agent may write to it, when schedules fire, and how failures are repeated.
--
-- A request comes with a token or a session. `Controller.Principal` (internal/controller/auth.go)
-- turns it into a principal, whose grants `Controller.Rbac` (internal/controller/rbac.go) computes
-- from the legacy role and from the policy. `Authz` (internal/authz) is the library below: the
-- catalogue and sets of permissions (`Authz.Catalogue`, `Authz.Set`: catalogue.go, set.go), folder
-- keys (`Authz.Folder`: folder.go), grants (`Authz.Grants`: grants.go) and the compiled policy
-- (`Authz.Policy`, `Authz.Policy.Matching`: policy.go). `Controller.Routes` holds the table of
-- routes (internal/controller/authz_routes.go) and `Controller.Authorize` the check that every
-- request of a person passes (internal/controller/authz_decide.go, and parseJobWildcard of
-- api_jobs.go). `Controller.Params` resolves the parameters of a run
-- (internal/controller/params.go), `Controller.Schedulability` and `Dsl.Capabilities` tell whether
-- an agent can run a job (internal/controller/schedulability.go, internal/dsl/capabilities.go),
-- `Controller.Backoff` leaves failing candidates out of a sweep
-- (internal/controller/failure_backoff.go). `Dsl.PodTemplate` and `Dsl.SecurityContext`
-- (internal/dsl/podtemplate.go, securitycontext.go) tell which pod templates a host agent cannot
-- honour; `Dsl.Values` are the decoded YAML values they read. `Dsl.Matrix` expands a matrix step
-- into its combinations (internal/dsl/matrix.go). `Store` is the part of internal/store/postgres.go
-- that moves runs: `Store.Tables` the tables of runs and locks, `Store.Expand` the templates in a
-- job's locks and volumes (internal/dsl/template.go, foreach.go), `Store.Locks` and `Store.Queue`
-- tryQueueRun, `Store.Lifecycle` the statements that create, claim, requeue, finish and delete a
-- run or rewrite its spec. `Controller.Scheduler` (internal/controller/scheduler.go) queues pending
-- runs in ticks, by the scan of `Store.Pending` that goes on from a cursor, and creates in them the
-- runs of the schedules that are due, by `Controller.Schedules` (checkAndFireSchedules). The
-- replicas of the scheduler share an advisory lock, which PostgreSQL grants to one session at a
-- time. `Controller.LogTrim` (internal/controller/log_trim.go, with TrimRunLogs of postgres.go)
-- deletes the log rows of archived runs. `Controller.AgentGuard` decides on an agent's writes with
-- a cache of claims over those tables (internal/controller/agent_guard.go), `Controller.StuckRuns`
-- fails runs whose agent is gone (internal/controller/stuckrun_reaper.go), and `Controller.Cascade`
-- cancels the runs that a run called (cancelDescendantRuns of internal/controller/api_runs.go);
-- both finish runs by the statements of the store. `K8sagent.Pool` (internal/k8sagent/pool.go)
-- lends idle pods to runs. `Dsl.QualifiedName`, `Agent.Portable`, `Agent.Retry` and
-- `Secrets.Binding` are internal/dsl/qualname.go, internal/agentid/portable.go,
-- internal/agent/retry.go and internal/secrets/binding.go. Below a component stand the modules of
-- its theorems, named for what they are about; `Tests` runs the model and applies the theorems at
-- concrete inputs; `Prelude` holds what all share.
--
-- A Go string is the list of its bytes, a map an association list in which the first entry of a key
-- counts, a nil pointer or slice `none`, an error a constructor that keeps what its message names.
-- An operation keeps the name of its function in snake case; a method takes its receiver first. What
-- a loop carries is an argument of the function that is the loop, and a match on a computed option
-- is a function of that option. Sets of permissions are 32-bit numbers, with the wrap-around of
-- their shifts written out; so is the 64-bit wrap-around of the doubled wait in
-- `Controller.Backoff`. Times and durations are nanoseconds, natural numbers: no time before the
-- epoch and no overflow of a sum of a time and a wait. A transaction of the store is one function
-- from tables to tables, so that statements are interleaved but not overlapped; one that rolls back
-- returns the tables it was given, and one that meets a database error is not modelled. Loops on
-- fuel: an eviction (`Backoff.evict`, `Recency.evict_back`) gets the length of its list, which is
-- enough, since every round removes an entry; `Cascade.walk` gets two rounds more than there are
-- runs, which is enough, since a run is queued once; where the fuel ends its result is `none`.
--
-- Parameters are what the program takes from elsewhere: the Unicode space test, the quoting of `%q`,
-- SHA-256, regular expressions, text/template and the JSON decoder behind a job's locks, the
-- children that the store lists for a run and the runs on which it fails, the two lookups that the
-- authorization makes in the store, the answers of the Kubernetes API and of the master to the pool
-- of pods, the order in which the database lists the pending runs, the cron library and the calls of
-- a schedule's fire, and the values that the source of a matrix dimension renders to. The record
-- `Grants` is only ever built by `add`, `join` and `restrict`; `IsBuilt` says so where a theorem
-- needs it.
--
-- Not modelled: the database beyond the runs, their locks and the trimming of logs (queries over
-- jobs, tokens and secrets, the query by which a claim picks a run), the methods on single mutexes
-- and semaphores (AcquireMutex, ReleaseMutex, UpsertSemaphorePool, AcquireSemaphore,
-- ReleaseSemaphore), which only tests call, RenameJob, which changes no column that is modelled,
-- the resolution of git templates, MarkRunStepsInterrupted and the cascade of failOrphanedRun
-- around the finish of a run, HTTP and cryptography, the execution of steps on agents and on
-- Kubernetes beyond the pool of pods, the YAML of jobs and of the policy, the handlers that decide
-- after reading a body, the command line and the web interface.
mod Prelude
pub mod Authz
pub mod Dsl
pub mod Agent
pub mod Secrets
pub mod K8sagent
pub mod Store
pub mod Tests
pub mod Controller
