-- ===== src/Controller.antt =====
-- internal/controller: the control plane's decisions.
pub mod Rbac
pub mod Principal
pub mod Routes
pub mod Authorize
pub mod Params
pub mod Backoff
pub mod Schedulability
pub mod Scheduler
pub mod Schedules
pub mod LogTrim
pub mod AgentGuard
pub mod StuckRuns
pub mod Cascade
