-- ===== src/Tests.antt =====
-- Runs of the model on small inputs, and the theorems at such inputs.
mod Grants
mod Policies
mod Requests
mod Parameters
mod Sweeps
mod Runs
mod Scheduler
mod Schedules
mod Guards
mod Pools
mod Trims
mod Names
mod Matrices
