-- ===== src/Samples.antt =====
-- Runs of the models at concrete inputs.
mod Access
mod Tenants
mod Fleet
mod Deployments
mod Reports
mod Rollouts
mod Bus
mod Grants
mod Logins
