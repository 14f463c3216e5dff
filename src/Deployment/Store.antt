-- ===== src/Deployment/Store.antt =====
-- The repositories of the deployment service (backend/services/deployment/internal/repository.go,
-- rollout.go), its outbox, and the transactions of a tenant.
mod Rows
mod Releases
unfoldable pub use Rows.*
unfoldable pub use Releases.*
