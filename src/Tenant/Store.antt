-- ===== src/Tenant/Store.antt =====
-- The tables of the tenant service: memberships and invitations, organisations and the outbox.
mod Rows
mod Orgs
unfoldable pub use Rows.*
unfoldable pub use Orgs.*
