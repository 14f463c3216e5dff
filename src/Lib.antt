-- ===== src/Lib.antt =====
-- The control plane of the platform (a Go monorepo): the tenant service, the deployment service with its
-- agents, and the libraries that decide who may do what. A service method takes the caller's ids and
-- a request, asks an authorizer, and runs its SQL statements in one transaction for one organisation
-- (the tenant), together with a row for the outbox; agents in the clusters report back what became of
-- a deployment.
--
-- Prelude (Tests, Lists, Int): shared names, Boolean tests on numbers and texts, signed integers.
-- Errors: backend/libs/errors/errors.go (`Error`, `From`, `HTTPStatus`, `Envelope`, `WithDetails`) and
--   `IsNotFound` of backend/libs/database/errors.go. Go's error chains are a data type. Errors.Response is
--   what clients are answered: `ErrorHandler` of backend/libs/middleware/middleware.go.
-- Exec: methods as state passing. `with_tenant` is `WithTenant` of backend/libs/database/tx.go: commit
--   on success, roll back on an error. Steps, Atomic and Success hold the rules that carry facts through a
--   method; `search` applies them.
-- Auth: backend/services/auth/internal. Auth is domain.go and errors.go, Store is repository.go with the
--   unique index on token hashes, Sessions, Login, OneTime and Requests are service.go
--   (`Refresh`, `Logout`; `Login`; `VerifyEmail`, `ConfirmPasswordReset`; `ResendVerification`,
--   `RequestPasswordReset`). Revoking, Rotation, Access, Lockout, Spending, Resetting and Superseding
--   hold proofs.
-- Authz: backend/libs/authz/authz.go (`PolicyAuthorizer`, `Authorize`); Authz.Membership is
--   backend/libs/authz/membership.go (`AuthorizeOrgMember`, `AuthorizeOrgRead`).
-- Text: what the services use of Go's strings and regexp packages, for ASCII.
-- Text.Numbers: Go's strconv and the searches of package strings that the event subjects need.
-- Events: backend/libs/events. The envelope is envelope.go, Subjects and Upcasters are versioning.go,
--   Retry is retry.go, Subscriber is subscriber.go with dlq.go (`handleMessage`), Relay is relay.go with
--   the statements of outbox.go and `Publish` of publisher.go. Relay.World is the outbox table with what
--   the broker has taken; Relay.Surroundings are the locks of other relays and the answers of broker
--   and database. Rows, Sending, Marks, AtLeastOnce, Backlog and Clears, Bounds, Rank, Chain and Delivery
--   hold proofs.
-- Rbac: backend/libs/security/rbac.go. Rbac is `Role.HasPermission`, Roles is `SystemRoles`, Cache is
--   `permissionCache`, Engine is `RBACEngine`. The stores of roles and assignments are interfaces, a
--   parameter (Rbac.Engine.Stores) whose laws are Rbac.Engine.Frames.IsScoped. Entries, Hierarchy, Frames,
--   Keys, Coherence and Refinement hold proofs.
-- Tenant: backend/services/tenant/internal. The types are domain.go, events.go and errors.go, Store is
--   repository.go, Service is service.go and authorize.go for organisations, Membership is service.go
--   for members and invitations, Calls is the sequence of calls that clients make. `create_organization`
--   is `CreateOrganization`, and so on. Invariant, Owners, Isolation, Atomic and Invites hold proofs.
-- Rollout: agents/platform-agent/internal/rollout/rollout.go (`DerivePhase`, `Percentage`).
-- Deployment: backend/services/deployment/internal. The types are domain.go, rollout.go, events.go and
--   errors.go with backend/libs/contracts/deploymentstatus/status.go, Store is repository.go and
--   rollout.go, Service and Marks are service.go, Agent is agent_handlers.go, Progress is
--   agent_progress.go, Calls is the sequence of calls of users and agents. Writes
--   carries a relation that the statements keep through all methods. Snapshots, Ownership, Revisions,
--   Markers, Seeding, Loops and Conflict hold proofs. `in_tenant` is `WithTenant` with its commit, which
--   fails once the server has refused a statement.
-- Samples: runs at concrete inputs.
--
-- The database of a service is a record of tables, newest row first. A statement runs for one
-- organisation, and row-level security is that it sees and writes the rows of that organisation only,
-- except where the code reads across tenants (invitations by token), which a database role must be exempt
-- from row-level security for. Unique indexes and foreign keys that
-- a statement can meet are part of it. Statements run one after the other: concurrent transactions and
-- their retries are not modelled. Fresh ids and random tokens are arguments. Loops over tables are
-- structural recursions. Two loops take fuel: the chain of upcasters runs one round more than there
-- are upcasters, which Events.Upcasters.Chain proves enough for Go's ints, and the tick of the
-- relay one round more than there are pending rows, which Events.Relay.Clears proves enough. Ids
-- are texts and instants are numbers. Columns that no operation reads are left out.
--
-- Parameters: the hash of invitation tokens and the clock (Tenant.Service.Config), the JSON
-- encoding and the hash of configurations (Deployment.Service.Codec), the JSON decoder, the handler
-- and the broker of a consumer (Events.Subscriber.Consumer), the hash of tokens, bcrypt, the TOTP
-- check, the signing of access tokens and the revocation store (Auth.Config), and float64
-- (Rollout.Float64), whose laws are Rollout.Progress.IsIeee.
--
-- Not modelled: HTTP handlers and request parsing, logs, metrics and traces, list operations with their
-- cursors, applications of the deployment service (with `DeleteApplication`, whose cascade to releases
-- only the trigger releases_immutable of backend/migrations/deployment stops) and its GitOps part, the
-- other services, the Kubernetes clients, the frontend and the infrastructure code.
pub mod Prelude
pub mod Errors
pub mod Events
pub mod Exec
pub mod Auth
pub mod Authz
pub mod Text
pub mod Tenant
pub mod Rbac
pub mod Rollout
pub mod Deployment
pub mod Samples
