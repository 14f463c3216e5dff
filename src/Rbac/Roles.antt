-- ===== src/Rbac/Roles.antt =====
-- The predefined permissions and the system roles of backend/libs/security/rbac.go.
pub mod Hierarchy
use final_bds.Prelude.{true, List, [], ◌∷◌, ◌++◌, Option, none, some, ite, String}
use final_bds.Text.{Text, Text-discrete, codes}
use final_bds.Rbac.{Permission, build_permission, Role}

abbrev pub perm_org_read : Permission
perm_org_read = build_permission "organization" "read"

abbrev pub perm_org_update : Permission
perm_org_update = build_permission "organization" "update"

abbrev pub perm_org_delete : Permission
perm_org_delete = build_permission "organization" "delete"

abbrev pub perm_org_manage : Permission
perm_org_manage = build_permission "organization" "manage"

abbrev pub perm_org_invite : Permission
perm_org_invite = build_permission "organization" "invite"

abbrev pub perm_project_create : Permission
perm_project_create = build_permission "project" "create"

abbrev pub perm_project_read : Permission
perm_project_read = build_permission "project" "read"

abbrev pub perm_project_update : Permission
perm_project_update = build_permission "project" "update"

abbrev pub perm_project_delete : Permission
perm_project_delete = build_permission "project" "delete"

abbrev pub perm_project_manage : Permission
perm_project_manage = build_permission "project" "manage"

abbrev pub perm_cluster_create : Permission
perm_cluster_create = build_permission "cluster" "create"

abbrev pub perm_cluster_read : Permission
perm_cluster_read = build_permission "cluster" "read"

abbrev pub perm_cluster_update : Permission
perm_cluster_update = build_permission "cluster" "update"

abbrev pub perm_cluster_delete : Permission
perm_cluster_delete = build_permission "cluster" "delete"

abbrev pub perm_cluster_manage : Permission
perm_cluster_manage = build_permission "cluster" "manage"

abbrev pub perm_deployment_create : Permission
perm_deployment_create = build_permission "deployment" "create"

abbrev pub perm_deployment_read : Permission
perm_deployment_read = build_permission "deployment" "read"

abbrev pub perm_deployment_deploy : Permission
perm_deployment_deploy = build_permission "deployment" "deploy"

abbrev pub perm_deployment_rollback : Permission
perm_deployment_rollback = build_permission "deployment" "rollback"

abbrev pub perm_deployment_delete : Permission
perm_deployment_delete = build_permission "deployment" "delete"

abbrev pub perm_deployment_manage : Permission
perm_deployment_manage = build_permission "deployment" "manage"

abbrev pub perm_secret_create : Permission
perm_secret_create = build_permission "secret" "create"

abbrev pub perm_secret_read : Permission
perm_secret_read = build_permission "secret" "read"

abbrev pub perm_secret_update : Permission
perm_secret_update = build_permission "secret" "update"

abbrev pub perm_secret_delete : Permission
perm_secret_delete = build_permission "secret" "delete"

abbrev pub perm_secret_manage : Permission
perm_secret_manage = build_permission "secret" "manage"

abbrev pub perm_domain_create : Permission
perm_domain_create = build_permission "domain" "create"

abbrev pub perm_domain_read : Permission
perm_domain_read = build_permission "domain" "read"

abbrev pub perm_domain_update : Permission
perm_domain_update = build_permission "domain" "update"

abbrev pub perm_domain_delete : Permission
perm_domain_delete = build_permission "domain" "delete"

abbrev pub perm_domain_manage : Permission
perm_domain_manage = build_permission "domain" "manage"

abbrev pub perm_user_list : Permission
perm_user_list = build_permission "user" "list"

abbrev pub perm_user_read : Permission
perm_user_read = build_permission "user" "read"

abbrev pub perm_user_update : Permission
perm_user_update = build_permission "user" "update"

abbrev pub perm_user_delete : Permission
perm_user_delete = build_permission "user" "delete"

abbrev pub perm_user_manage : Permission
perm_user_manage = build_permission "user" "manage"

abbrev pub perm_audit_read : Permission
perm_audit_read = build_permission "audit_log" "read"

abbrev pub perm_billing_read : Permission
perm_billing_read = build_permission "billing" "read"

abbrev pub perm_billing_manage : Permission
perm_billing_manage = build_permission "billing" "manage"

abbrev pub perm_sso_manage : Permission
perm_sso_manage = build_permission "sso" "manage"

abbrev pub perm_scim_manage : Permission
perm_scim_manage = build_permission "scim" "manage"

abbrev pub owner_permissions : List Permission
owner_permissions = build_permission "*" "*" ∷ []

abbrev pub admin_permissions : List Permission
admin_permissions =
    perm_org_read ∷ perm_org_update ∷ perm_org_invite ∷ perm_project_create ∷ perm_project_read
    ∷ perm_project_update ∷ perm_project_delete ∷ perm_project_manage ∷ perm_cluster_create
    ∷ perm_cluster_read ∷ perm_cluster_update ∷ perm_cluster_delete ∷ perm_cluster_manage
    ∷ perm_deployment_create ∷ perm_deployment_read ∷ perm_deployment_deploy
    ∷ perm_deployment_rollback ∷ perm_deployment_delete ∷ perm_deployment_manage
    ∷ perm_secret_create ∷ perm_secret_read ∷ perm_secret_update ∷ perm_secret_delete
    ∷ perm_secret_manage ∷ perm_domain_create ∷ perm_domain_read ∷ perm_domain_update
    ∷ perm_domain_delete ∷ perm_domain_manage ∷ perm_user_list ∷ perm_user_read ∷ perm_user_update
    ∷ perm_user_manage ∷ perm_audit_read ∷ perm_billing_read ∷ perm_sso_manage ∷ perm_scim_manage
    ∷ []

abbrev pub developer_permissions : List Permission
developer_permissions =
    perm_org_read ∷ perm_project_read ∷ perm_cluster_read ∷ perm_deployment_create
    ∷ perm_deployment_read ∷ perm_deployment_deploy ∷ perm_deployment_rollback ∷ perm_secret_create
    ∷ perm_secret_read ∷ perm_secret_update ∷ perm_domain_read ∷ perm_user_list ∷ perm_user_read
    ∷ []

abbrev pub viewer_permissions : List Permission
viewer_permissions =
    perm_org_read ∷ perm_project_read ∷ perm_cluster_read ∷ perm_deployment_read ∷ perm_secret_read
    ∷ perm_domain_read ∷ perm_user_list ∷ perm_user_read ∷ []

abbrev pub auditor_permissions : List Permission
auditor_permissions =
    perm_org_read ∷ perm_project_read ∷ perm_cluster_read ∷ perm_deployment_read ∷ perm_audit_read
    ∷ []

abbrev pub billing_permissions : List Permission
billing_permissions = perm_org_read ∷ perm_billing_read ∷ perm_billing_manage ∷ []

abbrev system_role : String → List Permission → Role
system_role id permissions = record { id = codes id; permissions = permissions; is_system = true }

-- `SystemRoles`.
unfoldable pub system_roles : List Role
system_roles =
    system_role "owner" owner_permissions
    ∷ system_role "admin" admin_permissions
    ∷ system_role "developer" developer_permissions
    ∷ system_role "viewer" viewer_permissions
    ∷ system_role "auditor" auditor_permissions
    ∷ system_role "billing" billing_permissions
    ∷ []

unfoldable pub find_role : Text → List Role → Option Role
unfolding Text-discrete
find_role id [] = none
find_role id (r ∷ rs) = ite (Text-discrete r.id id) (some r) (find_role id rs)
