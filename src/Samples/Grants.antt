-- ===== src/Samples/Grants.antt =====
-- The RBAC engine at concrete inputs, over a store that keeps its assignments in a list.
use final_bds.Prelude.{ℕ_discrete, true, List, [], ◌∷◌, ◌≡◌, refl, ite, if_neg, ap}
use final_bds.Errors.{plain, ok, err}
use final_bds.Text.{Text, Text-discrete, codes, contains_byte, same_text}
use final_bds.Rbac.{any_grants, grants}
use final_bds.Rbac.Roles.{perm_deployment_deploy, owner_permissions}
use final_bds.Rbac.Roles.Hierarchy.{any_grants-Rung, developer_to_admin, upper_permissions}
use final_bds.Rbac.Cache.{Cache}
use final_bds.Rbac.Engine.{RoleAssignment, Stores}
use final_bds.Rbac.Engine.Keys.{IsPlain}
use final_bds.Rbac.Engine.Frames.{Agree, IsScoped}
use final_bds.Rbac.Engine.Refinement.{
  Request, checks, assigns, answers, store_answers, answers_refine,
}

abbrev of_user : Text → List RoleAssignment → List RoleAssignment
of_user u [] = []
of_user u (a ∷ s) = ite (Text-discrete u a.user_id) (a ∷ of_user u s) (of_user u s)

abbrev listed_stores : Stores
listed_stores = record {
  State = List RoleAssignment;
  get_user_roles = λ u o s. ok (of_user u s);
  get_user_project_roles = λ u o p s. ok [];
  assign = λ a s. (ok tt, a ∷ s);
  revoke = λ u r o p s. (err (plain "read only"), s);
  get_role = λ id s. err (plain "no custom roles");
  update_role = λ r s. (err (plain "no custom roles"), s);
  delete_role = λ id s. (err (plain "no custom roles"), s);
}

agrees : (u : Text) (s : List RoleAssignment) → Agree listed_stores u s s
agrees u s = record {
  same_roles = λ o. refl;
  same_project_roles = λ o p. refl;
  same_role = λ id. refl;
}

listed_stores-IsScoped : IsScoped listed_stores
listed_stores-IsScoped = record {
  assign_failed = λ a s e h. cc;
  assign_others = λ a s u n. record {
    same_roles = λ o. ap ok (if_neg (Text-discrete u a.user_id) n (a ∷ of_user u s) (of_user u s));
    same_project_roles = λ o p. refl;
    same_role = λ id. refl;
  };
  revoke_failed = λ u r o p s e h. refl;
  revoke_others = λ v r o p s u n. agrees u s;
}

abbrev developer_grant : RoleAssignment
developer_grant = record {
  user_id = codes "u1";
  role_id = codes "developer";
  org_id = codes "o1";
  project_id = [];
}

abbrev deploy_request : Request
deploy_request = checks (codes "u1") (codes "o1") [] perm_deployment_deploy 10

abbrev requests : List Request
requests = deploy_request ∷ assigns developer_grant ∷ deploy_request ∷ deploy_request ∷ []

abbrev small_cache : Cache
small_cache = record { entries = []; ttl = 300; max_size = 1 }

answers_refine_example :
    answers listed_stores requests [] small_cache ≡ store_answers listed_stores requests []
unfolding contains_byte
answers_refine_example =
    let plain_ids : IsPlain (codes "u1") (codes "o1") [] = record {
      plain_user = refl;
      plain_org = refl;
      plain_project = refl;
    } in
    answers_refine listed_stores requests [] small_cache listed_stores-IsScoped tt
      (plain_ids, (plain_ids, (plain_ids, tt)))

any_grants-Rung_example :
    (any_grants (upper_permissions developer_to_admin) perm_deployment_deploy ≡ true)
    × (any_grants owner_permissions perm_deployment_deploy ≡ true)
unfolding any_grants grants same_text Text-discrete ℕ_discrete
any_grants-Rung_example = any_grants-Rung developer_to_admin perm_deployment_deploy refl
