-- ===== src/Deployment/Calls.antt =====
-- The writing methods of the deployment service and of its agents as calls, and what a sequence of calls
-- makes of the database. The operations on applications (`CreateApplication`, `UpdateApplication`,
-- `DeleteApplication`) are not among them. Each call carries the fresh ids that it takes from outside.
use final_bds.Prelude.{ℕ, ℤ, String, Option, List, [], ◌∷◌}
use final_bds.Text.{Text}
use final_bds.Deployment.{Db}
use final_bds.Deployment.Service.{
  Codec, CreateRequest, UpdateRequest, create_deployment, update_deployment, rollback,
}
use final_bds.Deployment.Marks.{
  delete_deployment, mark_deployment_started, mark_deployment_succeeded, mark_deployment_failed,
}
use final_bds.Deployment.Agent.{
  Handler, Agent, StatusRequest, ProgressRequest, update_deployment_status,
}
use final_bds.Deployment.Progress.{update_deployment_progress}

pub data Call : Type 0 where
  creates : String → String → String → String → CreateRequest → Call
  updates : String → String → String → String → UpdateRequest → Call
  rolls_back : String → String → String → String → Option ℕ → Call
  deletes : String → String → String → Call
  starts : String → String → String → String → Call
  succeeds : String → String → String → String → ℤ → Call
  fails : String → String → String → String → Text → Call
  reports_status : Option Agent → String → String → StatusRequest → Call
  reports_progress : Option Agent → String → String → String → ProgressRequest → Call

unfoldable pub step : Codec → Handler → Call → Db → Db
step c h (creates dep_id rel_id org user req) s =
    (create_deployment c dep_id rel_id org user req s).1
step c h (updates rel_id org user dep_id req) s =
    (update_deployment c rel_id org user dep_id req s).1
step c h (rolls_back rel_id org user dep_id n) s = (rollback c rel_id org user dep_id n s).1
step c h (deletes org user dep_id) s = (delete_deployment org user dep_id s).1
step c h (starts org user dep_id rel_id) s = (mark_deployment_started org user dep_id rel_id s).1
step c h (succeeds org user dep_id rel_id n) s =
    (mark_deployment_succeeded org user dep_id rel_id n s).1
step c h (fails org user dep_id rel_id msg) s =
    (mark_deployment_failed org user dep_id rel_id msg s).1
step c h (reports_status a dep_id rel_id req) s =
    (update_deployment_status h a dep_id rel_id req s).1
step c h (reports_progress a new_id dep_id rel_id req) s =
    (update_deployment_progress h a new_id dep_id rel_id req s).1

unfoldable pub run : Codec → Handler → List Call → Db → Db
run c h [] s = s
run c h (call ∷ calls) s = run c h calls (step c h call s)
