-- ===== src/Endpoints/DbBackups.antt =====
-- packages/shared/src/endpoints.ts: the paths of database backups.
use server_hub.Prelude.{ℕ, List, [], ◌∷◌, ◌++◌, Option}
use server_hub.Text.{Text}
use server_hub.Routing.{lit, Template, enc}
use server_hub.Endpoints.Parts.{api, set_text, set_num, suffix}

unfoldable pub db_backups_dashboard : Template
db_backups_dashboard = api ∷ lit "/db-backups/dashboard" ∷ []

unfoldable pub db_backups_targets : Template
db_backups_targets = api ∷ lit "/db-backups/storage-targets" ∷ []

unfoldable pub db_backups_target : Text → Template
db_backups_target id = api ∷ lit "/db-backups/storage-targets/" ∷ enc id ∷ []

unfoldable pub db_backups_target_test : Template
db_backups_target_test = api ∷ lit "/db-backups/storage-targets/test" ∷ []

unfoldable pub db_backups_connections : Template
db_backups_connections = api ∷ lit "/db-backups/connections" ∷ []

unfoldable pub db_backups_connection : Text → Template
db_backups_connection id = api ∷ lit "/db-backups/connections/" ∷ enc id ∷ []

unfoldable pub db_backups_connection_test : Template
db_backups_connection_test = api ∷ lit "/db-backups/connections/test" ∷ []

unfoldable pub db_backups_policies : Template
db_backups_policies = api ∷ lit "/db-backups/policies" ∷ []

unfoldable pub db_backups_policy : Text → Template
db_backups_policy id = api ∷ lit "/db-backups/policies/" ∷ enc id ∷ []

unfoldable pub db_backups_jobs : Template
db_backups_jobs = api ∷ lit "/db-backups/jobs" ∷ []

unfoldable pub db_backups_job : Text → Template
db_backups_job id = api ∷ lit "/db-backups/jobs/" ∷ enc id ∷ []

unfoldable pub db_backups_job_enable : Text → Template
db_backups_job_enable id = api ∷ lit "/db-backups/jobs/" ∷ enc id ∷ lit "/enable" ∷ []

unfoldable pub db_backups_job_disable : Text → Template
db_backups_job_disable id = api ∷ lit "/db-backups/jobs/" ∷ enc id ∷ lit "/disable" ∷ []

unfoldable pub db_backups_job_run : Text → Template
db_backups_job_run id = api ∷ lit "/db-backups/jobs/" ∷ enc id ∷ lit "/run" ∷ []

unfoldable pub db_backups_job_preflight : Text → Template
db_backups_job_preflight id = api ∷ lit "/db-backups/jobs/" ∷ enc id ∷ lit "/preflight" ∷ []

pub record RunsParams : Type 0 where
  pub job_id : Option Text
  pub status : Option Text
  pub search : Option Text
  pub page : Option ℕ
  pub limit : Option ℕ
  pub sort : Option Text
  pub order : Option Text

-- The pairs that are set, in order.
unfoldable pub db_backups_runs_query : RunsParams → List (Text × Text)
db_backups_runs_query p =
    set_text "job_id" p.job_id
    ++ set_text "status" p.status
    ++ set_text "search" p.search
    ++ set_num "page" p.page
    ++ set_num "limit" p.limit
    ++ set_text "sort" p.sort
    ++ set_text "order" p.order

unfoldable pub db_backups_runs : RunsParams → Template
db_backups_runs p = api ∷ lit "/db-backups/runs" ∷ suffix (db_backups_runs_query p)

unfoldable pub db_backups_run : Text → Template
db_backups_run id = api ∷ lit "/db-backups/runs/" ∷ enc id ∷ []

unfoldable pub db_backups_run_artifacts : Text → Template
db_backups_run_artifacts id = api ∷ lit "/db-backups/runs/" ∷ enc id ∷ lit "/artifacts" ∷ []

unfoldable pub db_backups_run_cancel : Text → Template
db_backups_run_cancel id = api ∷ lit "/db-backups/runs/" ∷ enc id ∷ lit "/cancel" ∷ []

unfoldable pub db_backups_run_verify : Text → Template
db_backups_run_verify id = api ∷ lit "/db-backups/runs/" ∷ enc id ∷ lit "/verify" ∷ []

unfoldable pub db_backups_restores : Template
db_backups_restores = api ∷ lit "/db-backups/restores" ∷ []

unfoldable pub db_backups_restore : Text → Template
db_backups_restore id = api ∷ lit "/db-backups/restores/" ∷ enc id ∷ []

unfoldable pub db_backups_agents : Template
db_backups_agents = api ∷ lit "/db-backups/agents" ∷ []

unfoldable pub db_backups_agent : Text → Template
db_backups_agent id = api ∷ lit "/db-backups/agents/" ∷ enc id ∷ []

unfoldable pub db_backups_agent_token : Template
db_backups_agent_token = api ∷ lit "/db-backups/agents/token" ∷ []

unfoldable pub db_backups_agent_rotate : Text → Template
db_backups_agent_rotate id = api ∷ lit "/db-backups/agents/" ∷ enc id ∷ lit "/rotate-token" ∷ []

unfoldable pub db_backups_agent_revoke : Text → Template
db_backups_agent_revoke id = api ∷ lit "/db-backups/agents/" ∷ enc id ∷ lit "/revoke" ∷ []

unfoldable pub db_backups_enroll_tokens : Template
db_backups_enroll_tokens = api ∷ lit "/db-backups/enrollment-tokens" ∷ []

unfoldable pub db_backups_enroll_token : Text → Template
db_backups_enroll_token id = api ∷ lit "/db-backups/enrollment-tokens/" ∷ enc id ∷ []

unfoldable pub db_backups_machines : Template
db_backups_machines = api ∷ lit "/db-backups/machines" ∷ []

unfoldable pub db_backups_machine : Text → Template
db_backups_machine id = api ∷ lit "/db-backups/machines/" ∷ enc id ∷ []
