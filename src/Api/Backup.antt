-- ===== src/Api/Backup.antt =====
-- client/src/lib/api.ts: the calls of `dbBackupsApi` about database backups.
use server_hub.Prelude.{[], ◌∷◌, Option}
use server_hub.Text.{Text}
use server_hub.Json.{Json, str, object}
use server_hub.Routing.{post, put, delete}
use server_hub.Endpoints.Parts.{default}
use server_hub.Api.Request.{Request, fetched, sent, with_body}
use server_hub.Endpoints.DbBackups
use server_hub.Endpoints.DbBackups.{RunsParams}

pub data BackupCall : Type 0 where
  dashboard : BackupCall
  targets : BackupCall
  target : Text → BackupCall
  create_target : Json → BackupCall
  update_target : Text → Json → BackupCall
  test_target : Text → BackupCall
  delete_target : Text → BackupCall
  connections : BackupCall
  connection : Text → BackupCall
  create_connection : Json → BackupCall
  update_connection : Text → Json → BackupCall
  test_connection : Text → BackupCall
  delete_connection : Text → BackupCall
  policies : BackupCall
  policy : Text → BackupCall
  create_policy : Json → BackupCall
  update_policy : Text → Json → BackupCall
  delete_policy : Text → BackupCall
  jobs : BackupCall
  job : Text → BackupCall
  create_job : Json → BackupCall
  update_job : Text → Json → BackupCall
  delete_job : Text → BackupCall
  enable_job : Text → BackupCall
  disable_job : Text → BackupCall
  run_job : Text → BackupCall
  preflight : Text → BackupCall
  runs : RunsParams → BackupCall
  run : Text → BackupCall
  run_artifacts : Text → BackupCall
  cancel_run : Text → BackupCall
  verify_run : Text → BackupCall
  restores : BackupCall
  restore : Text → BackupCall
  create_restore : Json → BackupCall
  agents : BackupCall
  agent : Text → BackupCall
  mint_registration_token : BackupCall
  rotate_agent_token : Text → BackupCall
  revoke_agent : Text → BackupCall
  enroll_tokens : BackupCall
  mint_enroll_token : Option Json → BackupCall
  revoke_enroll_token : Text → BackupCall
  machines : BackupCall
  machine : Text → BackupCall

unfoldable pub backup_request : BackupCall → Request
backup_request dashboard = fetched DbBackups.db_backups_dashboard
backup_request targets = fetched DbBackups.db_backups_targets
backup_request (target id) = fetched (DbBackups.db_backups_target id)
backup_request (create_target body) = with_body post DbBackups.db_backups_targets body
backup_request (update_target id body) = with_body put (DbBackups.db_backups_target id) body
backup_request (test_target id) =
    with_body post DbBackups.db_backups_target_test (object (("id", str id) ∷ []))
backup_request (delete_target id) = sent delete (DbBackups.db_backups_target id)
backup_request connections = fetched DbBackups.db_backups_connections
backup_request (connection id) = fetched (DbBackups.db_backups_connection id)
backup_request (create_connection body) = with_body post DbBackups.db_backups_connections body
backup_request (update_connection id body) = with_body put (DbBackups.db_backups_connection id) body
backup_request (test_connection id) =
    with_body post DbBackups.db_backups_connection_test (object (("id", str id) ∷ []))
backup_request (delete_connection id) = sent delete (DbBackups.db_backups_connection id)
backup_request policies = fetched DbBackups.db_backups_policies
backup_request (policy id) = fetched (DbBackups.db_backups_policy id)
backup_request (create_policy body) = with_body post DbBackups.db_backups_policies body
backup_request (update_policy id body) = with_body put (DbBackups.db_backups_policy id) body
backup_request (delete_policy id) = sent delete (DbBackups.db_backups_policy id)
backup_request jobs = fetched DbBackups.db_backups_jobs
backup_request (job id) = fetched (DbBackups.db_backups_job id)
backup_request (create_job body) = with_body post DbBackups.db_backups_jobs body
backup_request (update_job id body) = with_body put (DbBackups.db_backups_job id) body
backup_request (delete_job id) = sent delete (DbBackups.db_backups_job id)
backup_request (enable_job id) = sent post (DbBackups.db_backups_job_enable id)
backup_request (disable_job id) = sent post (DbBackups.db_backups_job_disable id)
backup_request (run_job id) = sent post (DbBackups.db_backups_job_run id)
backup_request (preflight id) = sent post (DbBackups.db_backups_job_preflight id)
backup_request (runs given) = fetched (DbBackups.db_backups_runs given)
backup_request (run id) = fetched (DbBackups.db_backups_run id)
backup_request (run_artifacts id) = fetched (DbBackups.db_backups_run_artifacts id)
backup_request (cancel_run id) = sent post (DbBackups.db_backups_run_cancel id)
backup_request (verify_run id) = sent post (DbBackups.db_backups_run_verify id)
backup_request restores = fetched DbBackups.db_backups_restores
backup_request (restore id) = fetched (DbBackups.db_backups_restore id)
backup_request (create_restore body) = with_body post DbBackups.db_backups_restores body
backup_request agents = fetched DbBackups.db_backups_agents
backup_request (agent id) = fetched (DbBackups.db_backups_agent id)
backup_request mint_registration_token = sent post DbBackups.db_backups_agent_token
backup_request (rotate_agent_token id) = sent post (DbBackups.db_backups_agent_rotate id)
backup_request (revoke_agent id) = sent post (DbBackups.db_backups_agent_revoke id)
backup_request enroll_tokens = fetched DbBackups.db_backups_enroll_tokens
backup_request (mint_enroll_token body) =
    with_body post DbBackups.db_backups_enroll_tokens (default (object []) body)
backup_request (revoke_enroll_token id) = sent delete (DbBackups.db_backups_enroll_token id)
backup_request machines = fetched DbBackups.db_backups_machines
backup_request (machine id) = fetched (DbBackups.db_backups_machine id)
