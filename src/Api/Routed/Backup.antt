-- ===== src/Api/Routed/Backup.antt =====
-- Every call of client/src/lib/api.ts about database backups meets a
-- route of server/cmd/server/main.go.
use server_hub.Prelude.{Bool, refl}
use server_hub.Routing.{lit, Access, viewer, operator, admin}
use server_hub.Routing.Sound.{IsSegment, encode-IsPlain}
use server_hub.Endpoints.Parts.{api}
use server_hub.Api.Served.{Served, served, Served-suffix}
use server_hub.Server.Routes.{routes}
use server_hub.Endpoints.DbBackups
use server_hub.Api.Backup.{
  BackupCall, dashboard, targets, target, create_target, update_target, test_target, delete_target,
  connections, connection, create_connection, update_connection, test_connection, delete_connection,
  policies, policy, create_policy, update_policy, delete_policy, jobs, job, create_job, update_job,
  delete_job, enable_job, disable_job, run_job, preflight, runs, run, run_artifacts, cancel_run,
  verify_run, restores, restore, create_restore, agents, agent, mint_registration_token,
  rotate_agent_token, revoke_agent, enroll_tokens, mint_enroll_token, revoke_enroll_token, machines,
  machine, backup_request,
}

-- The access that the server asks for the call.
abbrev pub backup_access : BackupCall → Access
backup_access dashboard = viewer
backup_access targets = viewer
backup_access (target id) = viewer
backup_access (create_target body) = operator
backup_access (update_target id body) = operator
backup_access (test_target id) = operator
backup_access (delete_target id) = admin
backup_access connections = viewer
backup_access (connection id) = viewer
backup_access (create_connection body) = operator
backup_access (update_connection id body) = operator
backup_access (test_connection id) = operator
backup_access (delete_connection id) = admin
backup_access policies = viewer
backup_access (policy id) = viewer
backup_access (create_policy body) = operator
backup_access (update_policy id body) = operator
backup_access (delete_policy id) = admin
backup_access jobs = viewer
backup_access (job id) = viewer
backup_access (create_job body) = operator
backup_access (update_job id body) = operator
backup_access (delete_job id) = admin
backup_access (enable_job id) = operator
backup_access (disable_job id) = operator
backup_access (run_job id) = operator
backup_access (preflight id) = operator
backup_access (runs given) = viewer
backup_access (run id) = viewer
backup_access (run_artifacts id) = viewer
backup_access (cancel_run id) = operator
backup_access (verify_run id) = operator
backup_access restores = viewer
backup_access (restore id) = viewer
backup_access (create_restore body) = operator
backup_access agents = viewer
backup_access (agent id) = viewer
backup_access mint_registration_token = admin
backup_access (rotate_agent_token id) = admin
backup_access (revoke_agent id) = admin
backup_access enroll_tokens = viewer
backup_access (mint_enroll_token body) = admin
backup_access (revoke_enroll_token id) = admin
backup_access machines = viewer
backup_access (machine id) = viewer

-- The texts that the call puts into the path are proper.
abbrev pub ProperBackup : BackupCall → Type 0
ProperBackup (target id) = IsSegment id
ProperBackup (update_target id body) = IsSegment id
ProperBackup (delete_target id) = IsSegment id
ProperBackup (connection id) = IsSegment id
ProperBackup (update_connection id body) = IsSegment id
ProperBackup (delete_connection id) = IsSegment id
ProperBackup (policy id) = IsSegment id
ProperBackup (update_policy id body) = IsSegment id
ProperBackup (delete_policy id) = IsSegment id
ProperBackup (job id) = IsSegment id
ProperBackup (update_job id body) = IsSegment id
ProperBackup (delete_job id) = IsSegment id
ProperBackup (enable_job id) = IsSegment id
ProperBackup (disable_job id) = IsSegment id
ProperBackup (run_job id) = IsSegment id
ProperBackup (preflight id) = IsSegment id
ProperBackup (run id) = IsSegment id
ProperBackup (run_artifacts id) = IsSegment id
ProperBackup (cancel_run id) = IsSegment id
ProperBackup (verify_run id) = IsSegment id
ProperBackup (restore id) = IsSegment id
ProperBackup (agent id) = IsSegment id
ProperBackup (rotate_agent_token id) = IsSegment id
ProperBackup (revoke_agent id) = IsSegment id
ProperBackup (revoke_enroll_token id) = IsSegment id
ProperBackup (machine id) = IsSegment id
ProperBackup _ = Unit

pub backup_call-Served :
    (files : Bool) (c : BackupCall)
    → ProperBackup c
    → Served (backup_access c) (routes files) (backup_request c)
unfolding backup_request routes DbBackups.db_backups_agent DbBackups.db_backups_agent_revoke
    DbBackups.db_backups_agent_rotate DbBackups.db_backups_agent_token DbBackups.db_backups_agents
    DbBackups.db_backups_connection DbBackups.db_backups_connection_test
    DbBackups.db_backups_connections DbBackups.db_backups_dashboard
    DbBackups.db_backups_enroll_token DbBackups.db_backups_enroll_tokens DbBackups.db_backups_job
    DbBackups.db_backups_job_disable DbBackups.db_backups_job_enable
    DbBackups.db_backups_job_preflight DbBackups.db_backups_job_run DbBackups.db_backups_jobs
    DbBackups.db_backups_machine DbBackups.db_backups_machines DbBackups.db_backups_policies
    DbBackups.db_backups_policy DbBackups.db_backups_restore DbBackups.db_backups_restores
    DbBackups.db_backups_run DbBackups.db_backups_run_artifacts DbBackups.db_backups_run_cancel
    DbBackups.db_backups_run_verify DbBackups.db_backups_runs DbBackups.db_backups_target
    DbBackups.db_backups_target_test DbBackups.db_backups_targets
backup_call-Served files dashboard h =
    served viewer (routes files) (backup_request dashboard) refl tt
backup_call-Served files targets h = served viewer (routes files) (backup_request targets) refl tt
backup_call-Served files (target id) h =
    served viewer (routes files) (backup_request (target id)) refl (encode-IsPlain id h, tt)
backup_call-Served files (create_target body) h =
    served operator (routes files) (backup_request (create_target body)) refl tt
backup_call-Served files (update_target id body) h =
    served operator (routes files) (backup_request (update_target id body)) refl
      (encode-IsPlain id h, tt)
backup_call-Served files (test_target id) h =
    served operator (routes files) (backup_request (test_target id)) refl tt
backup_call-Served files (delete_target id) h =
    served admin (routes files) (backup_request (delete_target id)) refl (encode-IsPlain id h, tt)
backup_call-Served files connections h =
    served viewer (routes files) (backup_request connections) refl tt
backup_call-Served files (connection id) h =
    served viewer (routes files) (backup_request (connection id)) refl (encode-IsPlain id h, tt)
backup_call-Served files (create_connection body) h =
    served operator (routes files) (backup_request (create_connection body)) refl tt
backup_call-Served files (update_connection id body) h =
    served operator (routes files) (backup_request (update_connection id body)) refl
      (encode-IsPlain id h, tt)
backup_call-Served files (test_connection id) h =
    served operator (routes files) (backup_request (test_connection id)) refl tt
backup_call-Served files (delete_connection id) h =
    served admin (routes files) (backup_request (delete_connection id)) refl
      (encode-IsPlain id h, tt)
backup_call-Served files policies h = served viewer (routes files) (backup_request policies) refl tt
backup_call-Served files (policy id) h =
    served viewer (routes files) (backup_request (policy id)) refl (encode-IsPlain id h, tt)
backup_call-Served files (create_policy body) h =
    served operator (routes files) (backup_request (create_policy body)) refl tt
backup_call-Served files (update_policy id body) h =
    served operator (routes files) (backup_request (update_policy id body)) refl
      (encode-IsPlain id h, tt)
backup_call-Served files (delete_policy id) h =
    served admin (routes files) (backup_request (delete_policy id)) refl (encode-IsPlain id h, tt)
backup_call-Served files jobs h = served viewer (routes files) (backup_request jobs) refl tt
backup_call-Served files (job id) h =
    served viewer (routes files) (backup_request (job id)) refl (encode-IsPlain id h, tt)
backup_call-Served files (create_job body) h =
    served operator (routes files) (backup_request (create_job body)) refl tt
backup_call-Served files (update_job id body) h =
    served operator (routes files) (backup_request (update_job id body)) refl
      (encode-IsPlain id h, tt)
backup_call-Served files (delete_job id) h =
    served admin (routes files) (backup_request (delete_job id)) refl (encode-IsPlain id h, tt)
backup_call-Served files (enable_job id) h =
    served operator (routes files) (backup_request (enable_job id)) refl (encode-IsPlain id h, tt)
backup_call-Served files (disable_job id) h =
    served operator (routes files) (backup_request (disable_job id)) refl (encode-IsPlain id h, tt)
backup_call-Served files (run_job id) h =
    served operator (routes files) (backup_request (run_job id)) refl (encode-IsPlain id h, tt)
backup_call-Served files (preflight id) h =
    served operator (routes files) (backup_request (preflight id)) refl (encode-IsPlain id h, tt)
backup_call-Served files (runs given) h =
    Served-suffix viewer (routes files) api (lit "/db-backups/runs")
      (DbBackups.db_backups_runs_query given) refl refl tt tt
backup_call-Served files (run id) h =
    served viewer (routes files) (backup_request (run id)) refl (encode-IsPlain id h, tt)
backup_call-Served files (run_artifacts id) h =
    served viewer (routes files) (backup_request (run_artifacts id)) refl (encode-IsPlain id h, tt)
backup_call-Served files (cancel_run id) h =
    served operator (routes files) (backup_request (cancel_run id)) refl (encode-IsPlain id h, tt)
backup_call-Served files (verify_run id) h =
    served operator (routes files) (backup_request (verify_run id)) refl (encode-IsPlain id h, tt)
backup_call-Served files restores h = served viewer (routes files) (backup_request restores) refl tt
backup_call-Served files (restore id) h =
    served viewer (routes files) (backup_request (restore id)) refl (encode-IsPlain id h, tt)
backup_call-Served files (create_restore body) h =
    served operator (routes files) (backup_request (create_restore body)) refl tt
backup_call-Served files agents h = served viewer (routes files) (backup_request agents) refl tt
backup_call-Served files (agent id) h =
    served viewer (routes files) (backup_request (agent id)) refl (encode-IsPlain id h, tt)
backup_call-Served files mint_registration_token h =
    served admin (routes files) (backup_request mint_registration_token) refl tt
backup_call-Served files (rotate_agent_token id) h =
    served admin (routes files) (backup_request (rotate_agent_token id)) refl
      (encode-IsPlain id h, tt)
backup_call-Served files (revoke_agent id) h =
    served admin (routes files) (backup_request (revoke_agent id)) refl (encode-IsPlain id h, tt)
backup_call-Served files enroll_tokens h =
    served viewer (routes files) (backup_request enroll_tokens) refl tt
backup_call-Served files (mint_enroll_token body) h =
    served admin (routes files) (backup_request (mint_enroll_token body)) refl tt
backup_call-Served files (revoke_enroll_token id) h =
    served admin (routes files) (backup_request (revoke_enroll_token id)) refl
      (encode-IsPlain id h, tt)
backup_call-Served files machines h = served viewer (routes files) (backup_request machines) refl tt
backup_call-Served files (machine id) h =
    served viewer (routes files) (backup_request (machine id)) refl (encode-IsPlain id h, tt)
