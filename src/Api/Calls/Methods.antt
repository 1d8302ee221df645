-- ===== src/Api/Calls/Methods.antt =====
-- Which calls of client/src/lib/api.ts `req` never retries, and what the methods of the calls say.
use server_hub.Prelude.{Bool, true, false, ◌≡◌, refl, none, arith}
use server_hub.Routing.{get, render}
use server_hub.Session.{is_auth_path}
use server_hub.Endpoints.Host
use server_hub.Endpoints.Projects
use server_hub.Endpoints.Notify
use server_hub.Endpoints.Servers
use server_hub.Endpoints.Transfers
use server_hub.Endpoints.DbBackups
use server_hub.Api.Account.{AccountCall, login, logout, me, change_password, account_request}
use server_hub.Api.Project.{ProjectCall, projects, project_request}
use server_hub.Api.Notify.{NotifyCall, notification_groups, notify_request}
use server_hub.Api.Deploy.{DeployCall, services, deploy_request}
use server_hub.Api.Host.{HostCall, telemetry, host_request}
use server_hub.Api.User.{UserCall, users, logout_all, user_request}
use server_hub.Api.Server.{ServerCall, servers, server_request}
use server_hub.Api.Alert.{AlertCall, alerts, alert_request}
use server_hub.Api.Monitoring.{MonitoringCall, monitoring_overview, monitoring_request}
use server_hub.Api.Transfer.{TransferCall, list, transfer_request}
use server_hub.Api.Backup.{BackupCall, dashboard, backup_request}
use server_hub.Api.Calls.{
  Call, request, account_call, project_call, notify_call, deploy_call, host_call, user_call,
  server_call, alert_call, monitoring_call, transfer_call, backup_call,
}

-- The calls about the session itself.
abbrev pub concerns_session : Call → Bool
concerns_session (account_call (login username password)) = true
concerns_session (account_call logout) = true
concerns_session (account_call me) = true
concerns_session (account_call (change_password current_password new_password)) = true
concerns_session (user_call logout_all) = true
concerns_session _ = false

account_call-is_auth :
    (c : AccountCall)
    → is_auth_path (render (account_request c).path) ≡ concerns_session (account_call c)
unfolding is_auth_path account_request Host.audit Host.auth_login Host.auth_logout Host.auth_me
    Host.auth_password Host.dashboard Host.server
account_call-is_auth (login a b) = refl
account_call-is_auth _ = refl

project_call-is_auth :
    (c : ProjectCall)
    → is_auth_path (render (project_request c).path) ≡ concerns_session (project_call c)
unfolding is_auth_path project_request Notify.notify_settings Notify.notify_test
    Projects.bulk_lifecycle Projects.project Projects.project_action Projects.projects
project_call-is_auth projects = refl
project_call-is_auth _ = refl

notify_call-is_auth :
    (c : NotifyCall)
    → is_auth_path (render (notify_request c).path) ≡ concerns_session (notify_call c)
unfolding is_auth_path notify_request Notify.notification_group Notify.notification_group_member
    Notify.notification_group_members Notify.notification_groups Notify.notification_rule
    Notify.notification_rules
notify_call-is_auth notification_groups = refl
notify_call-is_auth _ = refl

deploy_call-is_auth :
    (c : DeployCall)
    → is_auth_path (render (deploy_request c).path) ≡ concerns_session (deploy_call c)
unfolding is_auth_path deploy_request Projects.deployment_rollback Projects.deployments_all
    Projects.discovery Projects.discovery_import Projects.discovery_import_all
    Projects.project_deploy Projects.project_deployments Projects.project_services
    Projects.secret_reveal Projects.secrets
deploy_call-is_auth (services a) = refl
deploy_call-is_auth _ = refl

host_call-is_auth :
    (c : HostCall) → is_auth_path (render (host_request c).path) ≡ concerns_session (host_call c)
unfolding is_auth_path host_request Host.logs Host.operation Host.operations Host.server_detail
    Host.storage Projects.backup Projects.backup_restore Projects.backups Projects.container_exec
    Projects.containers_stats Projects.db_browse Projects.db_connect Projects.db_register
    Projects.db_servers Projects.telemetry
host_call-is_auth (telemetry a) = refl
host_call-is_auth _ = refl

user_call-is_auth :
    (c : UserCall) → is_auth_path (render (user_request c).path) ≡ concerns_session (user_call c)
unfolding is_auth_path user_request Host.auth_logout_all Host.user Host.user_role Host.users
user_call-is_auth users = refl
user_call-is_auth _ = refl

server_call-is_auth :
    (c : ServerCall)
    → is_auth_path (render (server_request c).path) ≡ concerns_session (server_call c)
unfolding is_auth_path server_request Servers.server_by_id Servers.server_group
    Servers.server_groups Servers.server_metrics Servers.server_metrics_latest Servers.server_token
    Servers.server_tokens Servers.servers
server_call-is_auth servers = refl
server_call-is_auth _ = refl

alert_call-is_auth :
    (c : AlertCall) → is_auth_path (render (alert_request c).path) ≡ concerns_session (alert_call c)
unfolding is_auth_path alert_request Notify.alert_resolve Notify.alerts Notify.health_check
    Notify.health_check_results Notify.health_checks Notify.notification_read Notify.notifications
    Notify.notifications_read_all
alert_call-is_auth (alerts a) = refl
alert_call-is_auth _ = refl

monitoring_call-is_auth :
    (c : MonitoringCall)
    → is_auth_path (render (monitoring_request c).path) ≡ concerns_session (monitoring_call c)
unfolding is_auth_path monitoring_request Servers.alertmanager_status Servers.monitoring_alerts
    Servers.monitoring_metrics Servers.monitoring_overview Servers.monitoring_silence
    Servers.monitoring_silences Servers.prometheus_query Servers.prometheus_query_range
    Servers.prometheus_rules Servers.prometheus_status Servers.prometheus_targets
monitoring_call-is_auth monitoring_overview = refl
monitoring_call-is_auth _ = refl

transfer_call-is_auth :
    (c : TransferCall)
    → is_auth_path (render (transfer_request c).path) ≡ concerns_session (transfer_call c)
unfolding is_auth_path transfer_request Transfers.transfers_activity Transfers.transfers_copy
    Transfers.transfers_delete Transfers.transfers_file_metadata Transfers.transfers_files
    Transfers.transfers_folder_size Transfers.transfers_mkdir Transfers.transfers_move
    Transfers.transfers_rename Transfers.transfers_search Transfers.transfers_storage
    Transfers.transfers_storage_breakdown Transfers.transfers_trash
    Transfers.transfers_trash_restore
transfer_call-is_auth (list a) = refl
transfer_call-is_auth _ = refl

backup_call-is_auth :
    (c : BackupCall)
    → is_auth_path (render (backup_request c).path) ≡ concerns_session (backup_call c)
unfolding is_auth_path backup_request DbBackups.db_backups_agent DbBackups.db_backups_agent_revoke
    DbBackups.db_backups_agent_rotate DbBackups.db_backups_agent_token DbBackups.db_backups_agents
    DbBackups.db_backups_connection DbBackups.db_backups_connection_test
    DbBackups.db_backups_connections DbBackups.db_backups_dashboard
    DbBackups.db_backups_enroll_token DbBackups.db_backups_enroll_tokens DbBackups.db_backups_job
    DbBackups.db_backups_job_disable DbBackups.db_backups_job_enable
    DbBackups.db_backups_job_preflight DbBackups.db_backups_job_run DbBackups.db_backups_jobs
    DbBackups.db_backups_machine DbBackups.db_backups_machines DbBackups.db_backups_policies
    DbBackups.db_backups_policy DbBackups.db_backups_restore DbBackups.db_backups_restores
    DbBackups.db_backups_run DbBackups.db_backups_run_artifacts DbBackups.db_backups_run_cancel
    DbBackups.db_backups_run_verify DbBackups.db_backups_runs DbBackups.db_backups_target
    DbBackups.db_backups_target_test DbBackups.db_backups_targets
backup_call-is_auth dashboard = refl
backup_call-is_auth _ = refl

-- `req` treats a path as an auth endpoint exactly for the calls about the session.
pub is_auth_path-request : (c : Call) → is_auth_path (render (request c).path) ≡ concerns_session c
unfolding request
is_auth_path-request (account_call c) = account_call-is_auth c
is_auth_path-request (project_call c) = project_call-is_auth c
is_auth_path-request (notify_call c) = notify_call-is_auth c
is_auth_path-request (deploy_call c) = deploy_call-is_auth c
is_auth_path-request (host_call c) = host_call-is_auth c
is_auth_path-request (user_call c) = user_call-is_auth c
is_auth_path-request (server_call c) = server_call-is_auth c
is_auth_path-request (alert_call c) = alert_call-is_auth c
is_auth_path-request (monitoring_call c) = monitoring_call-is_auth c
is_auth_path-request (transfer_call c) = transfer_call-is_auth c
is_auth_path-request (backup_call c) = backup_call-is_auth c

account_call-get :
    (c : AccountCall) → (account_request c).method ≡ get → (account_request c).body ≡ none
unfolding account_request
account_call-get (login a b) h = ground arith
account_call-get _ h = ground arith

project_call-get :
    (c : ProjectCall) → (project_request c).method ≡ get → (project_request c).body ≡ none
unfolding project_request
project_call-get projects h = ground arith
project_call-get _ h = ground arith

notify_call-get :
    (c : NotifyCall) → (notify_request c).method ≡ get → (notify_request c).body ≡ none
unfolding notify_request
notify_call-get notification_groups h = ground arith
notify_call-get _ h = ground arith

deploy_call-get :
    (c : DeployCall) → (deploy_request c).method ≡ get → (deploy_request c).body ≡ none
unfolding deploy_request
deploy_call-get (services a) h = ground arith
deploy_call-get _ h = ground arith

host_call-get : (c : HostCall) → (host_request c).method ≡ get → (host_request c).body ≡ none
unfolding host_request
host_call-get (telemetry a) h = ground arith
host_call-get _ h = ground arith

user_call-get : (c : UserCall) → (user_request c).method ≡ get → (user_request c).body ≡ none
unfolding user_request
user_call-get users h = ground arith
user_call-get _ h = ground arith

server_call-get :
    (c : ServerCall) → (server_request c).method ≡ get → (server_request c).body ≡ none
unfolding server_request
server_call-get servers h = ground arith
server_call-get _ h = ground arith

alert_call-get : (c : AlertCall) → (alert_request c).method ≡ get → (alert_request c).body ≡ none
unfolding alert_request
alert_call-get (alerts a) h = ground arith
alert_call-get _ h = ground arith

monitoring_call-get :
    (c : MonitoringCall) → (monitoring_request c).method ≡ get → (monitoring_request c).body ≡ none
unfolding monitoring_request
monitoring_call-get monitoring_overview h = ground arith
monitoring_call-get _ h = ground arith

transfer_call-get :
    (c : TransferCall) → (transfer_request c).method ≡ get → (transfer_request c).body ≡ none
unfolding transfer_request
transfer_call-get (list a) h = ground arith
transfer_call-get _ h = ground arith

backup_call-get :
    (c : BackupCall) → (backup_request c).method ≡ get → (backup_request c).body ≡ none
unfolding backup_request
backup_call-get dashboard h = ground arith
backup_call-get _ h = ground arith

-- No call sends a body with GET, which fetch refuses.
pub request-get : (c : Call) → (request c).method ≡ get → (request c).body ≡ none
unfolding request
request-get (account_call c) h = account_call-get c h
request-get (project_call c) h = project_call-get c h
request-get (notify_call c) h = notify_call-get c h
request-get (deploy_call c) h = deploy_call-get c h
request-get (host_call c) h = host_call-get c h
request-get (user_call c) h = user_call-get c h
request-get (server_call c) h = server_call-get c h
request-get (alert_call c) h = alert_call-get c h
request-get (monitoring_call c) h = monitoring_call-get c h
request-get (transfer_call c) h = transfer_call-get c h
request-get (backup_call c) h = backup_call-get c h
