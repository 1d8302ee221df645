-- ===== src/Api/Calls.antt =====
-- client/src/lib/api.ts: all the calls of `api`, `transfersApi` and `dbBackupsApi` together.
pub mod Methods
use server_hub.Prelude.{Bool, true, ◌≡◌}
use server_hub.Routing.{Access, Method, get, delete, viewer, admin}
use server_hub.Api.Request.{Request}
use server_hub.Api.Served.{Served}
use server_hub.Server.Routes.{routes}
use server_hub.Api.Account.{AccountCall, account_request}
use server_hub.Api.Project.{ProjectCall, project_request}
use server_hub.Api.Notify.{NotifyCall, notify_request}
use server_hub.Api.Deploy.{DeployCall, deploy_request}
use server_hub.Api.Host.{HostCall, host_request}
use server_hub.Api.User.{UserCall, user_request}
use server_hub.Api.Server.{ServerCall, server_request}
use server_hub.Api.Alert.{AlertCall, alert_request}
use server_hub.Api.Monitoring.{MonitoringCall, monitoring_request}
use server_hub.Api.Transfer.{TransferCall, transfer_request}
use server_hub.Api.Backup.{BackupCall, backup_request}
use server_hub.Api.Routed.Account.{account_access, account_call-Served}
use server_hub.Api.Routed.Project.{project_access, project_call-Served}
use server_hub.Api.Routed.Notify.{notify_access, notify_call-Served}
use server_hub.Api.Routed.Deploy.{deploy_access, deploy_call-Served}
use server_hub.Api.Routed.Host.{ProperHost, host_access, host_call-Served}
use server_hub.Api.Routed.User.{ProperUser, user_access, user_call-Served}
use server_hub.Api.Routed.Server.{server_access, server_call-Served}
use server_hub.Api.Routed.Alert.{alert_access, alert_call-Served}
use server_hub.Api.Routed.Monitoring.{ProperMonitoring, monitoring_access, monitoring_call-Served}
use server_hub.Api.Routed.Transfer.{transfer_access, transfer_call-Served}
use server_hub.Api.Routed.Backup.{ProperBackup, backup_access, backup_call-Served}

pub data Call : Type 0 where
  account_call : AccountCall → Call
  project_call : ProjectCall → Call
  notify_call : NotifyCall → Call
  deploy_call : DeployCall → Call
  host_call : HostCall → Call
  user_call : UserCall → Call
  server_call : ServerCall → Call
  alert_call : AlertCall → Call
  monitoring_call : MonitoringCall → Call
  transfer_call : TransferCall → Call
  backup_call : BackupCall → Call

unfoldable pub request : Call → Request
unfolding account_request project_request notify_request deploy_request host_request user_request
    server_request alert_request monitoring_request transfer_request backup_request
request (account_call c) = account_request c
request (project_call c) = project_request c
request (notify_call c) = notify_request c
request (deploy_call c) = deploy_request c
request (host_call c) = host_request c
request (user_call c) = user_request c
request (server_call c) = server_request c
request (alert_call c) = alert_request c
request (monitoring_call c) = monitoring_request c
request (transfer_call c) = transfer_request c
request (backup_call c) = backup_request c

-- The access that the server asks for a call.
abbrev pub access : Call → Access
access (account_call c) = account_access c
access (project_call c) = project_access c
access (notify_call c) = notify_access c
access (deploy_call c) = deploy_access c
access (host_call c) = host_access c
access (user_call c) = user_access c
access (server_call c) = server_access c
access (alert_call c) = alert_access c
access (monitoring_call c) = monitoring_access c
access (transfer_call c) = transfer_access c
access (backup_call c) = backup_access c

-- The texts that a call puts into its path fill a segment.
abbrev pub IsProper : Call → Type 0
IsProper (host_call c) = ProperHost c
IsProper (user_call c) = ProperUser c
IsProper (monitoring_call c) = ProperMonitoring c
IsProper (backup_call c) = ProperBackup c
IsProper _ = Unit

-- Every call of the web client with proper arguments meets a route of the server with the same
-- method, where the file transfers are enabled; the route asks for the access of the table `access`.
pub call-Served : (c : Call) → IsProper c → Served (access c) (routes true) (request c)
unfolding request
call-Served (account_call c) h = account_call-Served true c
call-Served (project_call c) h = project_call-Served true c
call-Served (notify_call c) h = notify_call-Served true c
call-Served (deploy_call c) h = deploy_call-Served true c
call-Served (host_call c) h = host_call-Served true c h
call-Served (user_call c) h = user_call-Served true c h
call-Served (server_call c) h = server_call-Served true c
call-Served (alert_call c) h = alert_call-Served true c
call-Served (monitoring_call c) h = monitoring_call-Served true c h
call-Served (transfer_call c) h = transfer_call-Served c
call-Served (backup_call c) h = backup_call-Served true c h
