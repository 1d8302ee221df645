-- ===== src/Mobile/Calls.antt =====
-- mobile/src/api: the calls of authApi, dashboardApi, logsApi, monitoringApi, notificationsApi,
-- operationsApi, projectsApi, serversApi and alertsApi, as axios gets them.
pub mod Served
use server_hub.Prelude.{ℕ, [], ◌∷◌, Bool, false, Option, some}
use server_hub.Text.{Text, codes}
use server_hub.Json.{Json, str, object}
use server_hub.Routing.{post, put, patch, delete}
use server_hub.Endpoints.Parts.{default}
use server_hub.Endpoints.Host
use server_hub.Endpoints.Host.{LogsParams}
use server_hub.Endpoints.Projects
use server_hub.Endpoints.Projects.{Lifecycle}
use server_hub.Endpoints.Notify
use server_hub.Endpoints.Notify.{DeliveriesParams}
use server_hub.Endpoints.Servers
use server_hub.Api.Request.{Request, fetched, sent, with_body}

pub data MobileCall : Type 0 where
  login : Text → Text → MobileCall
  logout : MobileCall
  me : MobileCall
  change_password : Text → Text → MobileCall
  dashboard : MobileCall
  server : MobileCall
  audit : Option ℕ → MobileCall
  logs : LogsParams → MobileCall
  monitoring_overview : MobileCall
  prometheus_status : MobileCall
  alertmanager_status : MobileCall
  monitoring_alerts : MobileCall
  metric_history : Text → Option Text → Option Text → MobileCall
  targets : MobileCall
  rules : MobileCall
  silences : MobileCall
  create_silence : Json → MobileCall
  delete_silence : Text → MobileCall
  settings : MobileCall
  update_settings : Json → MobileCall
  test : MobileCall
  policy : MobileCall
  update_policy : Json → MobileCall
  deliveries : DeliveriesParams → MobileCall
  windows : MobileCall
  create_window : Json → MobileCall
  delete_window : ℕ → MobileCall
  operations : Option ℕ → MobileCall
  operation : Text → MobileCall
  projects : MobileCall
  project : ℕ → MobileCall
  services : ℕ → MobileCall
  deployments : ℕ → MobileCall
  action : ℕ → Lifecycle → Option Bool → MobileCall
  servers : MobileCall
  managed_server : ℕ → MobileCall
  metrics_latest : ℕ → MobileCall
  metrics : ℕ → Option Text → MobileCall
  groups : MobileCall
  alerts : Option Text → MobileCall
  resolve : ℕ → MobileCall
  notifications : MobileCall
  mark_read : ℕ → MobileCall
  mark_all_read : MobileCall

unfoldable pub mobile_request : MobileCall → Request
mobile_request (login username password) =
    with_body post Host.auth_token
      (object (("username", str username) ∷ ("password", str password) ∷ []))
mobile_request logout = sent post Host.auth_logout
mobile_request me = fetched Host.auth_me
mobile_request (change_password current_password new_password) =
    with_body put Host.auth_password
      (object (("currentPassword", str current_password) ∷ ("newPassword", str new_password) ∷ []))
mobile_request dashboard = fetched Host.dashboard
mobile_request server = fetched Host.server
mobile_request (audit limit) = fetched (Host.audit (some (default 8 limit)))
mobile_request (logs params) = fetched (Host.logs params)
mobile_request monitoring_overview = fetched Servers.monitoring_overview
mobile_request prometheus_status = fetched Servers.prometheus_status
mobile_request alertmanager_status = fetched Servers.alertmanager_status
mobile_request monitoring_alerts = fetched Servers.monitoring_alerts
mobile_request (metric_history metric range step) = fetched (
    Servers.monitoring_metrics metric (some (default (codes "1h") range))
      (some (default (codes "60") step)))
mobile_request targets = fetched Servers.prometheus_targets
mobile_request rules = fetched Servers.prometheus_rules
mobile_request silences = fetched Servers.monitoring_silences
mobile_request (create_silence body) = with_body post Servers.monitoring_silences body
mobile_request (delete_silence id) = sent delete (Servers.monitoring_silence id)
mobile_request settings = fetched Notify.notify_settings
mobile_request (update_settings body) = with_body put Notify.notify_settings body
mobile_request test = with_body post Notify.notify_test (object [])
mobile_request policy = fetched Notify.notification_policy
mobile_request (update_policy body) = with_body put Notify.notification_policy body
mobile_request (deliveries params) = fetched (Notify.notification_deliveries params)
mobile_request windows = fetched Notify.maintenance_windows
mobile_request (create_window body) = with_body post Notify.maintenance_windows body
mobile_request (delete_window id) = sent delete (Notify.maintenance_window id)
mobile_request (operations limit) = fetched (Host.operations (some (default 20 limit)))
mobile_request (operation id) = fetched (Host.operation id)
mobile_request projects = fetched Projects.projects
mobile_request (project id) = fetched (Projects.project id)
mobile_request (services project_id) = fetched (Projects.project_services project_id)
mobile_request (deployments project_id) = fetched (Projects.project_deployments project_id)
mobile_request (action id verb confirm) =
    sent post (Projects.project_action id verb (some (default false confirm)))
mobile_request servers = fetched Servers.servers
mobile_request (managed_server id) = fetched (Servers.server_by_id id)
mobile_request (metrics_latest id) = fetched (Servers.server_metrics_latest id)
mobile_request (metrics id range) =
    fetched (Servers.server_metrics id (some (default (codes "1h") range)))
mobile_request groups = fetched Servers.server_groups
mobile_request (alerts status) = fetched (Notify.alerts status)
mobile_request (resolve id) = sent patch (Notify.alert_resolve id)
mobile_request notifications = fetched Notify.notifications
mobile_request (mark_read id) = sent patch (Notify.notification_read id)
mobile_request mark_all_read = sent post Notify.notifications_read_all
