-- ===== src/Mobile/Calls/Served.antt =====
-- Every call of mobile/src/api meets a route of server/cmd/server/main.go, and asks for the access that the
-- route asks for.
use server_hub.Prelude.{Bool, true, false, none, some, [], ◌∷◌, refl}
use server_hub.Routing.{Access, public, session, viewer, operator, admin, lit}
use server_hub.Routing.Sound.{IsNamed, IsSegment, IsRaw, raw-IsPlain, show-IsPlain, encode-IsPlain}
use server_hub.Api.Served.{Served, served, Served-suffix}
use server_hub.Server.Routes.{routes}
use server_hub.Endpoints.Parts.{api}
use server_hub.Endpoints.Host
use server_hub.Endpoints.Projects
use server_hub.Endpoints.Projects.{start, stop, restart}
use server_hub.Endpoints.Notify
use server_hub.Endpoints.Servers
use server_hub.Mobile.Calls.{
  MobileCall, mobile_request, action, alertmanager_status, alerts, audit, change_password,
  create_silence, create_window, dashboard, delete_silence, delete_window, deliveries, deployments,
  groups, login, logout, logs, managed_server, mark_all_read, mark_read, me, metric_history,
  metrics, metrics_latest, monitoring_alerts, monitoring_overview, notifications, operation,
  operations, policy, project, projects, prometheus_status, resolve, rules, server, servers,
  services, settings, silences, targets, test, update_policy, update_settings, windows,
}

-- The access that the server asks for the call.
abbrev pub mobile_access : MobileCall → Access
mobile_access (login username password) = public
mobile_access logout = session
mobile_access me = session
mobile_access (change_password current_password new_password) = session
mobile_access dashboard = viewer
mobile_access server = viewer
mobile_access (audit limit) = viewer
mobile_access monitoring_overview = viewer
mobile_access prometheus_status = viewer
mobile_access alertmanager_status = viewer
mobile_access monitoring_alerts = viewer
mobile_access (metric_history metric range step) = viewer
mobile_access targets = viewer
mobile_access rules = viewer
mobile_access silences = viewer
mobile_access (create_silence body) = operator
mobile_access (delete_silence id) = operator
mobile_access settings = viewer
mobile_access (update_settings body) = admin
mobile_access test = admin
mobile_access policy = viewer
mobile_access (update_policy body) = admin
mobile_access windows = viewer
mobile_access (create_window body) = operator
mobile_access (delete_window id) = admin
mobile_access (operations limit) = viewer
mobile_access (operation id) = viewer
mobile_access projects = viewer
mobile_access (project id) = viewer
mobile_access (services id) = viewer
mobile_access (deployments id) = viewer
mobile_access (action id start confirm) = operator
mobile_access (action id stop confirm) = admin
mobile_access (action id restart confirm) = admin
mobile_access servers = viewer
mobile_access (managed_server id) = viewer
mobile_access (metrics_latest id) = viewer
mobile_access (metrics id range) = viewer
mobile_access groups = viewer
mobile_access (alerts status) = viewer
mobile_access (resolve id) = operator
mobile_access notifications = viewer
mobile_access (mark_read id) = viewer
mobile_access mark_all_read = viewer
mobile_access (logs given) = viewer
mobile_access (deliveries given) = viewer

-- The texts that the call puts into the path are proper.
abbrev pub ProperMobile : MobileCall → Type 0
ProperMobile (delete_silence id) = IsSegment id
ProperMobile (operation id) = IsRaw id × IsNamed id
ProperMobile _ = Unit

-- Every call of the mobile client with proper arguments meets a route of the server with its method,
-- with the file transfers or without.
pub mobile_call-Served :
    (files : Bool) (c : MobileCall)
    → ProperMobile c
    → Served (mobile_access c) (routes files) (mobile_request c)
unfolding mobile_request routes Host.audit Host.auth_logout Host.auth_me Host.auth_password
    Host.auth_token Host.dashboard Host.logs Host.operation Host.operations Host.server
    Notify.alert_resolve Notify.alerts Notify.maintenance_window Notify.maintenance_windows
    Notify.notification_deliveries Notify.notification_policy Notify.notification_read
    Notify.notifications Notify.notifications_read_all Notify.notify_settings Notify.notify_test
    Projects.project Projects.project_action Projects.project_deployments Projects.project_services
    Projects.projects Servers.alertmanager_status Servers.monitoring_alerts
    Servers.monitoring_metrics Servers.monitoring_overview Servers.monitoring_silence
    Servers.monitoring_silences Servers.prometheus_rules Servers.prometheus_status
    Servers.prometheus_targets Servers.server_by_id Servers.server_groups Servers.server_metrics
    Servers.server_metrics_latest Servers.servers
mobile_call-Served files (login username password) h =
    served public (routes files) (mobile_request (login username password)) refl tt
mobile_call-Served files logout h = served session (routes files) (mobile_request logout) refl tt
mobile_call-Served files me h = served session (routes files) (mobile_request me) refl tt
mobile_call-Served files (change_password current_password new_password) h =
    served session (routes files) (mobile_request (change_password current_password new_password))
      refl tt
mobile_call-Served files dashboard h =
    served viewer (routes files) (mobile_request dashboard) refl tt
mobile_call-Served files server h = served viewer (routes files) (mobile_request server) refl tt
mobile_call-Served files (audit limit) h =
    served viewer (routes files) (mobile_request (audit limit)) refl tt
mobile_call-Served files monitoring_overview h =
    served viewer (routes files) (mobile_request monitoring_overview) refl tt
mobile_call-Served files prometheus_status h =
    served viewer (routes files) (mobile_request prometheus_status) refl tt
mobile_call-Served files alertmanager_status h =
    served viewer (routes files) (mobile_request alertmanager_status) refl tt
mobile_call-Served files monitoring_alerts h =
    served viewer (routes files) (mobile_request monitoring_alerts) refl tt
mobile_call-Served files (metric_history metric range step) h =
    served viewer (routes files) (mobile_request (metric_history metric range step)) refl tt
mobile_call-Served files targets h = served viewer (routes files) (mobile_request targets) refl tt
mobile_call-Served files rules h = served viewer (routes files) (mobile_request rules) refl tt
mobile_call-Served files silences h = served viewer (routes files) (mobile_request silences) refl tt
mobile_call-Served files (create_silence body) h =
    served operator (routes files) (mobile_request (create_silence body)) refl tt
mobile_call-Served files (delete_silence id) h =
    served operator (routes files) (mobile_request (delete_silence id)) refl
      (encode-IsPlain id h, tt)
mobile_call-Served files settings h = served viewer (routes files) (mobile_request settings) refl tt
mobile_call-Served files (update_settings body) h =
    served admin (routes files) (mobile_request (update_settings body)) refl tt
mobile_call-Served files test h = served admin (routes files) (mobile_request test) refl tt
mobile_call-Served files policy h = served viewer (routes files) (mobile_request policy) refl tt
mobile_call-Served files (update_policy body) h =
    served admin (routes files) (mobile_request (update_policy body)) refl tt
mobile_call-Served files windows h = served viewer (routes files) (mobile_request windows) refl tt
mobile_call-Served files (create_window body) h =
    served operator (routes files) (mobile_request (create_window body)) refl tt
mobile_call-Served files (delete_window id) h =
    served admin (routes files) (mobile_request (delete_window id)) refl (show-IsPlain id, tt)
mobile_call-Served files (operations limit) h =
    served viewer (routes files) (mobile_request (operations limit)) refl tt
mobile_call-Served files (operation id) h =
    served viewer (routes files) (mobile_request (operation id)) refl (raw-IsPlain id h.0, tt)
mobile_call-Served files projects h = served viewer (routes files) (mobile_request projects) refl tt
mobile_call-Served files (project id) h =
    served viewer (routes files) (mobile_request (project id)) refl (show-IsPlain id, tt)
mobile_call-Served files (services id) h =
    served viewer (routes files) (mobile_request (services id)) refl (show-IsPlain id, tt)
mobile_call-Served files (deployments id) h =
    served viewer (routes files) (mobile_request (deployments id)) refl (show-IsPlain id, tt)
mobile_call-Served files (action id start none) h =
    served operator (routes files) (mobile_request (action id start none)) refl
      (show-IsPlain id, tt)
mobile_call-Served files (action id start (some true)) h =
    served operator (routes files) (mobile_request (action id start (some true))) refl
      (show-IsPlain id, tt)
mobile_call-Served files (action id start (some false)) h =
    served operator (routes files) (mobile_request (action id start (some false))) refl
      (show-IsPlain id, tt)
mobile_call-Served files (action id stop none) h =
    served admin (routes files) (mobile_request (action id stop none)) refl (show-IsPlain id, tt)
mobile_call-Served files (action id stop (some true)) h =
    served admin (routes files) (mobile_request (action id stop (some true))) refl
      (show-IsPlain id, tt)
mobile_call-Served files (action id stop (some false)) h =
    served admin (routes files) (mobile_request (action id stop (some false))) refl
      (show-IsPlain id, tt)
mobile_call-Served files (action id restart none) h =
    served admin (routes files) (mobile_request (action id restart none)) refl (show-IsPlain id, tt)
mobile_call-Served files (action id restart (some true)) h =
    served admin (routes files) (mobile_request (action id restart (some true))) refl
      (show-IsPlain id, tt)
mobile_call-Served files (action id restart (some false)) h =
    served admin (routes files) (mobile_request (action id restart (some false))) refl
      (show-IsPlain id, tt)
mobile_call-Served files servers h = served viewer (routes files) (mobile_request servers) refl tt
mobile_call-Served files (managed_server id) h =
    served viewer (routes files) (mobile_request (managed_server id)) refl (show-IsPlain id, tt)
mobile_call-Served files (metrics_latest id) h =
    served viewer (routes files) (mobile_request (metrics_latest id)) refl (show-IsPlain id, tt)
mobile_call-Served files (metrics id range) h =
    served viewer (routes files) (mobile_request (metrics id range)) refl (show-IsPlain id, tt)
mobile_call-Served files groups h = served viewer (routes files) (mobile_request groups) refl tt
mobile_call-Served files (alerts none) h =
    served viewer (routes files) (mobile_request (alerts none)) refl tt
mobile_call-Served files (alerts (some [])) h =
    served viewer (routes files) (mobile_request (alerts (some []))) refl tt
mobile_call-Served files (alerts (some (c ∷ s))) h =
    served viewer (routes files) (mobile_request (alerts (some (c ∷ s)))) refl tt
mobile_call-Served files (resolve id) h =
    served operator (routes files) (mobile_request (resolve id)) refl (show-IsPlain id, tt)
mobile_call-Served files notifications h =
    served viewer (routes files) (mobile_request notifications) refl tt
mobile_call-Served files (mark_read id) h =
    served viewer (routes files) (mobile_request (mark_read id)) refl (show-IsPlain id, tt)
mobile_call-Served files mark_all_read h =
    served viewer (routes files) (mobile_request mark_all_read) refl tt
mobile_call-Served files (logs given) h =
    Served-suffix viewer (routes files) api (lit "/logs") (Host.logs_query given) refl refl tt tt
mobile_call-Served files (deliveries given) h =
    Served-suffix viewer (routes files) api (lit "/notification-deliveries")
      (Notify.notification_deliveries_query given) refl refl tt tt
