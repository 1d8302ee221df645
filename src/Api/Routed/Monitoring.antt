-- ===== src/Api/Routed/Monitoring.antt =====
-- Every call of client/src/lib/api.ts about monitoring meets a
-- route of server/cmd/server/main.go.
use server_hub.Prelude.{Bool, refl}
use server_hub.Routing.{Access, viewer, operator, admin}
use server_hub.Routing.Sound.{IsSegment, encode-IsPlain}
use server_hub.Api.Served.{Served, served}
use server_hub.Server.Routes.{routes}
use server_hub.Endpoints.Servers
use server_hub.Api.Monitoring.{
  MonitoringCall, monitoring_overview, prometheus_status, prometheus_targets, prometheus_rules,
  prometheus_query, prometheus_query_range, monitoring_metrics, alertmanager_status,
  monitoring_alerts, monitoring_silences, create_silence, delete_silence, monitoring_request,
}

-- The access that the server asks for the call.
abbrev pub monitoring_access : MonitoringCall → Access
monitoring_access monitoring_overview = viewer
monitoring_access prometheus_status = viewer
monitoring_access prometheus_targets = viewer
monitoring_access prometheus_rules = viewer
monitoring_access (prometheus_query query) = admin
monitoring_access (prometheus_query_range seconds query range step) = admin
monitoring_access (monitoring_metrics metric range step) = viewer
monitoring_access alertmanager_status = viewer
monitoring_access monitoring_alerts = viewer
monitoring_access monitoring_silences = viewer
monitoring_access (create_silence body) = operator
monitoring_access (delete_silence id) = operator

-- The texts that the call puts into the path are proper.
abbrev pub ProperMonitoring : MonitoringCall → Type 0
ProperMonitoring (delete_silence id) = IsSegment id
ProperMonitoring _ = Unit

pub monitoring_call-Served :
    (files : Bool) (c : MonitoringCall)
    → ProperMonitoring c
    → Served (monitoring_access c) (routes files) (monitoring_request c)
unfolding monitoring_request routes Servers.alertmanager_status Servers.monitoring_alerts
    Servers.monitoring_metrics Servers.monitoring_overview Servers.monitoring_silence
    Servers.monitoring_silences Servers.prometheus_query Servers.prometheus_query_range
    Servers.prometheus_rules Servers.prometheus_status Servers.prometheus_targets
monitoring_call-Served files monitoring_overview h =
    served viewer (routes files) (monitoring_request monitoring_overview) refl tt
monitoring_call-Served files prometheus_status h =
    served viewer (routes files) (monitoring_request prometheus_status) refl tt
monitoring_call-Served files prometheus_targets h =
    served viewer (routes files) (monitoring_request prometheus_targets) refl tt
monitoring_call-Served files prometheus_rules h =
    served viewer (routes files) (monitoring_request prometheus_rules) refl tt
monitoring_call-Served files (prometheus_query query) h =
    served admin (routes files) (monitoring_request (prometheus_query query)) refl tt
monitoring_call-Served files (prometheus_query_range seconds query range step) h =
    served admin (routes files)
      (monitoring_request (prometheus_query_range seconds query range step)) refl tt
monitoring_call-Served files (monitoring_metrics metric range step) h =
    served viewer (routes files) (monitoring_request (monitoring_metrics metric range step)) refl tt
monitoring_call-Served files alertmanager_status h =
    served viewer (routes files) (monitoring_request alertmanager_status) refl tt
monitoring_call-Served files monitoring_alerts h =
    served viewer (routes files) (monitoring_request monitoring_alerts) refl tt
monitoring_call-Served files monitoring_silences h =
    served viewer (routes files) (monitoring_request monitoring_silences) refl tt
monitoring_call-Served files (create_silence body) h =
    served operator (routes files) (monitoring_request (create_silence body)) refl tt
monitoring_call-Served files (delete_silence id) h =
    served operator (routes files) (monitoring_request (delete_silence id)) refl
      (encode-IsPlain id h, tt)
