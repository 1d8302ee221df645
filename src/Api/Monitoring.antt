-- ===== src/Api/Monitoring.antt =====
-- client/src/lib/api.ts: the calls of `api` about monitoring.
use server_hub.Prelude.{◌-◌, ltb, if◌then◌else◌, ℕ, ◌∷◌, Option, some}
use server_hub.Text.{Text, codes, eqb}
use server_hub.Text.Decimal.{show}
use server_hub.Json.{Json}
use server_hub.Routing.{post, delete}
use server_hub.Endpoints.Parts.{default}
use server_hub.Api.Request.{Request, fetched, sent, with_body}
use server_hub.Endpoints.Servers

-- The seconds of a named range; an unknown one is an hour.
range_seconds : Text → ℕ
range_seconds r =
    if eqb r (codes "1h")
    then 3600
    else if eqb r (codes "6h")
    then 21600
    else if eqb r (codes "24h")
    then 86400
    else if eqb r (codes "7d")
    then 604800
    else 3600

-- `String(a - b)`
show_sub : ℕ → ℕ → Text
show_sub a b = if ltb a b then b'-' ∷ show (b - a) else show (a - b)

pub data MonitoringCall : Type 0 where
  monitoring_overview : MonitoringCall
  prometheus_status : MonitoringCall
  prometheus_targets : MonitoringCall
  prometheus_rules : MonitoringCall
  prometheus_query : Text → MonitoringCall
  prometheus_query_range : ℕ → Text → Text → Option Text → MonitoringCall
  monitoring_metrics : Text → Option Text → Option Text → MonitoringCall
  alertmanager_status : MonitoringCall
  monitoring_alerts : MonitoringCall
  monitoring_silences : MonitoringCall
  create_silence : Json → MonitoringCall
  delete_silence : Text → MonitoringCall

unfoldable pub monitoring_request : MonitoringCall → Request
unfolding range_seconds show_sub
monitoring_request monitoring_overview = fetched Servers.monitoring_overview
monitoring_request prometheus_status = fetched Servers.prometheus_status
monitoring_request prometheus_targets = fetched Servers.prometheus_targets
monitoring_request prometheus_rules = fetched Servers.prometheus_rules
monitoring_request (prometheus_query query) = fetched (Servers.prometheus_query query)
-- `seconds` is Math.floor(Date.now() / 1000).
monitoring_request (prometheus_query_range seconds query range step) = fetched (
    Servers.prometheus_query_range query (show_sub seconds (range_seconds range)) (show seconds)
      (some (default (codes "60") step)))
monitoring_request (monitoring_metrics metric range step) = fetched (
    Servers.monitoring_metrics metric (some (default (codes "1h") range))
      (some (default (codes "60") step)))
monitoring_request alertmanager_status = fetched Servers.alertmanager_status
monitoring_request monitoring_alerts = fetched Servers.monitoring_alerts
monitoring_request monitoring_silences = fetched Servers.monitoring_silences
monitoring_request (create_silence body) = with_body post Servers.monitoring_silences body
monitoring_request (delete_silence id) = sent delete (Servers.monitoring_silence id)
