-- ===== src/Api/Alert.antt =====
-- client/src/lib/api.ts: the calls of `api` about alerts, notifications and health checks.
use server_hub.Prelude.{ℕ, Option}
use server_hub.Text.{Text}
use server_hub.Json.{Json}
use server_hub.Routing.{post, patch, delete}
use server_hub.Api.Request.{Request, fetched, sent, with_body}
use server_hub.Endpoints.Notify

pub data AlertCall : Type 0 where
  alerts : Option Text → AlertCall
  resolve_alert : ℕ → AlertCall
  notifications : AlertCall
  mark_notification_read : ℕ → AlertCall
  mark_all_notifications_read : AlertCall
  health_checks : AlertCall
  create_health_check : Json → AlertCall
  update_health_check : ℕ → Json → AlertCall
  delete_health_check : ℕ → AlertCall
  health_check_results : ℕ → AlertCall

unfoldable pub alert_request : AlertCall → Request
alert_request (alerts status) = fetched (Notify.alerts status)
alert_request (resolve_alert id) = sent patch (Notify.alert_resolve id)
alert_request notifications = fetched Notify.notifications
alert_request (mark_notification_read id) = sent patch (Notify.notification_read id)
alert_request mark_all_notifications_read = sent post Notify.notifications_read_all
alert_request health_checks = fetched Notify.health_checks
alert_request (create_health_check body) = with_body post Notify.health_checks body
alert_request (update_health_check id body) = with_body patch (Notify.health_check id) body
alert_request (delete_health_check id) = sent delete (Notify.health_check id)
alert_request (health_check_results id) = fetched (Notify.health_check_results id)
