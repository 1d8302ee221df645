-- ===== src/Api/Routed/Alert.antt =====
-- Every call of client/src/lib/api.ts about alerts, notifications and health checks meets a
-- route of server/cmd/server/main.go.
use server_hub.Prelude.{Bool, refl, [], ◌∷◌, none, some}
use server_hub.Routing.{Access, viewer, operator, admin}
use server_hub.Routing.Sound.{show-IsPlain}
use server_hub.Api.Served.{Served, served}
use server_hub.Server.Routes.{routes}
use server_hub.Endpoints.Notify
use server_hub.Api.Alert.{
  AlertCall, alerts, resolve_alert, notifications, mark_notification_read,
  mark_all_notifications_read, health_checks, create_health_check, update_health_check,
  delete_health_check, health_check_results, alert_request,
}

-- The access that the server asks for the call.
abbrev pub alert_access : AlertCall → Access
alert_access (alerts status) = viewer
alert_access (resolve_alert id) = operator
alert_access notifications = viewer
alert_access (mark_notification_read id) = viewer
alert_access mark_all_notifications_read = viewer
alert_access health_checks = viewer
alert_access (create_health_check body) = operator
alert_access (update_health_check id body) = operator
alert_access (delete_health_check id) = admin
alert_access (health_check_results id) = viewer

pub alert_call-Served :
    (files : Bool) (c : AlertCall) → Served (alert_access c) (routes files) (alert_request c)
unfolding alert_request routes Notify.alert_resolve Notify.alerts Notify.health_check
    Notify.health_check_results Notify.health_checks Notify.notification_read Notify.notifications
    Notify.notifications_read_all
alert_call-Served files (alerts none) =
    served viewer (routes files) (alert_request (alerts none)) refl tt
alert_call-Served files (alerts (some [])) =
    served viewer (routes files) (alert_request (alerts (some []))) refl tt
alert_call-Served files (alerts (some (c ∷ s))) =
    served viewer (routes files) (alert_request (alerts (some (c ∷ s)))) refl tt
alert_call-Served files (resolve_alert id) =
    served operator (routes files) (alert_request (resolve_alert id)) refl (show-IsPlain id, tt)
alert_call-Served files notifications =
    served viewer (routes files) (alert_request notifications) refl tt
alert_call-Served files (mark_notification_read id) =
    served viewer (routes files) (alert_request (mark_notification_read id)) refl
      (show-IsPlain id, tt)
alert_call-Served files mark_all_notifications_read =
    served viewer (routes files) (alert_request mark_all_notifications_read) refl tt
alert_call-Served files health_checks =
    served viewer (routes files) (alert_request health_checks) refl tt
alert_call-Served files (create_health_check body) =
    served operator (routes files) (alert_request (create_health_check body)) refl tt
alert_call-Served files (update_health_check id body) =
    served operator (routes files) (alert_request (update_health_check id body)) refl
      (show-IsPlain id, tt)
alert_call-Served files (delete_health_check id) =
    served admin (routes files) (alert_request (delete_health_check id)) refl (show-IsPlain id, tt)
alert_call-Served files (health_check_results id) =
    served viewer (routes files) (alert_request (health_check_results id)) refl
      (show-IsPlain id, tt)
