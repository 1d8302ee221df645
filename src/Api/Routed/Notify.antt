-- ===== src/Api/Routed/Notify.antt =====
-- Every call of client/src/lib/api.ts about notification groups and rules meets a
-- route of server/cmd/server/main.go.
use server_hub.Prelude.{Bool, refl}
use server_hub.Routing.{Access, viewer, operator, admin}
use server_hub.Routing.Sound.{show-IsPlain}
use server_hub.Api.Served.{Served, served}
use server_hub.Server.Routes.{routes}
use server_hub.Endpoints.Notify
use server_hub.Api.Notify.{
  NotifyCall, notification_groups, notification_group, create_notification_group,
  update_notification_group, delete_notification_group, add_group_member, remove_group_member,
  notification_rules, notification_rule, create_notification_rule, update_notification_rule,
  delete_notification_rule, notify_request,
}

-- The access that the server asks for the call.
abbrev pub notify_access : NotifyCall → Access
notify_access notification_groups = viewer
notify_access (notification_group id) = viewer
notify_access (create_notification_group name description) = operator
notify_access (update_notification_group id body) = operator
notify_access (delete_notification_group id) = admin
notify_access (add_group_member id email) = operator
notify_access (remove_group_member id member_id) = operator
notify_access notification_rules = viewer
notify_access (notification_rule id) = viewer
notify_access (create_notification_rule body) = operator
notify_access (update_notification_rule id body) = operator
notify_access (delete_notification_rule id) = admin

pub notify_call-Served :
    (files : Bool) (c : NotifyCall) → Served (notify_access c) (routes files) (notify_request c)
unfolding notify_request routes Notify.notification_group Notify.notification_group_member
    Notify.notification_group_members Notify.notification_groups Notify.notification_rule
    Notify.notification_rules
notify_call-Served files notification_groups =
    served viewer (routes files) (notify_request notification_groups) refl tt
notify_call-Served files (notification_group id) =
    served viewer (routes files) (notify_request (notification_group id)) refl (show-IsPlain id, tt)
notify_call-Served files (create_notification_group name description) =
    served operator (routes files) (notify_request (create_notification_group name description))
      refl tt
notify_call-Served files (update_notification_group id body) =
    served operator (routes files) (notify_request (update_notification_group id body)) refl
      (show-IsPlain id, tt)
notify_call-Served files (delete_notification_group id) =
    served admin (routes files) (notify_request (delete_notification_group id)) refl
      (show-IsPlain id, tt)
notify_call-Served files (add_group_member id email) =
    served operator (routes files) (notify_request (add_group_member id email)) refl
      (show-IsPlain id, tt)
notify_call-Served files (remove_group_member id member_id) =
    served operator (routes files) (notify_request (remove_group_member id member_id)) refl
      (show-IsPlain id, (show-IsPlain member_id, tt))
notify_call-Served files notification_rules =
    served viewer (routes files) (notify_request notification_rules) refl tt
notify_call-Served files (notification_rule id) =
    served viewer (routes files) (notify_request (notification_rule id)) refl (show-IsPlain id, tt)
notify_call-Served files (create_notification_rule body) =
    served operator (routes files) (notify_request (create_notification_rule body)) refl tt
notify_call-Served files (update_notification_rule id body) =
    served operator (routes files) (notify_request (update_notification_rule id body)) refl
      (show-IsPlain id, tt)
notify_call-Served files (delete_notification_rule id) =
    served admin (routes files) (notify_request (delete_notification_rule id)) refl
      (show-IsPlain id, tt)
