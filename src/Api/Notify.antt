-- ===== src/Api/Notify.antt =====
-- client/src/lib/api.ts: the calls of `api` about notification groups and rules.
use server_hub.Prelude.{ℕ, [], ◌∷◌, Option}
use server_hub.Text.{Text}
use server_hub.Json.{Json, str, object}
use server_hub.Routing.{post, patch, delete}
use server_hub.Endpoints.Parts.{default}
use server_hub.Api.Request.{Request, fetched, sent, with_body}
use server_hub.Endpoints.Notify

pub data NotifyCall : Type 0 where
  notification_groups : NotifyCall
  notification_group : ℕ → NotifyCall
  create_notification_group : Text → Option Text → NotifyCall
  update_notification_group : ℕ → Json → NotifyCall
  delete_notification_group : ℕ → NotifyCall
  add_group_member : ℕ → Text → NotifyCall
  remove_group_member : ℕ → ℕ → NotifyCall
  notification_rules : NotifyCall
  notification_rule : ℕ → NotifyCall
  create_notification_rule : Json → NotifyCall
  update_notification_rule : ℕ → Json → NotifyCall
  delete_notification_rule : ℕ → NotifyCall

unfoldable pub notify_request : NotifyCall → Request
notify_request notification_groups = fetched Notify.notification_groups
notify_request (notification_group id) = fetched (Notify.notification_group id)
notify_request (create_notification_group name description) =
    with_body post Notify.notification_groups
      (object (("name", str name) ∷ ("description", str (default [] description)) ∷ []))
notify_request (update_notification_group id body) =
    with_body patch (Notify.notification_group id) body
notify_request (delete_notification_group id) = sent delete (Notify.notification_group id)
notify_request (add_group_member id email) =
    with_body post (Notify.notification_group_members id) (object (("email", str email) ∷ []))
notify_request (remove_group_member id member_id) =
    sent delete (Notify.notification_group_member id member_id)
notify_request notification_rules = fetched Notify.notification_rules
notify_request (notification_rule id) = fetched (Notify.notification_rule id)
notify_request (create_notification_rule body) = with_body post Notify.notification_rules body
notify_request (update_notification_rule id body) =
    with_body patch (Notify.notification_rule id) body
notify_request (delete_notification_rule id) = sent delete (Notify.notification_rule id)
