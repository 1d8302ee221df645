-- ===== src/Api/Project.antt =====
-- client/src/lib/api.ts: the calls of `api` about projects, bulk lifecycle and notification channels.
use server_hub.Prelude.{ℕ, Bool, false, List, [], ◌∷◌, map, Option, some}
use server_hub.Text.{codes}
use server_hub.Json.{Json, num, str, bool, object, array}
use server_hub.Routing.{post, put}
use server_hub.Endpoints.Parts.{default}
use server_hub.Api.Request.{Request, fetched, sent, with_body}
use server_hub.Endpoints.Notify
use server_hub.Endpoints.Projects
use server_hub.Endpoints.Projects.{Lifecycle, action_name}

pub data ProjectCall : Type 0 where
  projects : ProjectCall
  project : ℕ → ProjectCall
  create_project : Json → ProjectCall
  project_action : ℕ → Lifecycle → Option Bool → ProjectCall
  bulk_lifecycle : List ℕ → Lifecycle → Option Bool → ProjectCall
  notify_settings : ProjectCall
  save_notify_settings : Json → ProjectCall
  test_notify : ProjectCall

unfoldable pub project_request : ProjectCall → Request
project_request projects = fetched Projects.projects
project_request (project id) = fetched (Projects.project id)
project_request (create_project p) = with_body post Projects.projects p
project_request (project_action id action confirm) =
    sent post (Projects.project_action id action (some (default false confirm)))
project_request (bulk_lifecycle ids action confirm) = with_body post Projects.bulk_lifecycle (
    object (
      ("ids", array (map num ids))
      ∷ ("action", str (codes (action_name action)))
      ∷ ("confirm", bool (default false confirm))
      ∷ []))
project_request notify_settings = fetched Notify.notify_settings
project_request (save_notify_settings body) = with_body put Notify.notify_settings body
project_request test_notify = sent post Notify.notify_test
