-- ===== src/Api/Routed/Project.antt =====
-- Every call of client/src/lib/api.ts about projects and notification channels meets a
-- route of server/cmd/server/main.go.
use server_hub.Prelude.{Bool, true, false, refl, none, some}
use server_hub.Routing.{Access, viewer, operator, admin}
use server_hub.Routing.Sound.{show-IsPlain}
use server_hub.Api.Served.{Served, served}
use server_hub.Server.Routes.{routes}
use server_hub.Endpoints.Projects
use server_hub.Endpoints.Notify
use server_hub.Endpoints.Projects.{start, stop, restart}
use server_hub.Api.Project.{
  ProjectCall, projects, project, create_project, project_action, bulk_lifecycle, notify_settings,
  save_notify_settings, test_notify, project_request,
}

-- The access that the server asks for the call.
abbrev pub project_access : ProjectCall → Access
project_access projects = viewer
project_access (project id) = viewer
project_access (create_project p) = operator
project_access (project_action id start confirm) = operator
project_access (project_action id stop confirm) = admin
project_access (project_action id restart confirm) = admin
project_access (bulk_lifecycle ids action confirm) = admin
project_access notify_settings = viewer
project_access (save_notify_settings body) = admin
project_access test_notify = admin

pub project_call-Served :
    (files : Bool) (c : ProjectCall) → Served (project_access c) (routes files) (project_request c)
unfolding project_request routes Notify.notify_settings Notify.notify_test Projects.bulk_lifecycle
    Projects.project Projects.project_action Projects.projects
project_call-Served files projects = served viewer (routes files) (project_request projects) refl tt
project_call-Served files (project id) =
    served viewer (routes files) (project_request (project id)) refl (show-IsPlain id, tt)
project_call-Served files (create_project p) =
    served operator (routes files) (project_request (create_project p)) refl tt
project_call-Served files (project_action id start none) =
    served operator (routes files) (project_request (project_action id start none)) refl
      (show-IsPlain id, tt)
project_call-Served files (project_action id start (some true)) =
    served operator (routes files) (project_request (project_action id start (some true))) refl
      (show-IsPlain id, tt)
project_call-Served files (project_action id start (some false)) =
    served operator (routes files) (project_request (project_action id start (some false))) refl
      (show-IsPlain id, tt)
project_call-Served files (project_action id stop none) =
    served admin (routes files) (project_request (project_action id stop none)) refl
      (show-IsPlain id, tt)
project_call-Served files (project_action id stop (some true)) =
    served admin (routes files) (project_request (project_action id stop (some true))) refl
      (show-IsPlain id, tt)
project_call-Served files (project_action id stop (some false)) =
    served admin (routes files) (project_request (project_action id stop (some false))) refl
      (show-IsPlain id, tt)
project_call-Served files (project_action id restart none) =
    served admin (routes files) (project_request (project_action id restart none)) refl
      (show-IsPlain id, tt)
project_call-Served files (project_action id restart (some true)) =
    served admin (routes files) (project_request (project_action id restart (some true))) refl
      (show-IsPlain id, tt)
project_call-Served files (project_action id restart (some false)) =
    served admin (routes files) (project_request (project_action id restart (some false))) refl
      (show-IsPlain id, tt)
project_call-Served files (bulk_lifecycle ids action confirm) =
    served admin (routes files) (project_request (bulk_lifecycle ids action confirm)) refl tt
project_call-Served files notify_settings =
    served viewer (routes files) (project_request notify_settings) refl tt
project_call-Served files (save_notify_settings body) =
    served admin (routes files) (project_request (save_notify_settings body)) refl tt
project_call-Served files test_notify =
    served admin (routes files) (project_request test_notify) refl tt
