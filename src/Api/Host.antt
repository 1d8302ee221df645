-- ===== src/Api/Host.antt =====
-- client/src/lib/api.ts: the calls of `api` about telemetry, the host, operations, terminals, snapshots, databases and logs.
use server_hub.Prelude.{ℕ, Bool, true, List, [], ◌∷◌, ◌++◌, map, Option, some}
use server_hub.Text.{Text, codes}
use server_hub.Json.{Json, num, str, object, array}
use server_hub.Routing.{post, delete}
use server_hub.Endpoints.Parts.{default}
use server_hub.Api.Request.{Request, fetched, sent, with_body, optional_text}
use server_hub.Endpoints.Host
use server_hub.Endpoints.Projects
use server_hub.Endpoints.Host.{LogsParams}

pub data HostCall : Type 0 where
  telemetry : Option Text → HostCall
  server_detail : HostCall
  storage : HostCall
  container_stats : HostCall
  operation : Text → HostCall
  operations : Option ℕ → HostCall
  exec_token : Text → Option Text → Option Bool → HostCall
  backups : ℕ → HostCall
  create_backup : ℕ → HostCall
  delete_backup : ℕ → HostCall
  restore_backup : ℕ → HostCall
  db_servers : HostCall
  browse_databases : Json → HostCall
  connect_database : Json → HostCall
  register_databases : ℕ → Json → List Text → Option Text → Option Text → HostCall
  logs : LogsParams → HostCall

unfoldable pub host_request : HostCall → Request
host_request (telemetry range) = fetched (Projects.telemetry (some (default (codes "1h") range)))
host_request server_detail = fetched Host.server_detail
host_request storage = fetched Host.storage
host_request container_stats = fetched Projects.containers_stats
host_request (operation id) = fetched (Host.operation id)
host_request (operations limit) = fetched (Host.operations (some (default 20 limit)))
host_request (exec_token container shell confirm) =
    with_body post (Projects.container_exec container (some (default true confirm)))
      (object (("shell", str (default (codes "/bin/sh") shell)) ∷ []))
host_request (backups project_id) = fetched (Projects.backups project_id)
host_request (create_backup project_id) = sent post (Projects.backups project_id)
host_request (delete_backup id) = sent delete (Projects.backup id)
host_request (restore_backup id) = sent post (Projects.backup_restore id)
host_request db_servers = fetched Projects.db_servers
host_request (browse_databases t) = with_body post Projects.db_browse t
host_request (connect_database t) = with_body post Projects.db_connect t
host_request (register_databases project_id server databases username password) =
    with_body post Projects.db_register (
      object (
        (("projectId", num project_id)
          ∷ ("server", server)
          ∷ ("databases", array (map str databases))
          ∷ [])
        ++ (optional_text "username" username)
        ++ (optional_text "password" password)))
host_request (logs given) = fetched (Host.logs given)
