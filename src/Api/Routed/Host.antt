-- ===== src/Api/Routed/Host.antt =====
-- Every call of client/src/lib/api.ts about telemetry, the host, operations, terminals, snapshots, databases and logs meets a
-- route of server/cmd/server/main.go.
use server_hub.Prelude.{Bool, true, false, refl, none, some}
use server_hub.Routing.{lit, Access, viewer, operator, admin}
use server_hub.Routing.Sound.{IsNamed, IsSegment, IsRaw, raw-IsPlain, show-IsPlain, encode-IsPlain}
use server_hub.Endpoints.Parts.{api}
use server_hub.Api.Served.{Served, served, Served-suffix}
use server_hub.Server.Routes.{routes}
use server_hub.Endpoints.Projects
use server_hub.Endpoints.Host
use server_hub.Api.Host.{
  HostCall, telemetry, server_detail, storage, container_stats, operation, operations, exec_token,
  backups, create_backup, delete_backup, restore_backup, db_servers, browse_databases,
  connect_database, register_databases, logs, host_request,
}

-- The access that the server asks for the call.
abbrev pub host_access : HostCall → Access
host_access (telemetry range) = viewer
host_access server_detail = viewer
host_access storage = viewer
host_access container_stats = viewer
host_access (operation id) = viewer
host_access (operations limit) = viewer
host_access (exec_token container shell confirm) = admin
host_access (backups project_id) = viewer
host_access (create_backup project_id) = operator
host_access (delete_backup id) = operator
host_access (restore_backup id) = admin
host_access db_servers = viewer
host_access (browse_databases t) = operator
host_access (connect_database t) = operator
host_access (register_databases project_id server databases username password) = operator
host_access (logs given) = viewer

-- The texts that the call puts into the path are proper.
abbrev pub ProperHost : HostCall → Type 0
ProperHost (operation id) = IsRaw id × IsNamed id
ProperHost (exec_token container shell confirm) = IsSegment container
ProperHost _ = Unit

pub host_call-Served :
    (files : Bool) (c : HostCall)
    → ProperHost c
    → Served (host_access c) (routes files) (host_request c)
unfolding host_request routes Host.logs Host.operation Host.operations Host.server_detail
    Host.storage Projects.backup Projects.backup_restore Projects.backups Projects.container_exec
    Projects.containers_stats Projects.db_browse Projects.db_connect Projects.db_register
    Projects.db_servers Projects.telemetry
host_call-Served files (telemetry range) h =
    served viewer (routes files) (host_request (telemetry range)) refl tt
host_call-Served files server_detail h =
    served viewer (routes files) (host_request server_detail) refl tt
host_call-Served files storage h = served viewer (routes files) (host_request storage) refl tt
host_call-Served files container_stats h =
    served viewer (routes files) (host_request container_stats) refl tt
host_call-Served files (operation id) h =
    served viewer (routes files) (host_request (operation id)) refl (raw-IsPlain id h.0, tt)
host_call-Served files (operations limit) h =
    served viewer (routes files) (host_request (operations limit)) refl tt
host_call-Served files (exec_token container shell none) h =
    served admin (routes files) (host_request (exec_token container shell none)) refl
      (encode-IsPlain container h, tt)
host_call-Served files (exec_token container shell (some true)) h =
    served admin (routes files) (host_request (exec_token container shell (some true))) refl
      (encode-IsPlain container h, tt)
host_call-Served files (exec_token container shell (some false)) h =
    served admin (routes files) (host_request (exec_token container shell (some false))) refl
      (encode-IsPlain container h, tt)
host_call-Served files (backups project_id) h =
    served viewer (routes files) (host_request (backups project_id)) refl
      (show-IsPlain project_id, tt)
host_call-Served files (create_backup project_id) h =
    served operator (routes files) (host_request (create_backup project_id)) refl
      (show-IsPlain project_id, tt)
host_call-Served files (delete_backup id) h =
    served operator (routes files) (host_request (delete_backup id)) refl (show-IsPlain id, tt)
host_call-Served files (restore_backup id) h =
    served admin (routes files) (host_request (restore_backup id)) refl (show-IsPlain id, tt)
host_call-Served files db_servers h = served viewer (routes files) (host_request db_servers) refl tt
host_call-Served files (browse_databases t) h =
    served operator (routes files) (host_request (browse_databases t)) refl tt
host_call-Served files (connect_database t) h =
    served operator (routes files) (host_request (connect_database t)) refl tt
host_call-Served files (register_databases project_id server databases username password) h =
    served operator (routes files)
      (host_request (register_databases project_id server databases username password)) refl tt
host_call-Served files (logs given) h =
    Served-suffix viewer (routes files) api (lit "/logs") (Host.logs_query given) refl refl tt tt
