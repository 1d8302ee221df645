-- ===== src/Server/Routes.antt =====
-- server/cmd/server/main.go: the router's table. The route groups that middleware guards are
-- written out: the group's prefix is part of the pattern, its role the access that it asks for.
pub mod Core
pub mod Files
pub mod Fleet
use server_hub.Prelude.{Bool, List, [], ◌++◌, if◌then◌else◌}
use server_hub.Routing.{Route}
use server_hub.Server.Routes.Core.{
  auth_routes, project_routes, container_routes, discovery_routes, deployment_routes,
  operation_routes,
}
use server_hub.Server.Routes.Files.{transfer_routes, backup_agent_routes, backup_routes}
use server_hub.Server.Routes.Fleet.{
  database_routes, server_routes, notification_routes, alert_routes, monitoring_routes,
  agent_routes, open_routes,
}

-- The file transfers are registered only when FILE_STORAGE_ROOT is configured and usable; they
-- stand last here, since no two patterns of the table compete for their paths.
unfoldable pub routes : Bool → List Route
unfolding auth_routes project_routes container_routes discovery_routes deployment_routes
    operation_routes transfer_routes backup_agent_routes backup_routes database_routes server_routes
    notification_routes alert_routes monitoring_routes agent_routes open_routes
routes files =
    auth_routes
    ++ project_routes
    ++ container_routes
    ++ discovery_routes
    ++ deployment_routes
    ++ operation_routes
    ++ backup_agent_routes
    ++ backup_routes
    ++ database_routes
    ++ server_routes
    ++ notification_routes
    ++ alert_routes
    ++ monitoring_routes
    ++ agent_routes
    ++ open_routes
    ++ (if files then transfer_routes else [])
