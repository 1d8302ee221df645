-- ===== src/Server/Routes/Core.antt =====
-- server/cmd/server/main.go: the routes that it registers, in order (sign-in, projects, containers, deployments, operations).
use server_hub.Prelude.{List, [], ◌∷◌}
use server_hub.Routing.{get, post, put, delete, public, session, viewer, operator, admin, Route, on}

unfoldable pub auth_routes : List Route
auth_routes =
    on public get "/health/live"
    ∷ on public get "/health/ready"
    ∷ on public get "/health"
    ∷ on public post "/server-hub/api/auth/login"
    ∷ on public post "/server-hub/api/auth/token"
    ∷ on public post "/server-hub/api/auth/refresh"
    ∷ on session post "/server-hub/api/auth/logout"
    ∷ on session get "/server-hub/api/auth/me"
    ∷ on session put "/server-hub/api/auth/password"
    ∷ on session post "/server-hub/api/auth/logout-all"
    ∷ []

unfoldable pub project_routes : List Route
project_routes =
    on viewer get "/server-hub/api/projects"
    ∷ on operator post "/server-hub/api/projects"
    ∷ on viewer get "/server-hub/api/projects/:id"
    ∷ on operator put "/server-hub/api/projects/:id"
    ∷ on operator delete "/server-hub/api/projects/:id"
    ∷ on viewer get "/server-hub/api/projects/:id/services"
    ∷ on operator post "/server-hub/api/projects/:id/services"
    ∷ on operator put "/server-hub/api/services/:id"
    ∷ on operator delete "/server-hub/api/services/:id"
    ∷ []

unfoldable pub container_routes : List Route
container_routes =
    on viewer get "/server-hub/api/containers"
    ∷ on viewer get "/server-hub/api/containers/:id"
    ∷ on viewer get "/server-hub/api/containers/:id/logs"
    ∷ on viewer get "/server-hub/api/containers/:id/stats"
    ∷ on operator post "/server-hub/api/containers/:id/start"
    ∷ on admin post "/server-hub/api/containers/:id/stop"
    ∷ on admin post "/server-hub/api/containers/:id/restart"
    ∷ on viewer get "/server-hub/api/images"
    ∷ on viewer get "/server-hub/api/volumes"
    ∷ on viewer get "/server-hub/api/containers/stats"
    ∷ []

unfoldable pub discovery_routes : List Route
discovery_routes =
    on viewer get "/server-hub/api/discovery"
    ∷ on operator post "/server-hub/api/discovery/import"
    ∷ on operator post "/server-hub/api/discovery/import-all"
    ∷ on viewer get "/server-hub/api/health"
    ∷ on viewer get "/server-hub/api/projects/:id/health"
    ∷ on viewer get "/server-hub/api/server"
    ∷ on viewer get "/server-hub/api/server/detail"
    ∷ on viewer get "/server-hub/api/server/storage"
    ∷ on viewer get "/server-hub/api/dashboard"
    ∷ on viewer get "/server-hub/api/audit"
    ∷ []

unfoldable pub deployment_routes : List Route
deployment_routes =
    on viewer get "/server-hub/api/deployments"
    ∷ on admin delete "/server-hub/api/deployments"
    ∷ on viewer get "/server-hub/api/projects/:id/deployments"
    ∷ on operator post "/server-hub/api/projects/:id/deployments"
    ∷ on operator post "/server-hub/api/projects/:id/deploy"
    ∷ on operator post "/server-hub/api/projects/:id/deployments/:depId/rollback"
    ∷ on viewer get "/server-hub/api/telemetry"
    ∷ on viewer get "/server-hub/api/telemetry/latest"
    ∷ on operator post "/server-hub/api/projects/:id/start"
    ∷ on admin post "/server-hub/api/projects/:id/stop"
    ∷ on admin post "/server-hub/api/projects/:id/restart"
    ∷ on admin post "/server-hub/api/projects/bulk-lifecycle"
    ∷ on viewer get "/server-hub/api/projects/:id/secrets"
    ∷ on operator post "/server-hub/api/projects/:id/secrets"
    ∷ on admin put "/server-hub/api/secrets/:id"
    ∷ on admin delete "/server-hub/api/secrets/:id"
    ∷ on admin post "/server-hub/api/secrets/:id/reveal"
    ∷ on viewer get "/server-hub/api/events"
    ∷ []

unfoldable pub operation_routes : List Route
operation_routes =
    on viewer get "/server-hub/api/operations"
    ∷ on viewer get "/server-hub/api/operations/:id"
    ∷ on admin post "/server-hub/api/containers/:id/exec"
    ∷ on viewer get "/server-hub/api/projects/:id/backups"
    ∷ on operator post "/server-hub/api/projects/:id/backups"
    ∷ on viewer get "/server-hub/api/backups/:id"
    ∷ on viewer get "/server-hub/api/backups/:id/download"
    ∷ on operator delete "/server-hub/api/backups/:id"
    ∷ on admin post "/server-hub/api/backups/:id/restore"
    ∷ on viewer get "/server-hub/api/logs"
    ∷ []
