-- ===== src/Server/Routes/Fleet.antt =====
-- server/cmd/server/main.go: the routes that it registers, in order (databases, users, servers, notifications, monitoring, agents and webhooks).
use server_hub.Prelude.{List, [], ◌∷◌}
use server_hub.Routing.{
  get, post, put, patch, delete, public, viewer, operator, admin, agent, Route, on,
}

unfoldable pub database_routes : List Route
database_routes =
    on viewer get "/server-hub/api/databases/servers"
    ∷ on operator post "/server-hub/api/databases/browse"
    ∷ on operator post "/server-hub/api/databases/connect"
    ∷ on operator post "/server-hub/api/databases/register"
    ∷ on viewer get "/server-hub/api/settings/notifications"
    ∷ on admin put "/server-hub/api/settings/notifications"
    ∷ on admin post "/server-hub/api/settings/notifications/test"
    ∷ on admin get "/server-hub/api/users"
    ∷ on admin post "/server-hub/api/users"
    ∷ on admin put "/server-hub/api/users/:username/role"
    ∷ on admin delete "/server-hub/api/users/:username"
    ∷ []

unfoldable pub server_routes : List Route
server_routes =
    on viewer get "/server-hub/api/servers"
    ∷ on operator post "/server-hub/api/servers"
    ∷ on viewer get "/server-hub/api/servers/:id"
    ∷ on operator patch "/server-hub/api/servers/:id"
    ∷ on admin delete "/server-hub/api/servers/:id"
    ∷ on viewer get "/server-hub/api/servers/:id/metrics"
    ∷ on viewer get "/server-hub/api/servers/:id/metrics/latest"
    ∷ on admin get "/server-hub/api/servers/:id/tokens"
    ∷ on admin post "/server-hub/api/servers/:id/tokens"
    ∷ on admin delete "/server-hub/api/servers/:id/tokens/:tokenId"
    ∷ on viewer get "/server-hub/api/server-groups"
    ∷ on operator post "/server-hub/api/server-groups"
    ∷ on admin delete "/server-hub/api/server-groups/:id"
    ∷ []

unfoldable pub notification_routes : List Route
notification_routes =
    on viewer get "/server-hub/api/notification-groups"
    ∷ on viewer get "/server-hub/api/notification-groups/:id"
    ∷ on operator post "/server-hub/api/notification-groups"
    ∷ on operator patch "/server-hub/api/notification-groups/:id"
    ∷ on operator post "/server-hub/api/notification-groups/:id/members"
    ∷ on operator delete "/server-hub/api/notification-groups/:id/members/:memberId"
    ∷ on admin delete "/server-hub/api/notification-groups/:id"
    ∷ on viewer get "/server-hub/api/notification-rules"
    ∷ on viewer get "/server-hub/api/notification-rules/:id"
    ∷ on operator post "/server-hub/api/notification-rules"
    ∷ on operator patch "/server-hub/api/notification-rules/:id"
    ∷ on admin delete "/server-hub/api/notification-rules/:id"
    ∷ on viewer get "/server-hub/api/notification-policy"
    ∷ on admin put "/server-hub/api/notification-policy"
    ∷ on viewer get "/server-hub/api/notification-deliveries"
    ∷ on viewer get "/server-hub/api/maintenance-windows"
    ∷ on operator post "/server-hub/api/maintenance-windows"
    ∷ on operator patch "/server-hub/api/maintenance-windows/:id"
    ∷ on admin delete "/server-hub/api/maintenance-windows/:id"
    ∷ []

unfoldable pub alert_routes : List Route
alert_routes =
    on viewer get "/server-hub/api/alerts"
    ∷ on operator patch "/server-hub/api/alerts/:id/resolve"
    ∷ on viewer get "/server-hub/api/notifications"
    ∷ on viewer patch "/server-hub/api/notifications/:id/read"
    ∷ on viewer post "/server-hub/api/notifications/read-all"
    ∷ on viewer get "/server-hub/api/health-checks"
    ∷ on operator post "/server-hub/api/health-checks"
    ∷ on operator patch "/server-hub/api/health-checks/:id"
    ∷ on admin delete "/server-hub/api/health-checks/:id"
    ∷ on viewer get "/server-hub/api/health-checks/:id/results"
    ∷ []

unfoldable pub monitoring_routes : List Route
monitoring_routes =
    on viewer get "/server-hub/api/monitoring/prometheus/status"
    ∷ on viewer get "/server-hub/api/monitoring/prometheus/targets"
    ∷ on viewer get "/server-hub/api/monitoring/prometheus/rules"
    ∷ on admin get "/server-hub/api/monitoring/prometheus/query"
    ∷ on admin get "/server-hub/api/monitoring/prometheus/query-range"
    ∷ on viewer get "/server-hub/api/monitoring/overview"
    ∷ on viewer get "/server-hub/api/monitoring/metrics"
    ∷ on viewer get "/server-hub/api/monitoring/alertmanager/status"
    ∷ on viewer get "/server-hub/api/monitoring/alerts"
    ∷ on viewer get "/server-hub/api/monitoring/silences"
    ∷ on operator post "/server-hub/api/monitoring/silences"
    ∷ on operator delete "/server-hub/api/monitoring/silences/:id"
    ∷ on viewer get "/server-hub/api/servers/:id/prometheus/metrics"
    ∷ on viewer get "/server-hub/api/servers/:id/prometheus/metrics/latest"
    ∷ []

unfoldable pub agent_routes : List Route
agent_routes =
    on agent post "/server-hub/api/agent/heartbeat"
    ∷ on agent post "/server-hub/api/agent/metrics"
    ∷ []

unfoldable pub open_routes : List Route
open_routes =
    on public get "/server-hub/api/exec/:token"
    ∷ on public post "/server-hub/api/webhooks/github"
    ∷ on public post "/server-hub/api/webhooks/alertmanager"
    ∷ []
