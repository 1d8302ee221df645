-- ===== src/Server/Routes/Files.antt =====
-- server/cmd/server/main.go: the routes that it registers, in order (file transfers and database backups).
use server_hub.Prelude.{List, [], ◌∷◌}
use server_hub.Routing.{
  get, post, put, patch, delete, public, viewer, operator, admin, agent, Route, on,
}

unfoldable pub transfer_routes : List Route
transfer_routes =
    on viewer get "/server-hub/api/transfers/files"
    ∷ on viewer get "/server-hub/api/transfers/files/metadata"
    ∷ on viewer get "/server-hub/api/transfers/files/download"
    ∷ on viewer get "/server-hub/api/transfers/files/size"
    ∷ on viewer get "/server-hub/api/transfers/search"
    ∷ on viewer get "/server-hub/api/transfers/storage"
    ∷ on viewer get "/server-hub/api/transfers/storage/breakdown"
    ∷ on viewer get "/server-hub/api/transfers/trash"
    ∷ on viewer get "/server-hub/api/transfers/activity"
    ∷ on operator post "/server-hub/api/transfers/files/upload"
    ∷ on operator post "/server-hub/api/transfers/files/move"
    ∷ on operator post "/server-hub/api/transfers/files/copy"
    ∷ on operator post "/server-hub/api/transfers/files/zip"
    ∷ on operator post "/server-hub/api/transfers/files/chunk"
    ∷ on operator post "/server-hub/api/transfers/files/chunk/finalize"
    ∷ on operator post "/server-hub/api/transfers/files/bulk-rename"
    ∷ on operator patch "/server-hub/api/transfers/files"
    ∷ on operator delete "/server-hub/api/transfers/files"
    ∷ on operator post "/server-hub/api/transfers/directories"
    ∷ on operator post "/server-hub/api/transfers/trash"
    ∷ on operator post "/server-hub/api/transfers/trash/restore"
    ∷ on operator delete "/server-hub/api/transfers/trash"
    ∷ []

unfoldable pub backup_agent_routes : List Route
backup_agent_routes =
    on public post "/server-hub/api/db-backups/agent/agents/register"
    ∷ on public post "/server-hub/api/db-backups/agent/agents/enroll"
    ∷ on agent post "/server-hub/api/db-backups/agent/agent/heartbeat"
    ∷ on agent get "/server-hub/api/db-backups/agent/agent/runs"
    ∷ on agent post "/server-hub/api/db-backups/agent/agent/runs/:id/claim"
    ∷ on agent put "/server-hub/api/db-backups/agent/backup-runs/:id/status"
    ∷ on agent post "/server-hub/api/db-backups/agent/backup-runs/:id/artifacts"
    ∷ on agent post "/server-hub/api/db-backups/agent/artifacts/:artifact_id/chunks"
    ∷ on agent get "/server-hub/api/db-backups/agent/agent/restores"
    ∷ on agent post "/server-hub/api/db-backups/agent/agent/restores/:id/claim"
    ∷ on agent put "/server-hub/api/db-backups/agent/restores/:id/status"
    ∷ []

unfoldable pub backup_routes : List Route
backup_routes =
    on viewer get "/server-hub/api/db-backups/dashboard"
    ∷ on viewer get "/server-hub/api/db-backups/storage-targets"
    ∷ on viewer get "/server-hub/api/db-backups/storage-targets/:id"
    ∷ on operator post "/server-hub/api/db-backups/storage-targets"
    ∷ on operator put "/server-hub/api/db-backups/storage-targets/:id"
    ∷ on operator post "/server-hub/api/db-backups/storage-targets/test"
    ∷ on admin delete "/server-hub/api/db-backups/storage-targets/:id"
    ∷ on viewer get "/server-hub/api/db-backups/connections"
    ∷ on viewer get "/server-hub/api/db-backups/connections/:id"
    ∷ on operator post "/server-hub/api/db-backups/connections"
    ∷ on operator put "/server-hub/api/db-backups/connections/:id"
    ∷ on operator post "/server-hub/api/db-backups/connections/test"
    ∷ on admin delete "/server-hub/api/db-backups/connections/:id"
    ∷ on viewer get "/server-hub/api/db-backups/policies"
    ∷ on viewer get "/server-hub/api/db-backups/policies/:id"
    ∷ on operator post "/server-hub/api/db-backups/policies"
    ∷ on operator put "/server-hub/api/db-backups/policies/:id"
    ∷ on admin delete "/server-hub/api/db-backups/policies/:id"
    ∷ on viewer get "/server-hub/api/db-backups/jobs"
    ∷ on viewer get "/server-hub/api/db-backups/jobs/:id"
    ∷ on operator post "/server-hub/api/db-backups/jobs"
    ∷ on operator put "/server-hub/api/db-backups/jobs/:id"
    ∷ on operator post "/server-hub/api/db-backups/jobs/:id/enable"
    ∷ on operator post "/server-hub/api/db-backups/jobs/:id/disable"
    ∷ on operator post "/server-hub/api/db-backups/jobs/:id/run"
    ∷ on operator post "/server-hub/api/db-backups/jobs/:id/preflight"
    ∷ on admin delete "/server-hub/api/db-backups/jobs/:id"
    ∷ on viewer get "/server-hub/api/db-backups/runs"
    ∷ on viewer get "/server-hub/api/db-backups/runs/:id"
    ∷ on viewer get "/server-hub/api/db-backups/runs/:id/artifacts"
    ∷ on operator post "/server-hub/api/db-backups/runs/:id/cancel"
    ∷ on operator post "/server-hub/api/db-backups/runs/:id/verify"
    ∷ on viewer get "/server-hub/api/db-backups/restores"
    ∷ on viewer get "/server-hub/api/db-backups/restores/:id"
    ∷ on operator post "/server-hub/api/db-backups/restores"
    ∷ on viewer get "/server-hub/api/db-backups/agents"
    ∷ on viewer get "/server-hub/api/db-backups/agents/:id"
    ∷ on admin post "/server-hub/api/db-backups/agents/token"
    ∷ on admin post "/server-hub/api/db-backups/agents/:id/rotate-token"
    ∷ on admin post "/server-hub/api/db-backups/agents/:id/revoke"
    ∷ on viewer get "/server-hub/api/db-backups/enrollment-tokens"
    ∷ on admin post "/server-hub/api/db-backups/enrollment-tokens"
    ∷ on admin delete "/server-hub/api/db-backups/enrollment-tokens/:id"
    ∷ on viewer get "/server-hub/api/db-backups/machines"
    ∷ on viewer get "/server-hub/api/db-backups/machines/:id"
    ∷ []
