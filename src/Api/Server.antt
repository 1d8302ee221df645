-- ===== src/Api/Server.antt =====
-- client/src/lib/api.ts: the calls of `api` about managed servers, agent tokens and server groups.
use server_hub.Prelude.{ℕ, [], ◌∷◌, Option, some}
use server_hub.Text.{Text, codes}
use server_hub.Json.{Json, str, object}
use server_hub.Routing.{num as val_num, post, patch, delete, lit, enc}
use server_hub.Endpoints.Parts.{default}
use server_hub.Api.Request.{Request, fetched, sent, with_body}
use server_hub.Endpoints.Servers

pub data ServerCall : Type 0 where
  servers : ServerCall
  managed_server : ℕ → ServerCall
  create_server : Json → ServerCall
  update_server : ℕ → Json → ServerCall
  delete_server : ℕ → ServerCall
  server_metrics : ℕ → Option Text → ServerCall
  server_metrics_latest : ℕ → ServerCall
  server_prometheus_metrics : ℕ → Text → Text → Text → ServerCall
  agent_tokens : ℕ → ServerCall
  create_agent_token : ℕ → Option Text → ServerCall
  revoke_agent_token : ℕ → ℕ → ServerCall
  server_groups : ServerCall
  create_server_group : Text → Option Text → ServerCall
  delete_server_group : ℕ → ServerCall

unfoldable pub server_request : ServerCall → Request
server_request servers = fetched Servers.servers
server_request (managed_server id) = fetched (Servers.server_by_id id)
server_request (create_server body) = with_body post Servers.servers body
server_request (update_server id body) = with_body patch (Servers.server_by_id id) body
server_request (delete_server id) = sent delete (Servers.server_by_id id)
server_request (server_metrics id range) =
    fetched (Servers.server_metrics id (some (default (codes "1h") range)))
server_request (server_metrics_latest id) = fetched (Servers.server_metrics_latest id)
server_request (server_prometheus_metrics id metric range step) = fetched (
    lit "/server-hub/api/servers/"
    ∷ val_num id
    ∷ lit "/prometheus/metrics?metric="
    ∷ enc metric
    ∷ lit "&range="
    ∷ enc range
    ∷ lit "&step="
    ∷ enc step
    ∷ [])
server_request (agent_tokens server_id) = fetched (Servers.server_tokens server_id)
server_request (create_agent_token server_id label) =
    with_body post (Servers.server_tokens server_id)
      (object (("label", str (default [] label)) ∷ []))
server_request (revoke_agent_token server_id token_id) =
    sent delete (Servers.server_token server_id token_id)
server_request server_groups = fetched Servers.server_groups
server_request (create_server_group name description) =
    with_body post Servers.server_groups
      (object (("name", str name) ∷ ("description", str (default [] description)) ∷ []))
server_request (delete_server_group id) = sent delete (Servers.server_group id)
