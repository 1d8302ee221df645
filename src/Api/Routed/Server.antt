-- ===== src/Api/Routed/Server.antt =====
-- Every call of client/src/lib/api.ts about managed servers, agent tokens and server groups meets a
-- route of server/cmd/server/main.go.
use server_hub.Prelude.{Bool, refl}
use server_hub.Routing.{Access, viewer, operator, admin}
use server_hub.Routing.Sound.{show-IsPlain}
use server_hub.Api.Served.{Served, served}
use server_hub.Server.Routes.{routes}
use server_hub.Endpoints.Servers
use server_hub.Api.Server.{
  ServerCall, servers, managed_server, create_server, update_server, delete_server, server_metrics,
  server_metrics_latest, server_prometheus_metrics, agent_tokens, create_agent_token,
  revoke_agent_token, server_groups, create_server_group, delete_server_group, server_request,
}

-- The access that the server asks for the call.
abbrev pub server_access : ServerCall → Access
server_access servers = viewer
server_access (managed_server id) = viewer
server_access (create_server body) = operator
server_access (update_server id body) = operator
server_access (delete_server id) = admin
server_access (server_metrics id range) = viewer
server_access (server_metrics_latest id) = viewer
server_access (server_prometheus_metrics id metric range step) = viewer
server_access (agent_tokens server_id) = admin
server_access (create_agent_token server_id label) = admin
server_access (revoke_agent_token server_id token_id) = admin
server_access server_groups = viewer
server_access (create_server_group name description) = operator
server_access (delete_server_group id) = admin

pub server_call-Served :
    (files : Bool) (c : ServerCall) → Served (server_access c) (routes files) (server_request c)
unfolding server_request routes Servers.server_by_id Servers.server_group Servers.server_groups
    Servers.server_metrics Servers.server_metrics_latest Servers.server_token Servers.server_tokens
    Servers.servers
server_call-Served files servers = served viewer (routes files) (server_request servers) refl tt
server_call-Served files (managed_server id) =
    served viewer (routes files) (server_request (managed_server id)) refl (show-IsPlain id, tt)
server_call-Served files (create_server body) =
    served operator (routes files) (server_request (create_server body)) refl tt
server_call-Served files (update_server id body) =
    served operator (routes files) (server_request (update_server id body)) refl
      (show-IsPlain id, tt)
server_call-Served files (delete_server id) =
    served admin (routes files) (server_request (delete_server id)) refl (show-IsPlain id, tt)
server_call-Served files (server_metrics id range) =
    served viewer (routes files) (server_request (server_metrics id range)) refl
      (show-IsPlain id, tt)
server_call-Served files (server_metrics_latest id) =
    served viewer (routes files) (server_request (server_metrics_latest id)) refl
      (show-IsPlain id, tt)
server_call-Served files (server_prometheus_metrics id metric range step) =
    served viewer (routes files) (server_request (server_prometheus_metrics id metric range step))
      refl (show-IsPlain id, tt)
server_call-Served files (agent_tokens server_id) =
    served admin (routes files) (server_request (agent_tokens server_id)) refl
      (show-IsPlain server_id, tt)
server_call-Served files (create_agent_token server_id label) =
    served admin (routes files) (server_request (create_agent_token server_id label)) refl
      (show-IsPlain server_id, tt)
server_call-Served files (revoke_agent_token server_id token_id) =
    served admin (routes files) (server_request (revoke_agent_token server_id token_id)) refl
      (show-IsPlain server_id, (show-IsPlain token_id, tt))
server_call-Served files server_groups =
    served viewer (routes files) (server_request server_groups) refl tt
server_call-Served files (create_server_group name description) =
    served operator (routes files) (server_request (create_server_group name description)) refl tt
server_call-Served files (delete_server_group id) =
    served admin (routes files) (server_request (delete_server_group id)) refl (show-IsPlain id, tt)
