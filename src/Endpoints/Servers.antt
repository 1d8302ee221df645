-- ===== src/Endpoints/Servers.antt =====
-- packages/shared/src/endpoints.ts: the paths of managed servers, agents and monitoring.
use server_hub.Prelude.{ℕ, [], ◌∷◌, Option}
use server_hub.Text.{Text, codes}
use server_hub.Routing.{lit, val, Template, num, enc}
use server_hub.Endpoints.Parts.{api, default}

unfoldable pub servers : Template
servers = api ∷ lit "/servers" ∷ []

unfoldable pub server_by_id : ℕ → Template
server_by_id id = api ∷ lit "/servers/" ∷ num id ∷ []

unfoldable pub server_metrics : ℕ → Option Text → Template
server_metrics id range =
    api ∷ lit "/servers/" ∷ num id ∷ lit "/metrics?range=" ∷ val (default (codes "1h") range) ∷ []

unfoldable pub server_metrics_latest : ℕ → Template
server_metrics_latest id = api ∷ lit "/servers/" ∷ num id ∷ lit "/metrics/latest" ∷ []

unfoldable pub server_tokens : ℕ → Template
server_tokens server_id = api ∷ lit "/servers/" ∷ num server_id ∷ lit "/tokens" ∷ []

unfoldable pub server_token : ℕ → ℕ → Template
server_token server_id token_id =
    api ∷ lit "/servers/" ∷ num server_id ∷ lit "/tokens/" ∷ num token_id ∷ []

unfoldable pub server_groups : Template
server_groups = api ∷ lit "/server-groups" ∷ []

unfoldable pub server_group : ℕ → Template
server_group id = api ∷ lit "/server-groups/" ∷ num id ∷ []

unfoldable pub agent_heartbeat : Template
agent_heartbeat = api ∷ lit "/agent/heartbeat" ∷ []

unfoldable pub agent_metrics : Template
agent_metrics = api ∷ lit "/agent/metrics" ∷ []

unfoldable pub monitoring_overview : Template
monitoring_overview = api ∷ lit "/monitoring/overview" ∷ []

unfoldable pub prometheus_status : Template
prometheus_status = api ∷ lit "/monitoring/prometheus/status" ∷ []

unfoldable pub prometheus_targets : Template
prometheus_targets = api ∷ lit "/monitoring/prometheus/targets" ∷ []

unfoldable pub prometheus_rules : Template
prometheus_rules = api ∷ lit "/monitoring/prometheus/rules" ∷ []

unfoldable pub prometheus_query : Text → Template
prometheus_query query = api ∷ lit "/monitoring/prometheus/query?query=" ∷ enc query ∷ []

unfoldable pub prometheus_query_range : Text → Text → Text → Option Text → Template
prometheus_query_range query start end step =
    api
    ∷ lit "/monitoring/prometheus/query-range?query="
    ∷ enc query
    ∷ lit "&start="
    ∷ val start
    ∷ lit "&end="
    ∷ val end
    ∷ lit "&step="
    ∷ val (default (codes "60") step)
    ∷ []

unfoldable pub monitoring_metrics : Text → Option Text → Option Text → Template
monitoring_metrics metric range step =
    api
    ∷ lit "/monitoring/metrics?metric="
    ∷ val metric
    ∷ lit "&range="
    ∷ val (default (codes "1h") range)
    ∷ lit "&step="
    ∷ val (default (codes "60") step)
    ∷ []

unfoldable pub alertmanager_status : Template
alertmanager_status = api ∷ lit "/monitoring/alertmanager/status" ∷ []

unfoldable pub monitoring_alerts : Template
monitoring_alerts = api ∷ lit "/monitoring/alerts" ∷ []

unfoldable pub monitoring_silences : Template
monitoring_silences = api ∷ lit "/monitoring/silences" ∷ []

unfoldable pub monitoring_silence : Text → Template
monitoring_silence id = api ∷ lit "/monitoring/silences/" ∷ enc id ∷ []
