-- ===== src/Endpoints/Host.antt =====
-- packages/shared/src/endpoints.ts: the paths of sign-in, the host, operations, logs, users, sockets and webhooks.
use server_hub.Prelude.{ℕ, List, [], ◌∷◌, ◌++◌, Option}
use server_hub.Text.{Text}
use server_hub.Routing.{lit, val, Template, num, enc}
use server_hub.Endpoints.Parts.{api, default, set_text, set_num, suffix}

unfoldable pub auth_login : Template
auth_login = api ∷ lit "/auth/login" ∷ []

unfoldable pub auth_token : Template
auth_token = api ∷ lit "/auth/token" ∷ []

unfoldable pub auth_refresh : Template
auth_refresh = api ∷ lit "/auth/refresh" ∷ []

unfoldable pub auth_logout : Template
auth_logout = api ∷ lit "/auth/logout" ∷ []

unfoldable pub auth_logout_all : Template
auth_logout_all = api ∷ lit "/auth/logout-all" ∷ []

unfoldable pub auth_me : Template
auth_me = api ∷ lit "/auth/me" ∷ []

unfoldable pub auth_password : Template
auth_password = api ∷ lit "/auth/password" ∷ []

unfoldable pub dashboard : Template
dashboard = api ∷ lit "/dashboard" ∷ []

unfoldable pub server : Template
server = api ∷ lit "/server" ∷ []

unfoldable pub server_detail : Template
server_detail = api ∷ lit "/server/detail" ∷ []

unfoldable pub storage : Template
storage = api ∷ lit "/server/storage" ∷ []

unfoldable pub audit : Option ℕ → Template
audit limit = api ∷ lit "/audit?limit=" ∷ num (default 8 limit) ∷ []

unfoldable pub operations : Option ℕ → Template
operations limit = api ∷ lit "/operations?limit=" ∷ num (default 20 limit) ∷ []

unfoldable pub operation : Text → Template
operation id = api ∷ lit "/operations/" ∷ val id ∷ []

pub record LogsParams : Type 0 where
  pub level : Option Text
  pub source : Option Text
  pub search : Option Text
  pub project_id : Option ℕ
  pub limit : Option ℕ
  pub offset : Option ℕ

-- The pairs that are set, in order.
unfoldable pub logs_query : LogsParams → List (Text × Text)
logs_query p =
    set_text "level" p.level
    ++ set_text "source" p.source
    ++ set_text "search" p.search
    ++ set_num "projectId" p.project_id
    ++ set_num "limit" p.limit
    ++ set_num "offset" p.offset

unfoldable pub logs : LogsParams → Template
logs p = api ∷ lit "/logs" ∷ suffix (logs_query p)

unfoldable pub users : Template
users = api ∷ lit "/users" ∷ []

unfoldable pub user_role : Text → Template
user_role username = api ∷ lit "/users/" ∷ enc username ∷ lit "/role" ∷ []

unfoldable pub user : Text → Template
user username = api ∷ lit "/users/" ∷ enc username ∷ []

unfoldable pub webhook_github : Template
webhook_github = api ∷ lit "/webhooks/github" ∷ []

unfoldable pub webhook_alertmanager : Template
webhook_alertmanager = api ∷ lit "/webhooks/alertmanager" ∷ []

unfoldable pub exec_session : Text → Template
exec_session token = api ∷ lit "/exec/" ∷ val token ∷ []

unfoldable pub events : Template
events = api ∷ lit "/events" ∷ []
