-- ===== src/Endpoints/Projects.antt =====
-- packages/shared/src/endpoints.ts: the paths of projects, discovery, secrets, telemetry, containers, snapshots and databases.
use server_hub.Prelude.{ℕ, String, Bool, true, false, [], ◌∷◌, ◌++◌, Option, if◌then◌else◌}
use server_hub.Text.{Text, codes}
use server_hub.Routing.{lit, val, Template, num, enc}
use server_hub.Endpoints.Parts.{api, default, confirmed}

unfoldable pub projects : Template
projects = api ∷ lit "/projects" ∷ []

unfoldable pub project : ℕ → Template
project id = api ∷ lit "/projects/" ∷ num id ∷ []

unfoldable pub project_services : ℕ → Template
project_services project_id = api ∷ lit "/projects/" ∷ num project_id ∷ lit "/services" ∷ []

unfoldable pub project_deployments : ℕ → Template
project_deployments project_id = api ∷ lit "/projects/" ∷ num project_id ∷ lit "/deployments" ∷ []

pub data Lifecycle : Type 0 where
  start stop restart : Lifecycle

abbrev pub action_name : Lifecycle → String
action_name start = "start"
action_name stop = "stop"
action_name restart = "restart"

unfoldable pub project_action : ℕ → Lifecycle → Option Bool → Template
project_action id action confirm =
    api
    ∷ lit "/projects/"
    ∷ num id
    ∷ lit "/"
    ∷ lit (action_name action)
    ∷ confirmed false confirm
    ∷ []

unfoldable pub project_deploy : ℕ → Template
project_deploy project_id = api ∷ lit "/projects/" ∷ num project_id ∷ lit "/deploy" ∷ []

unfoldable pub deployment_rollback : ℕ → ℕ → Template
deployment_rollback project_id dep_id =
    api
    ∷ lit "/projects/"
    ∷ num project_id
    ∷ lit "/deployments/"
    ∷ num dep_id
    ∷ lit "/rollback"
    ∷ []

unfoldable pub deployments_all : Template
deployments_all = api ∷ lit "/deployments" ∷ []

unfoldable pub bulk_lifecycle : Template
bulk_lifecycle = api ∷ lit "/projects/bulk-lifecycle" ∷ []

unfoldable pub service : ℕ → Template
service id = api ∷ lit "/services/" ∷ num id ∷ []

unfoldable pub discovery : Template
discovery = api ∷ lit "/discovery" ∷ []

unfoldable pub discovery_import : Template
discovery_import = api ∷ lit "/discovery/import" ∷ []

unfoldable pub discovery_import_all : Template
discovery_import_all = api ∷ lit "/discovery/import-all" ∷ []

unfoldable pub secrets : ℕ → Template
secrets project_id = api ∷ lit "/projects/" ∷ num project_id ∷ lit "/secrets" ∷ []

unfoldable pub secret : ℕ → Template
secret id = api ∷ lit "/secrets/" ∷ num id ∷ []

unfoldable pub secret_reveal : ℕ → Template
secret_reveal id = api ∷ lit "/secrets/" ∷ num id ∷ lit "/reveal" ∷ []

unfoldable pub telemetry : Option Text → Template
telemetry range = api ∷ lit "/telemetry?range=" ∷ val (default (codes "1h") range) ∷ []

unfoldable pub telemetry_latest : Template
telemetry_latest = api ∷ lit "/telemetry/latest" ∷ []

unfoldable pub containers_stats : Template
containers_stats = api ∷ lit "/containers/stats" ∷ []

unfoldable pub container : Text → Template
container id = api ∷ lit "/containers/" ∷ enc id ∷ []

unfoldable pub container_logs : Text → Template
container_logs id = api ∷ lit "/containers/" ∷ enc id ∷ lit "/logs" ∷ []

unfoldable pub container_logs_stream : Text → Text → Option Bool → Template
unfolding container_logs
container_logs_stream id tail follow =
    container_logs id
    ++ lit "?tail=" ∷ val tail ∷ (if default true follow then lit "&follow=1" else lit "") ∷ []

unfoldable pub container_stats : Text → Template
container_stats id = api ∷ lit "/containers/" ∷ enc id ∷ lit "/stats" ∷ []

unfoldable pub container_exec : Text → Option Bool → Template
container_exec id confirm =
    api ∷ lit "/containers/" ∷ enc id ∷ lit "/exec" ∷ confirmed true confirm ∷ []

unfoldable pub images : Template
images = api ∷ lit "/images" ∷ []

unfoldable pub volumes : Template
volumes = api ∷ lit "/volumes" ∷ []

unfoldable pub backups : ℕ → Template
backups project_id = api ∷ lit "/projects/" ∷ num project_id ∷ lit "/backups" ∷ []

unfoldable pub backup : ℕ → Template
backup id = api ∷ lit "/backups/" ∷ num id ∷ []

unfoldable pub backup_download : ℕ → Template
backup_download id = api ∷ lit "/backups/" ∷ num id ∷ lit "/download" ∷ []

unfoldable pub backup_restore : ℕ → Template
backup_restore id = api ∷ lit "/backups/" ∷ num id ∷ lit "/restore?confirm=true" ∷ []

unfoldable pub db_servers : Template
db_servers = api ∷ lit "/databases/servers" ∷ []

unfoldable pub db_browse : Template
db_browse = api ∷ lit "/databases/browse" ∷ []

unfoldable pub db_connect : Template
db_connect = api ∷ lit "/databases/connect" ∷ []

unfoldable pub db_register : Template
db_register = api ∷ lit "/databases/register" ∷ []
