-- ===== src/Api/Routed/Deploy.antt =====
-- Every call of client/src/lib/api.ts about services, deployments, discovery and secrets meets a
-- route of server/cmd/server/main.go.
use server_hub.Prelude.{Bool, refl}
use server_hub.Routing.{Access, viewer, operator, admin}
use server_hub.Routing.Sound.{show-IsPlain}
use server_hub.Api.Served.{Served, served}
use server_hub.Server.Routes.{routes}
use server_hub.Endpoints.Projects
use server_hub.Api.Deploy.{
  DeployCall, services, deployments, deploy, wipe_deployments, rollback, discovery,
  import_discovered, import_all_discovered, secrets, upsert_secret, reveal_secret, deploy_request,
}

-- The access that the server asks for the call.
abbrev pub deploy_access : DeployCall → Access
deploy_access (services project_id) = viewer
deploy_access (deployments project_id) = viewer
deploy_access (deploy project_id commit_sha) = operator
deploy_access wipe_deployments = admin
deploy_access (rollback project_id dep_id) = operator
deploy_access discovery = viewer
deploy_access (import_discovered name) = operator
deploy_access import_all_discovered = operator
deploy_access (secrets project_id) = viewer
deploy_access (upsert_secret project_id name value environment) = operator
deploy_access (reveal_secret id) = admin

pub deploy_call-Served :
    (files : Bool) (c : DeployCall) → Served (deploy_access c) (routes files) (deploy_request c)
unfolding deploy_request routes Projects.deployment_rollback Projects.deployments_all
    Projects.discovery Projects.discovery_import Projects.discovery_import_all
    Projects.project_deploy Projects.project_deployments Projects.project_services
    Projects.secret_reveal Projects.secrets
deploy_call-Served files (services project_id) =
    served viewer (routes files) (deploy_request (services project_id)) refl
      (show-IsPlain project_id, tt)
deploy_call-Served files (deployments project_id) =
    served viewer (routes files) (deploy_request (deployments project_id)) refl
      (show-IsPlain project_id, tt)
deploy_call-Served files (deploy project_id commit_sha) =
    served operator (routes files) (deploy_request (deploy project_id commit_sha)) refl
      (show-IsPlain project_id, tt)
deploy_call-Served files wipe_deployments =
    served admin (routes files) (deploy_request wipe_deployments) refl tt
deploy_call-Served files (rollback project_id dep_id) =
    served operator (routes files) (deploy_request (rollback project_id dep_id)) refl
      (show-IsPlain project_id, (show-IsPlain dep_id, tt))
deploy_call-Served files discovery = served viewer (routes files) (deploy_request discovery) refl tt
deploy_call-Served files (import_discovered name) =
    served operator (routes files) (deploy_request (import_discovered name)) refl tt
deploy_call-Served files import_all_discovered =
    served operator (routes files) (deploy_request import_all_discovered) refl tt
deploy_call-Served files (secrets project_id) =
    served viewer (routes files) (deploy_request (secrets project_id)) refl
      (show-IsPlain project_id, tt)
deploy_call-Served files (upsert_secret project_id name value environment) =
    served operator (routes files)
      (deploy_request (upsert_secret project_id name value environment)) refl
      (show-IsPlain project_id, tt)
deploy_call-Served files (reveal_secret id) =
    served admin (routes files) (deploy_request (reveal_secret id)) refl (show-IsPlain id, tt)
