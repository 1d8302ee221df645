-- ===== src/Api/Deploy.antt =====
-- client/src/lib/api.ts: the calls of `api` about services, deployments, discovery and secrets.
use server_hub.Prelude.{ℕ, [], ◌∷◌, Option}
use server_hub.Text.{Text, codes}
use server_hub.Json.{str, object}
use server_hub.Routing.{post, delete}
use server_hub.Endpoints.Parts.{default}
use server_hub.Api.Request.{Request, fetched, sent, with_body}
use server_hub.Endpoints.Projects

pub data DeployCall : Type 0 where
  services : ℕ → DeployCall
  deployments : ℕ → DeployCall
  deploy : ℕ → Option Text → DeployCall
  wipe_deployments : DeployCall
  rollback : ℕ → ℕ → DeployCall
  discovery : DeployCall
  import_discovered : Text → DeployCall
  import_all_discovered : DeployCall
  secrets : ℕ → DeployCall
  upsert_secret : ℕ → Text → Text → Option Text → DeployCall
  reveal_secret : ℕ → DeployCall

unfoldable pub deploy_request : DeployCall → Request
deploy_request (services project_id) = fetched (Projects.project_services project_id)
deploy_request (deployments project_id) = fetched (Projects.project_deployments project_id)
deploy_request (deploy project_id commit_sha) =
    with_body post (Projects.project_deploy project_id)
      (object (("commitSha", str (default [] commit_sha)) ∷ []))
deploy_request wipe_deployments = sent delete Projects.deployments_all
deploy_request (rollback project_id dep_id) =
    sent post (Projects.deployment_rollback project_id dep_id)
deploy_request discovery = fetched Projects.discovery
deploy_request (import_discovered name) =
    with_body post Projects.discovery_import (object (("name", str name) ∷ []))
deploy_request import_all_discovered = sent post Projects.discovery_import_all
deploy_request (secrets project_id) = fetched (Projects.secrets project_id)
deploy_request (upsert_secret project_id name value environment) =
    with_body post (Projects.secrets project_id) (
      object (
        ("name", str name)
        ∷ ("value", str value)
        ∷ ("environment", str (default (codes "production") environment))
        ∷ []))
deploy_request (reveal_secret id) = sent post (Projects.secret_reveal id)
