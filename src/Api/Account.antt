-- ===== src/Api/Account.antt =====
-- client/src/lib/api.ts: the calls of `api` about signing in and the host.
use server_hub.Prelude.{ℕ, [], ◌∷◌, Option, some}
use server_hub.Text.{Text}
use server_hub.Json.{str, object}
use server_hub.Routing.{post, put}
use server_hub.Endpoints.Parts.{default}
use server_hub.Api.Request.{Request, fetched, sent, with_body}
use server_hub.Endpoints.Host

pub data AccountCall : Type 0 where
  login : Text → Text → AccountCall
  logout : AccountCall
  me : AccountCall
  change_password : Text → Text → AccountCall
  dashboard : AccountCall
  server : AccountCall
  audit : Option ℕ → AccountCall

unfoldable pub account_request : AccountCall → Request
account_request (login username password) =
    with_body post Host.auth_login
      (object (("username", str username) ∷ ("password", str password) ∷ []))
account_request logout = sent post Host.auth_logout
account_request me = fetched Host.auth_me
account_request (change_password current_password new_password) =
    with_body put Host.auth_password
      (object (("currentPassword", str current_password) ∷ ("newPassword", str new_password) ∷ []))
account_request dashboard = fetched Host.dashboard
account_request server = fetched Host.server
account_request (audit limit) = fetched (Host.audit (some (default 8 limit)))
