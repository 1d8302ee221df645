-- ===== src/Api/User.antt =====
-- client/src/lib/api.ts: the calls of `api` about users.
use server_hub.Prelude.{[], ◌∷◌}
use server_hub.Text.{Text}
use server_hub.Json.{str, object}
use server_hub.Routing.{post, put, delete}
use server_hub.Api.Request.{Request, fetched, sent, with_body}
use server_hub.Endpoints.Host

pub data UserCall : Type 0 where
  users : UserCall
  create_user : Text → Text → Text → UserCall
  set_user_role : Text → Text → UserCall
  delete_user : Text → UserCall
  logout_all : UserCall

unfoldable pub user_request : UserCall → Request
user_request users = fetched Host.users
user_request (create_user username password role) =
    with_body post Host.users
      (object (("username", str username) ∷ ("password", str password) ∷ ("role", str role) ∷ []))
user_request (set_user_role username role) =
    with_body put (Host.user_role username) (object (("role", str role) ∷ []))
user_request (delete_user username) = sent delete (Host.user username)
user_request logout_all = sent post Host.auth_logout_all
