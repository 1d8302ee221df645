-- ===== src/Api/Routed/User.antt =====
-- Every call of client/src/lib/api.ts about users meets a
-- route of server/cmd/server/main.go.
use server_hub.Prelude.{Bool, refl}
use server_hub.Routing.{Access, session, admin}
use server_hub.Routing.Sound.{IsSegment, encode-IsPlain}
use server_hub.Api.Served.{Served, served}
use server_hub.Server.Routes.{routes}
use server_hub.Endpoints.Host
use server_hub.Api.User.{
  UserCall, users, create_user, set_user_role, delete_user, logout_all, user_request,
}

-- The access that the server asks for the call.
abbrev pub user_access : UserCall → Access
user_access users = admin
user_access (create_user username password role) = admin
user_access (set_user_role username role) = admin
user_access (delete_user username) = admin
user_access logout_all = session

-- The texts that the call puts into the path are proper.
abbrev pub ProperUser : UserCall → Type 0
ProperUser (set_user_role username role) = IsSegment username
ProperUser (delete_user username) = IsSegment username
ProperUser _ = Unit

pub user_call-Served :
    (files : Bool) (c : UserCall)
    → ProperUser c
    → Served (user_access c) (routes files) (user_request c)
unfolding user_request routes Host.auth_logout_all Host.user Host.user_role Host.users
user_call-Served files users h = served admin (routes files) (user_request users) refl tt
user_call-Served files (create_user username password role) h =
    served admin (routes files) (user_request (create_user username password role)) refl tt
user_call-Served files (set_user_role username role) h =
    served admin (routes files) (user_request (set_user_role username role)) refl
      (encode-IsPlain username h, tt)
user_call-Served files (delete_user username) h =
    served admin (routes files) (user_request (delete_user username)) refl
      (encode-IsPlain username h, tt)
user_call-Served files logout_all h =
    served session (routes files) (user_request logout_all) refl tt
