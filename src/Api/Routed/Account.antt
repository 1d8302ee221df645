-- ===== src/Api/Routed/Account.antt =====
-- Every call of client/src/lib/api.ts about signing in and the host meets a
-- route of server/cmd/server/main.go.
use server_hub.Prelude.{Bool, refl}
use server_hub.Routing.{Access, public, session, viewer}
use server_hub.Api.Served.{Served, served}
use server_hub.Server.Routes.{routes}
use server_hub.Endpoints.Host
use server_hub.Api.Account.{
  AccountCall, login, logout, me, change_password, dashboard, server, audit, account_request,
}

-- The access that the server asks for the call.
abbrev pub account_access : AccountCall → Access
account_access (login username password) = public
account_access logout = session
account_access me = session
account_access (change_password current_password new_password) = session
account_access dashboard = viewer
account_access server = viewer
account_access (audit limit) = viewer

pub account_call-Served :
    (files : Bool) (c : AccountCall) → Served (account_access c) (routes files) (account_request c)
unfolding account_request routes Host.audit Host.auth_login Host.auth_logout Host.auth_me
    Host.auth_password Host.dashboard Host.server
account_call-Served files (login username password) =
    served public (routes files) (account_request (login username password)) refl tt
account_call-Served files logout = served session (routes files) (account_request logout) refl tt
account_call-Served files me = served session (routes files) (account_request me) refl tt
account_call-Served files (change_password current_password new_password) =
    served session (routes files) (account_request (change_password current_password new_password))
      refl tt
account_call-Served files dashboard =
    served viewer (routes files) (account_request dashboard) refl tt
account_call-Served files server = served viewer (routes files) (account_request server) refl tt
account_call-Served files (audit limit) =
    served viewer (routes files) (account_request (audit limit)) refl tt
