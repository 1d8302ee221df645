-- ===== src/Examples/Api.antt =====
-- Calls of the web client at concrete arguments.
use server_hub.Prelude.{arith, ◌≡◌, refl, true, none, some}
use server_hub.Text.{codes}
use server_hub.Routing.{render, admin}
use server_hub.Endpoints.Projects
use server_hub.Text.Uri.{encode_uri_component}
use server_hub.Routing.Sound.{IsSegment}
use server_hub.Api.Served.{Served}
use server_hub.Api.Host.{exec_token}
use server_hub.Api.Calls.{Call, host_call, request, call-Served}
use server_hub.Server.Routes.{routes}

abbrev terminal : Call
terminal = host_call (exec_token (codes "web 1") none (some true))

terminal_path :
    render (request terminal).path ≡ codes "/server-hub/api/containers/web%201/exec?confirm=true"
unfolding request Projects.container_exec encode_uri_component
terminal_path = refl

web_1-IsSegment : IsSegment (codes "web 1")
web_1-IsSegment = (
  λ e. cc,
  (omega arith, (omega arith, (omega arith, (omega arith, (omega arith, tt))))),
  (omega arith, (omega arith, (omega arith, (omega arith, (omega arith, tt))))),
  (λ e. cc, λ e. cc),
)

call-Served_example : Served admin (routes true) (request terminal)
call-Served_example = call-Served terminal web_1-IsSegment
