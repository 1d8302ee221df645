-- ===== src/Api/Request.antt =====
-- client/src/lib/api.ts: what a call hands to `req`: the method, the path and the JSON body.
use server_hub.Prelude.{String, List, Option, none, some}
use server_hub.Text.{Text}
use server_hub.Json.{Json, str, optional}
use server_hub.Routing.{Template, Method, get}

-- `req(path, { method, body: JSON.stringify(body) })`; with no `method`, fetch sends a GET.
pub record Request : Type 0 where
  pub method : Method
  pub path : Template
  pub body : Option Json

abbrev pub fetched : Template → Request
fetched p = record { method = get; path = p; body = none }

abbrev pub sent : Method → Template → Request
sent m p = record { method = m; path = p; body = none }

abbrev pub with_body : Method → Template → Json → Request
with_body m p b = record { method = m; path = p; body = some b }

-- An optional text among the properties of a body.
abbrev pub optional_text : String → Option Text → List (String × Json)
optional_text k none = optional k none
optional_text k (some s) = optional k (some (str s))
