-- ===== src/Client/Dashboard.antt =====
-- client/src/lib/useDashboard.ts: the query behind the dashboard.
pub mod Honest
use server_hub.Prelude.{
  ℕ, Bool, true, false, List, [], ◌∷◌, ◌++◌, Option, none, some, map, take, drop, ◌==◌,
  if◌then◌else◌,
}
use server_hub.Text.{Text, codes, is_empty}
use server_hub.Json.{Json}
use server_hub.Endpoints.Parts.{default, is_truthy}

-- An ApiError, another error, or a value that is no error.
pub data Failure : Type 0 where
  api_failure : ℕ → Text → Failure
  other_failure : Text → Failure
  no_error : Failure

-- How a call ends.
pub data Fetch {ℓ} (A : Type ℓ) : Type ℓ where
  got : A → Fetch A
  lost : Failure → Fetch A

-- `errMessage`
unfoldable pub err_message : Failure → Text
err_message (api_failure n m) = m
err_message (other_failure m) = m
err_message no_error = codes "Request failed"

-- `DashboardData`: the ids of its projects, and all else.
pub record Dash : Type 0 where
  pub projects : List ℕ
  pub rest : Json

pub record AuditEntry : Type 0 where
  pub timestamp : Option Text
  pub actor : Text
  pub action : Text
  pub resource : Text
  pub resource_id : Option Text
  pub result : Text

pub record Dashboard : Type 0 where
  pub dash : Dash
  pub servers : List Json
  pub servers_ok : Bool
  pub servers_error : Option Text
  pub services_by_project : List (ℕ × List Json)
  pub services_failed_ids : List ℕ
  pub feed : List Text
  pub fetched_at : ℕ

-- `s.slice(11, 19) || "--:--:--"`
abbrev clock_of : Text → Text
clock_of s = let cut = take 8 (drop 11 s) in if is_empty cut then codes "--:--:--" else cut

unfoldable pub feed_line : AuditEntry → Text
feed_line a =
    91 ∷ clock_of (default [] a.timestamp)
    ++ codes "] "
    ++ a.actor
    ++ codes " "
    ++ a.action
    ++ codes " "
    ++ a.resource
    ++ (if is_truthy a.resource_id then codes " #" ++ default [] a.resource_id else [])
    ++ codes " → "
    ++ a.result

-- The `catch` around a project's services.
unfoldable pub services_of : Fetch (List Json) → List Json
services_of (got s) = s
services_of (lost e) = []

unfoldable pub is_lost : {A : Type 0} → Fetch A → Bool
is_lost (got a) = false
is_lost (lost e) = true

servers_of : Fetch (List Json) → List Json
servers_of (got s) = s
servers_of (lost e) = []

servers_error_of : Fetch (List Json) → Option Text
unfolding err_message
servers_error_of (got s) = none
servers_error_of (lost e) = some (err_message e)

-- `entries.filter((e) => e.failed).map((e) => e.id)`
failed_ids : (ℕ → Fetch (List Json)) → List ℕ → List ℕ
unfolding is_lost
failed_ids services [] = []
failed_ids services (id ∷ ids) =
    let rest = failed_ids services ids in if is_lost (services id) then id ∷ rest else rest

entries : (ℕ → Fetch (List Json)) → List ℕ → List (ℕ × List Json)
unfolding services_of
entries services [] = []
entries services (id ∷ ids) = (id, services_of (services id)) ∷ entries services ids

not_is_lost : Fetch (List Json) → Bool
not_is_lost (got s) = true
not_is_lost (lost e) = false

-- What the hook reports with `setOnline`: with the result, or in the `catch`.
online_after : {A : Type 0} → Fetch A → Bool
online_after (got a) = true
online_after (lost (api_failure n m)) = n == 401
online_after (lost e) = false

assemble : Dash → List AuditEntry → Fetch (List Json) → (ℕ → Fetch (List Json)) → ℕ → Dashboard
unfolding servers_of servers_error_of failed_ids entries not_is_lost feed_line
assemble dash audit servers services now = record {
  dash = dash;
  servers = servers_of servers;
  servers_ok = not_is_lost servers;
  servers_error = servers_error_of servers;
  services_by_project = entries services dash.projects;
  services_failed_ids = failed_ids services dash.projects;
  feed = map feed_line audit;
  fetched_at = now;
}

-- `Promise.all` of the three calls; where two are lost, `audit_first` says which was lost first.
core : Bool → Fetch Dash → Fetch (List AuditEntry) → Fetch (Dash × List AuditEntry)
core audit_first (got d) (got a) = got (d, a)
core audit_first (got d) (lost e) = lost e
core audit_first (lost e) (got a) = lost e
core audit_first (lost e) (lost e') = if audit_first then lost e' else lost e

finish :
    Fetch (Dash × List AuditEntry)
    → Fetch (List Json)
    → (ℕ → Fetch (List Json))
    → ℕ
    → Fetch Dashboard
unfolding assemble
finish (got (d, a)) servers services now = got (assemble d a servers services now)
finish (lost e) servers services now = lost e

-- `queryFn`: its result, and what `setOnline` is called with.
unfoldable pub query_fn :
    Bool
    → Fetch Dash
    → Fetch (List AuditEntry)
    → Fetch (List Json)
    → (ℕ → Fetch (List Json))
    → ℕ
    → Fetch Dashboard × Bool
unfolding core finish online_after
query_fn audit_first dash audit servers services now =
    let result = finish (core audit_first dash audit) servers services now in
    (result, online_after result)
