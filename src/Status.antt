-- ===== src/Status.antt =====
-- packages/shared/src/api-types.ts: the state of a query, the two vocabularies of statuses, and what
-- an alert says.
pub mod Words
pub mod Alerts
use server_hub.Prelude.{
  ℕ, String, Bool, true, false, not, ◌&&◌, ◌||◌, List, [], ◌∷◌, ◌++◌, Option, none, some, any, ltb,
  if◌then◌else◌,
}
use server_hub.Text.{Text, codes, eqb, is_empty, includes, to_lower, trim}
use server_hub.Text.Decimal.{show}
use server_hub.Endpoints.Parts.{default}

pub data QueryState : Type 0 where
  loading error ready : QueryState

unfoldable query_state : Bool → Bool → Bool → QueryState
query_state has_data is_loading is_error =
    if has_data then ready else if is_error && not is_loading then error else loading

pub data FleetStatus : Type 0 where
  sailing choppy lost docked : FleetStatus

-- `s === w` for one of the words.
unfoldable pub one_of : List String → Text → Bool
one_of ws s = any (λ w. eqb s (codes w)) ws

abbrev pub fleet_working : List String
fleet_working = "healthy" ∷ "running" ∷ "success" ∷ "ok" ∷ []

abbrev pub fleet_attention : List String
fleet_attention = "degraded" ∷ "choppy" ∷ "running_partial" ∷ []

abbrev pub fleet_down : List String
fleet_down = "down" ∷ "failed" ∷ "error" ∷ []

fleet_of_word : Text → FleetStatus
unfolding one_of
fleet_of_word s =
    if one_of fleet_working s
    then sailing
    else if one_of fleet_attention s
    then choppy
    else if one_of fleet_down s
    then lost
    else docked

unfoldable pub to_fleet_status : Option Text → FleetStatus
unfolding to_lower fleet_of_word
to_fleet_status raw = fleet_of_word (to_lower (default [] raw))

unfoldable pub fleet_label : FleetStatus → String
fleet_label sailing = "Working"
fleet_label choppy = "Needs attention"
fleet_label lost = "Down"
fleet_label docked = "Stopped"

pub data BusinessTone : Type 0 where
  working attention down stopped unknown : BusinessTone

pub record BusinessStatus : Type 0 where
  pub tone : BusinessTone
  pub label : String

abbrev pub business_working : List String
business_working =
    "sailing" ∷ "healthy" ∷ "ok" ∷ "success" ∷ "successful" ∷ "running" ∷ "up" ∷ "online"
    ∷ "nominal" ∷ "resolved" ∷ "reachable" ∷ "passing" ∷ "pass" ∷ "good" ∷ []

abbrev pub business_attention : List String
business_attention = "choppy" ∷ "degraded" ∷ "warning" ∷ "watch" ∷ "unstable" ∷ "flapping" ∷ []

abbrev pub business_down : List String
business_down =
    "lost" ∷ "down" ∷ "failed" ∷ "failure" ∷ "error" ∷ "critical" ∷ "offline" ∷ "disconnected"
    ∷ "alert" ∷ "firing" ∷ "triggered" ∷ "unreachable" ∷ []

abbrev pub business_stopped : List String
business_stopped = "docked" ∷ "stopped" ∷ "paused" ∷ "idle" ∷ "standby" ∷ "disabled" ∷ []

business_of_word : Text → BusinessStatus
unfolding one_of
business_of_word s =
    if one_of business_working s
    then record { tone = working; label = "Working" }
    else if one_of business_attention s
    then record { tone = attention; label = "Needs attention" }
    else if one_of business_down s
    then record { tone = down; label = "Down" }
    else if one_of business_stopped s
    then record { tone = stopped; label = "Stopped" }
    else record { tone = unknown; label = "Unknown" }

-- The word that is looked up.
abbrev pub word_of : Option Text → Text
word_of raw = to_lower (trim (default [] raw))

unfoldable pub to_business_status : Option Text → BusinessStatus
unfolding to_lower trim business_of_word
to_business_status raw = business_of_word (word_of raw)

unfoldable pub tone_rank : BusinessTone → ℕ
tone_rank down = 0
tone_rank attention = 1
tone_rank unknown = 2
tone_rank stopped = 3
tone_rank working = 4
