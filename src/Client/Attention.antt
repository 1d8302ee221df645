-- ===== src/Client/Attention.antt =====
-- client/src/features/dashboard/DashboardPage.tsx: what the dashboard says of the fleet, and its list of
-- what needs attention.
pub mod Worst
use server_hub.Prelude.{
  ℕ, zero, suc, String, Bool, true, false, List, [], ◌∷◌, ◌++◌, Option, none, some, take, sort_by,
  leb, ltb, ◌==◌, if◌then◌else◌,
}
use server_hub.Text.{Text, codes, eqb, is_empty, to_lower}
use server_hub.Text.Decimal.{show}
use server_hub.Types.{Project, ManagedServer, HealthCheck, Alert, Counts}
use server_hub.Status.{
  FleetStatus, sailing, choppy, lost, docked, to_fleet_status, BusinessTone, working, attention,
  down, stopped, unknown, BusinessStatus, to_business_status, tone_rank,
}
use server_hub.Format.{time_ago}

-- What a `FleetStatus` is as a string.
abbrev pub fleet_word : FleetStatus → String
fleet_word sailing = "sailing"
fleet_word choppy = "choppy"
fleet_word lost = "lost"
fleet_word docked = "docked"

unfoldable pub health_line : Option Counts → Text
health_line none = codes "Checking…"
health_line (some c) =
    if ltb 0 c.down
    then show c.down
      ++ codes " thing"
      ++ (if c.down == 1 then codes " is" else codes "s are")
      ++ codes " down"
    else if ltb 0 c.degraded
    then show c.degraded
      ++ codes " need"
      ++ (if c.degraded == 1 then codes "s" else [])
      ++ codes " attention"
    else if ltb 0 c.healthy
    then codes "Everything is working"
    else codes "Nothing reporting yet"

pub record AttentionItem : Type 0 where
  pub key : Text
  pub tone : BusinessTone
  pub title : Text
  pub detail : Text
  pub route : Text

project_detail : BusinessTone → String → Text
unfolding to_lower
project_detail unknown label = codes "Status unknown — open the project to check."
project_detail attention label = codes "Project needs attention."
project_detail _ label = codes "Project is " ++ to_lower (codes label) ++ codes "."

-- `toBusinessStatus(toFleetStatus(p.status))`
unfoldable pub status_of : Project → BusinessStatus
unfolding to_fleet_status to_business_status
status_of p = to_business_status (some (codes (fleet_word (to_fleet_status (some p.status)))))

is_trouble : BusinessTone → Bool
is_trouble down = true
is_trouble attention = true
is_trouble unknown = true
is_trouble _ = false

unfoldable pub project_item : Project → Option AttentionItem
unfolding status_of is_trouble project_detail
project_item p =
    let b = status_of p in
    if is_trouble b.tone
    then some (record {
      key = codes "project-" ++ show p.id;
      tone = b.tone;
      title = p.name;
      detail = project_detail b.tone b.label;
      route = codes "/?project=" ++ show p.id;
    })
    else none

pub server_entry : BusinessTone → Text → ManagedServer → AttentionItem
server_entry tone detail s = record {
  key = codes "server-" ++ show s.id;
  tone = tone;
  title = s.name;
  detail = detail;
  route = codes "/servers/" ++ show s.id;
}

unfoldable pub server_item : ManagedServer → Option AttentionItem
unfolding server_entry
server_item s =
    if eqb s.status (codes "OFFLINE")
    then some (
        server_entry down
          (codes "Server is offline — check power, network, and its monitoring agent.") s)
    else if eqb s.status (codes "WARNING")
    then some (server_entry attention (codes "Server needs attention — open it for details.") s)
    else if eqb s.status (codes "UNKNOWN")
    then some (server_entry unknown (codes "Server hasn't reported yet.") s)
    else none

-- The items of a list, in its order.
unfoldable pub items_of : {A : Type 0} → (A → Option AttentionItem) → List A → List AttentionItem
items_of f [] = []
items_of f (a ∷ as') = elim (f a) [ none ↦ items_of f as' | some x ↦ x ∷ items_of f as' ]

-- The order of the sort, by severity; it keeps the order of items that are equally severe.
abbrev pub no_milder : AttentionItem → AttentionItem → Bool
no_milder x y = leb (tone_rank x.tone) (tone_rank y.tone)

-- `new Date(iso).getTime()` and `Date.now()` are parameters.
module _ (parse_date : Text → Option ℕ) (now : ℕ) where
  ago_text : String → Option Text → Text
  unfolding time_ago
  ago_text before none = []
  ago_text before (some s) =
      if is_empty s then [] else codes before ++ time_ago parse_date now (some s)

  unfoldable pub check_item : HealthCheck → Option AttentionItem
  unfolding ago_text
  check_item c =
      if eqb c.status (codes "DOWN")
      then some (record {
        key = codes "check-" ++ show c.id;
        tone = down;
        title = c.name;
        detail =
            codes "Website/service check failed"
            ++ ago_text " · last checked " c.last_checked_at
            ++ codes ".";
        route = codes "/health-checks";
      })
      else none

  unfoldable pub alert_item : Alert → Option AttentionItem
  unfolding ago_text
  alert_item a =
      if eqb a.status (codes "TRIGGERED")
      then some (record {
        key = codes "alert-" ++ show a.id;
        tone = if eqb a.severity (codes "CRITICAL") then down else attention;
        title = if is_empty a.message then a.condition else a.message;
        detail =
            codes "Alert raised"
            ++ ago_text " " (some a.triggered_at)
            ++ codes " — see Alerts to act on it.";
        route = codes "/alerts";
      })
      else none

  -- All that needs attention, before the list is sorted and cut.
  unfoldable pub troubles :
      List Project → List ManagedServer → List HealthCheck → List Alert → List AttentionItem
  unfolding items_of project_item server_item check_item alert_item
  troubles ps ss cs as' =
      items_of project_item ps
      ++ (items_of server_item ss ++ (items_of check_item cs ++ items_of alert_item as'))

  unfoldable pub attention_list :
      List Project → List ManagedServer → List HealthCheck → List Alert → List AttentionItem
  unfolding troubles sort_by
  attention_list ps ss cs as' = take 6 (sort_by no_milder (troubles ps ss cs as'))
