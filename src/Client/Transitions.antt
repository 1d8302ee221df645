-- ===== src/Client/Transitions.antt =====
-- client/src/features/dashboard/DashboardPage.tsx, `notifyTransitions`: what the dashboard toasts when a
-- poll shows a change since the last one.
pub mod Changes
use server_hub.Prelude.{
  ℕ, String, Bool, true, false, List, [], ◌∷◌, ◌++◌, Option, none, some, map, any, not, ltb, ◌==◌,
  ◌&&◌, ◌||◌, if◌then◌else◌,
}
use server_hub.Text.{Text, codes, eqb, is_empty}
use server_hub.Text.Decimal.{show}
use server_hub.Types.{Project, Deployment, ServerLoad, DashboardData}
use server_hub.Status.{FleetStatus, sailing, choppy, lost, docked, to_fleet_status, fleet_label}

-- `new Map` by entries: a key that is set again keeps its place.
unfoldable pub set_status : ℕ → FleetStatus → List (ℕ × FleetStatus) → List (ℕ × FleetStatus)
set_status k v [] = (k, v) ∷ []
set_status k v ((j, w) ∷ m) = if j == k then (j, v) ∷ m else (j, w) ∷ set_status k v m

unfoldable pub status_at : ℕ → List (ℕ × FleetStatus) → Option FleetStatus
status_at k [] = none
status_at k ((j, w) ∷ m) = if j == k then some w else status_at k m

-- The entries are set one by one.
unfoldable pub map_onto : List Project → List (ℕ × FleetStatus) → List (ℕ × FleetStatus)
unfolding set_status
map_onto [] m = m
map_onto (p ∷ ps) m = map_onto ps (set_status p.id (to_fleet_status (some p.status)) m)

unfoldable pub statuses : List Project → List (ℕ × FleetStatus)
unfolding map_onto
statuses ps = map_onto ps []

-- `dash.projects.find((p) => p.id === id)?.name ?? `#${id}``
unfoldable pub name_of : List Project → ℕ → Text
name_of [] id = 35 ∷ show id
name_of (p ∷ ps) id = if p.id == id then p.name else name_of ps id

abbrev pub same_status : FleetStatus → FleetStatus → Bool
same_status sailing sailing = true
same_status choppy choppy = true
same_status lost lost = true
same_status docked docked = true
same_status _ _ = false

-- A text and whether the toast is a bad one.
abbrev pub Note : Type 0
Note = Text × Bool

-- The state of the page's refs; the choices are those of `read_prefs`, as truth values.
pub record Baselines : Type 0 where
  pub health : Option (List (ℕ × FleetStatus))
  pub deployments : Option (List ℕ)
  pub hot : Bool

abbrev pub unarmed : Baselines
unarmed = record { health = none; deployments = none; hot = false }

pub record Choices : Type 0 where
  pub deploy_finished : Bool
  pub health_changed : Bool
  pub high_usage : Bool

-- The toast for one project's status, if it has changed and is not `docked` now.
unfoldable pub health_note : List Project → ℕ → FleetStatus → Option FleetStatus → List Note
health_note ps id st none = []
health_note ps id st (some before) =
    if same_status before st || same_status st docked
    then []
    else (
      name_of ps id ++ (codes " is " ++ (codes (fleet_label st) ++ codes ".")),
      same_status st lost || same_status st choppy,
    )
      ∷ []

unfoldable pub health_notes :
    List Project → List (ℕ × FleetStatus) → List (ℕ × FleetStatus) → List Note
unfolding health_note status_at
health_notes ps before [] = []
health_notes ps before ((id, st) ∷ cur) =
    health_note ps id st (status_at id before) ++ health_notes ps before cur

-- `d.commitSha || "unknown"`
or_unknown : Option Text → Text
or_unknown none = codes "unknown"
or_unknown (some s) = if is_empty s then codes "unknown" else s

-- The first successful deployment that was not there before; the loop stops at it.
unfoldable pub deployment_notes : List Project → List ℕ → List Deployment → List Note
unfolding or_unknown
deployment_notes ps before [] = []
deployment_notes ps before (d ∷ ds) =
    if not (any (λ i. i == d.id) before) && eqb d.status (codes "SUCCESS")
    then (
      codes "Launch succeeded: "
          ++ (name_of ps d.project_id ++ (codes " @ " ++ (or_unknown d.commit_sha ++ codes "."))),
      false,
    )
      ∷ []
    else deployment_notes ps before ds

-- `cpuPercent > 85 || memPercent > 85`, in hundredths.
abbrev pub is_hot : ServerLoad → Bool
is_hot s = ltb 8500 s.cpu_percent || ltb 8500 s.mem_percent

health_part : Choices → List Project → Option (List (ℕ × FleetStatus)) → List Note
unfolding health_notes statuses
health_part c ps none = []
health_part c ps (some before) =
    if c.health_changed then health_notes ps before (statuses ps) else []

deployment_part : Choices → List Project → List Deployment → Option (List ℕ) → List Note
unfolding deployment_notes
deployment_part c ps ds none = []
deployment_part c ps ds (some before) =
    if c.deploy_finished then deployment_notes ps before ds else []

abbrev pub hot_note : Note
hot_note = (codes "High load — processor or memory above 85%.", true)

-- The toasts of one poll, in order, and the refs after it.
unfoldable pub poll_notes : Choices → DashboardData → Baselines → List Note
unfolding health_part deployment_part
poll_notes c dash b =
    health_part c dash.projects b.health
    ++ (deployment_part c dash.projects dash.recent_deployments b.deployments
        ++ (if is_hot dash.server && (not b.hot && c.high_usage) then hot_note ∷ [] else []))

unfoldable pub poll : DashboardData → Baselines
unfolding statuses
poll dash = record {
  health = some (statuses dash.projects);
  deployments = some (map (λ d. d.id) dash.recent_deployments);
  hot = is_hot dash.server;
}
