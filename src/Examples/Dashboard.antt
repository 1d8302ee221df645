-- ===== src/Examples/Dashboard.antt =====
-- The dashboard page at concrete data: its list of troubles, its alerts and its live events.
use server_hub.Prelude.{
  ℕ, ◌≡◌, ◌⊎◌, inl, refl, true, false, [], ◌∷◌, ◌++◌, Option, none, some, All, Has, length,
}
use server_hub.Text.{Text, codes}
use server_hub.Json.{Json, num, str, object, Fields, field, end, property}
use server_hub.Types.{Project, ServerLoad, Counts, DashboardData, ManagedServer}
use server_hub.Status.{lost, sailing, down, to_fleet_status}
use server_hub.Format.{short_sha}
use server_hub.Client.Attention.{server_entry, project_item, attention_list}
use server_hub.Client.Attention.Worst.{
  rank, Rises, attention_list-offline, Listed, project_item-Listed,
}
use server_hub.Client.Transitions.{Choices, statuses, status_at, poll, poll_notes}
use server_hub.Client.Transitions.Changes.{note_of, poll-change}
use server_hub.Client.Preferences.{read_prefs, load_alerts}
use server_hub.Client.Preferences.Obeyed.{read_prefs-load_alerts}
use server_hub.Client.Signals.{completed, threshold, text_of, react}
use server_hub.Client.Signals.Told.{react-numbers}

abbrev project : Text → Project
project status = record {
  id = 4;
  name = codes "shop";
  description = none;
  repository = none;
  branch = none;
  environment = none;
  deployment_path = none;
  compose_file = none;
  gateway_prefix = none;
  health_url = none;
  status = status;
  auto_deploy = false;
  created_at = codes "2026-01-01";
  updated_at = codes "2026-01-01";
}

abbrev pub server : ManagedServer
server = record {
  id = 2;
  name = codes "web-1";
  hostname = codes "web-1";
  ip_address = codes "10.0.0.1";
  os = codes "linux";
  os_version = codes "12";
  arch = codes "amd64";
  cpu_info = codes "x";
  cpu_cores = 4;
  ram_total = 8;
  disk_total = 100;
  status = codes "OFFLINE";
  agent_status = codes "DISCONNECTED";
  last_heartbeat = none;
  group_id = none;
  created_at = codes "2026-01-01";
  updated_at = codes "2026-01-01";
}

abbrev load : ServerLoad
load = record {
  cpu_percent = 9000;
  mem_total_mb = 1000;
  mem_used_mb = 100;
  mem_percent = 1000;
  disk_total_gb = 10;
  disk_used_gb = 1;
  disk_percent = 1000;
  uptime_sec = 60;
}

abbrev counts : Counts
counts = record { projects = 1; services = 0; deployments = 0; healthy = 1; degraded = 0; down = 0 }

abbrev dashboard : Text → DashboardData
dashboard status = record {
  server = load;
  counts = counts;
  projects = project status ∷ [];
  recent_deployments = [];
  docker_available = true;
}

abbrev no_date : Text → Option ℕ
no_date t = none

attention_list-offline_example :
    let shown = attention_list no_date 0 (project (codes "failed") ∷ []) (server ∷ []) [] [] in
    Rises shown
    × (Has
          (server_entry down
            (codes "Server is offline — check power, network, and its monitoring agent.")
            server)
          shown
        ⊎ ((length shown ≡ 6) × All (λ y. rank y ≡ 0) shown))
attention_list-offline_example =
    attention_list-offline no_date 0 (project (codes "failed") ∷ []) (server ∷ []) [] [] server
      (inl refl) refl

project_item-Listed_example :
    Listed (to_fleet_status (some (codes "failed"))) (project_item (project (codes "failed")))
project_item-Listed_example = project_item-Listed (project (codes "failed"))

abbrev all_on : Choices
all_on = record { deploy_finished = true; health_changed = true; high_usage = true }

poll-change_example :
    Has
      (note_of (project (codes "failed") ∷ []) 4 lost)
      (poll_notes all_on (dashboard (codes "failed")) (poll (dashboard (codes "running"))))
unfolding statuses to_fleet_status status_at
poll-change_example =
    poll-change all_on (dashboard (codes "running")) (dashboard (codes "failed")) 4 sailing lost
      refl refl refl (λ e. cc e) (λ e. cc e)

-- A parser of two texts.
parse_two : Text → Option Json
parse_two [] = none
parse_two (c ∷ t) = some (object [])

read_prefs-load_alerts_example :
    read_prefs parse_two (λ v. []) (some []) ≡ load_alerts parse_two (λ v. []) (some [])
unfolding parse_two
read_prefs-load_alerts_example = read_prefs-load_alerts parse_two (λ v. []) refl refl (some [])

-- The events as the server sends them.
abbrev update : Fields
update =
    field (codes "project") (str (codes "shop"))
      (field (codes "commit") (str (codes "abc1234")) (field (codes "durationSec") (num 12) end))

abbrev high_load : Fields
high_load =
    field (codes "resource") (str (codes "cpu"))
      (field (codes "value") (num 93) (field (codes "threshold") (num 90) end))

abbrev no_text : Option Json → Text
no_text v = []

react-numbers_example :
    ((react no_text no_text true completed update).notes
      ≡ (
        codes "Update complete: "
            ++ (text_of (property (codes "project") update)
                ++ (codes " @ "
                    ++ (short_sha (some (text_of (property (codes "commit") update)))
                        ++ codes " (s)."))),
        false,
      )
        ∷ [])
    × ((react no_text no_text true threshold high_load).notes
        ≡ (
          codes "Resource signal: host "
              ++ (text_of (property (codes "resource") high_load)
                  ++ (codes " at "
                      ++ (no_text (property (codes "value") high_load) ++ codes "% (limit %)."))),
          true,
        )
          ∷ [])
unfolding property
react-numbers_example = react-numbers no_text no_text true 12 90 update high_load refl refl
