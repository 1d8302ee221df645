-- ===== src/Examples/Charts.antt =====
-- The charts, the telemetry and monitoring pages, the list of servers and the palette at concrete data.
use server_hub.Prelude.{ℕ, ◌≡◌, refl, inl, true, List, [], ◌∷◌, Option, none, some, All}
use server_hub.Text.{Text, codes}
use server_hub.Types.{TelemetryPoint}
use server_hub.Types.Monitoring.{AmAlert}
use server_hub.Client.Chart.{ℤ, pos, negsuc, Reading, by_time, line, server_frame, prom_chart}
use server_hub.Client.Chart.Drawn.{IsInside}
use server_hub.Client.Chart.Framed.{prom_chart-IsInside}
use server_hub.Client.Chart.Merged.{IsSorted, IsKnown, by_time-IsKnown}
use server_hub.Client.Monitoring.{
  TabEvent, refreshed, answered, brought, failed, opened_tab, run_tab, shown, Silencing,
}
use server_hub.Client.Monitoring.Stuck.{HidesList, run_tab-HidesList}
use server_hub.Client.Palette
use server_hub.Client.Palette.{PaletteEvent, typed, arrow_down, enter}
use server_hub.Client.Palette.Within.{IsHonest, run-opened-IsHonest}
use server_hub.Client.Telemetry
use server_hub.Client.Telemetry.{TelemetryEvent, picked, day, net_rx, rates}
use server_hub.Client.Telemetry.Current.{IsCurrent, run-opened-IsCurrent}

abbrev values : List ℕ
values = 100 ∷ 9000 ∷ 20000 ∷ []

drawn_line : line server_frame values ≡ (0, 110) ∷ (280, 65) ∷ (560, 10) ∷ []
unfolding line
drawn_line = refl

abbrev reading : Option ℤ → Reading
reading v = record { timestamp = 10; value = v }

abbrev two_series : List (List Reading)
two_series = (reading (some (pos 3)) ∷ []) ∷ (reading none ∷ []) ∷ []

by_time-IsKnown_example : IsSorted (by_time two_series []) × IsKnown 10 (by_time two_series [])
by_time-IsKnown_example =
    by_time-IsKnown two_series (reading (some (pos 3)) ∷ []) (reading (some (pos 3))) (pos 3)
      (inl refl) (inl refl) refl

prom_chart-IsInside_example : All (All (IsInside server_frame)) (((0, 107) ∷ (0, 107) ∷ []) ∷ [])
unfolding prom_chart
prom_chart-IsInside_example =
    prom_chart-IsInside none two_series (λ e. cc e) ((tt, tt), ((tt, tt), tt)) refl

-- A value below zero is drawn below the frame, whose base is at 110.
below_the_frame :
    prom_chart (some 10000) ((reading (some (negsuc 999)) ∷ []) ∷ [])
    ≡ some (((0, 120) ∷ (0, 120) ∷ []) ∷ [])
unfolding prom_chart
below_the_frame = refl

abbrev point : ℕ → ℕ → TelemetryPoint
point t rx = record {
  ts = t;
  cpu = 0;
  mem_pct = 0;
  mem_mb = 0;
  disk_pct = 0;
  net_rx = rx;
  net_tx = 0;
  disk_read = 0;
  disk_write = 0;
}

abbrev answers : ℕ → Option (List TelemetryPoint)
answers i = some (point i 5 ∷ [])

abbrev picks : List TelemetryEvent
picks = picked day ∷ Telemetry.answered 0 ∷ Telemetry.answered 1 ∷ []

run-opened-IsCurrent_example : IsCurrent answers (Telemetry.run answers picks Telemetry.opened)
run-opened-IsCurrent_example = run-opened-IsCurrent answers picks

abbrev alert : AmAlert
alert = record {
  fingerprint = codes "a";
  state = codes "active";
  silenced_by = [];
  inhibited_by = [];
  labels = (codes "severity", codes "critical") ∷ (codes "alertname", codes "Down") ∷ [];
  annotations = [];
  starts_at = codes "2026-01-01";
  ends_at = codes "2026-01-01";
  generator_url = [];
  receivers = [];
}

abbrev later_success : List (TabEvent AmAlert)
later_success = refreshed true ∷ answered (brought (alert ∷ [])) ∷ []

run_tab-HidesList_example :
    HidesList (shown (run_tab (answered (failed (codes "no answer")) ∷ later_success) opened_tab))
run_tab-HidesList_example =
    run_tab-HidesList (codes "no answer") later_success opened_tab refl (tt, (tt, tt))

abbrev dialog : Silencing
dialog = record { alert = some alert; duration = codes "4h"; comment = []; busy = true }

abbrev at_zero : Text → ℕ
at_zero t = 0

abbrev keys : List PaletteEvent
keys = typed (codes "alert") ∷ arrow_down ∷ enter ∷ []

run-opened-IsHonest_example : IsHonest (Palette.run keys Palette.opened)
run-opened-IsHonest_example = run-opened-IsHonest keys

goes_to_alerts : (Palette.run keys Palette.opened).route ≡ some (codes "/alerts")
unfolding Palette.run
goes_to_alerts = refl
