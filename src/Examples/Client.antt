-- ===== src/Examples/Client.antt =====
-- The web client's toasts, live events and dashboard at concrete runs.
use server_hub.Prelude.{ℕ, ◌≡◌, refl, true, false, List, [], ◌∷◌, some, length, ◌==◌, if◌then◌else◌}
use server_hub.Text.{codes}
use server_hub.Json.{Json, null, str, num, object, property}
use server_hub.Client.Toasts.{UiEvent, pushed, dismissed, elapsed, fresh_ui, run}
use server_hub.Client.Events
use server_hub.Client.Events.{FeedEvent, frame, dropped, timed_out, unmount, mount}
use server_hub.Client.Events.Alive.{IsAlive, run-IsAlive}
use server_hub.Client.Dashboard.{
  Fetch, got, lost, other_failure, Dash, AuditEntry, Dashboard, feed_line, query_fn,
}
use server_hub.Client.Dashboard.Honest.{Shows, query_fn-Shows}

abbrev clicks : List UiEvent
clicks =
    pushed (codes "saved") false
    ∷ pushed (codes "failed") true
    ∷ dismissed 1
    ∷ pushed (codes "saved") false
    ∷ elapsed
    ∷ []

two_left : length (run clicks fresh_ui).toasts ≡ 2
unfolding run
two_left = refl

abbrev news : List FeedEvent
news =
    timed_out true
    ∷ frame (codes "backup.created") (some (object (("data", num 3) ∷ [])))
    ∷ frame (codes "unknown") (some (object []))
    ∷ dropped
    ∷ []

run-IsAlive_example : IsAlive (Events.run news (mount false))
run-IsAlive_example = run-IsAlive false news

one_handled : length (Events.run news (mount false)).handled ≡ 1
unfolding Events.run mount property
one_handled = refl

abbrev board : Dash
board = record { projects = 4 ∷ 7 ∷ []; rest = null }

abbrev entry : AuditEntry
entry = record {
  timestamp = some (codes "2026-01-02T03:04:05Z");
  actor = codes "sri";
  action = codes "deploy";
  resource = codes "project";
  resource_id = some (codes "4");
  result = codes "ok";
}

feed_line_test : feed_line entry ≡ codes "[03:04:05] sri deploy project #4 → ok"
unfolding feed_line
feed_line_test = refl

abbrev services : ℕ → Fetch (List Json)
services id = if id == 4 then got (str (codes "web") ∷ []) else lost (other_failure (codes "down"))

query_fn-Shows_example :
    (view : Dashboard) × (query_fn false
        (got board)
        (got (entry ∷ []))
        (lost (other_failure (codes "down")))
        services
        5
      ≡ (got view, true))
    × Shows (lost (other_failure (codes "down"))) view
query_fn-Shows_example =
    query_fn-Shows false board (entry ∷ []) (lost (other_failure (codes "down"))) services 5
