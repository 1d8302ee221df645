-- ===== src/Client/Signals.antt =====
-- client/src/features/dashboard/DashboardPage.tsx: what the dashboard does on a live event, and its
-- import of everything that a scan has found when the page opens.
pub mod Told
use server_hub.Prelude.{
  ℕ, String, Bool, true, false, not, List, [], ◌∷◌, ◌++◌, Option, none, some, any, length, ltb,
  ◌==◌, ◌+◌, if◌then◌else◌,
}
use server_hub.Text.{Text, codes, eqb, is_empty}
use server_hub.Text.Decimal.{show}
use server_hub.Json.{Json, null, str, Fields, property}
use server_hub.Format.{short_sha, short_id}
use server_hub.Client.Preferences.{truthy, fields_of}
use server_hub.Client.Events.{BusEvent}
use server_hub.Client.Transitions.{Note}

-- What a handler does: its toasts, in order, and whether it reloads.
pub record Reaction : Type 0 where
  pub notes : List Note
  pub reloads : Bool

-- `str(v)`: anything but a string is the empty text.
unfoldable pub text_of : Option Json → Text
text_of (some (str s)) = s
text_of v = []

-- `ev.data ?? {}`
unfoldable pub data_of : Option Json → Fields
unfolding fields_of
data_of none = fields_of null
data_of (some v) = fields_of v

abbrev pub quiet : Reaction
quiet = record { notes = []; reloads = false }

abbrev good : Text → Bool → Reaction
good t reloads = record { notes = (t, false) ∷ []; reloads = reloads }

abbrev bad : Text → Bool → Reaction
bad t reloads = record { notes = (t, true) ∷ []; reloads = reloads }

abbrev reload : Reaction
reload = record { notes = []; reloads = true }

-- `switch (ev.type)`: its groups of cases.
pub data Signal : Type 0 where
  refreshed completed failed started container project gateway discovered created create_failed
        restored restore_failed threshold other :
      Signal

unfoldable pub signals : List (String × Signal)
signals =
    ("server.heartbeat", refreshed)
    ∷ ("server.metrics", refreshed)
    ∷ ("server.status", refreshed)
    ∷ ("alert.triggered", refreshed)
    ∷ ("alert.resolved", refreshed)
    ∷ ("monitoring.alert.firing", refreshed)
    ∷ ("monitoring.alert.resolved", refreshed)
    ∷ ("deployment.completed", completed)
    ∷ ("deployment.failed", failed)
    ∷ ("deployment.started", started)
    ∷ ("container.start", container)
    ∷ ("container.stop", container)
    ∷ ("container.restart", container)
    ∷ ("project.start", project)
    ∷ ("project.stop", project)
    ∷ ("project.restart", project)
    ∷ ("gateway.reloaded", gateway)
    ∷ ("discovery.completed", discovered)
    ∷ ("backup.created", created)
    ∷ ("backup.failed", create_failed)
    ∷ ("backup.restored", restored)
    ∷ ("backup.restoreFailed", restore_failed)
    ∷ ("backup.deleted", other)
    ∷ ("telemetry.threshold", threshold)
    ∷ []

signal_in : Text → List (String × Signal) → Signal
signal_in t [] = other
signal_in t ((w, s) ∷ r) = if eqb t (codes w) then s else signal_in t r

unfoldable pub signal_of : Text → Signal
unfolding signal_in signals
signal_of t = signal_in t signals

-- An outcome of starting, stopping or restarting `what`, called `name`.
outcome : String → Text → Fields → Reaction
unfolding truthy text_of
outcome what name d =
    let did = codes what ++ (32 ∷ text_of (property (codes "action") d)) in
    let detail = text_of (property (codes "detail") d) in
    if truthy (property (codes "ok") d)
    then good (did ++ (codes ": " ++ (name ++ codes "."))) true
    else if is_empty detail
    then quiet
    else bad (did ++ (codes " failed: " ++ (detail ++ codes "."))) false

-- `fmtBytes(Number(v ?? 0))` and `Number(v ?? 0).toFixed(1)` of a value of the event, which the server
-- sends as a number.
module _ (bytes_text percent_text : Option Json → Text) where
  -- `high_usage` is the stored choice.
  unfoldable pub react : Bool → Signal → Fields → Reaction
  unfolding outcome text_of truthy
  react high_usage refreshed d = reload
  react high_usage completed d =
      good
        (codes "Update complete: "
          ++ (text_of (property (codes "project") d)
              ++ (codes " @ "
                  ++ (short_sha (some (text_of (property (codes "commit") d)))
                      ++ (codes " ("
                          ++ (text_of (property (codes "durationSec") d) ++ codes "s)."))))))
        true
  react high_usage failed d =
      bad
        (codes "Update failed: "
          ++ (text_of (property (codes "project") d)
              ++ (codes " @ "
                  ++ (short_sha (some (text_of (property (codes "commit") d))) ++ codes "."))))
        true
  react high_usage started d = reload
  react high_usage container d =
      outcome "Container" (short_id (some (text_of (property (codes "id") d)))) d
  react high_usage project d = outcome "Project" (text_of (property (codes "project") d)) d
  react high_usage gateway d =
      let went_well = truthy (property (codes "ok") d) in
      record {
        notes =
            (
              if went_well
                  then codes "Gateway reloaded."
                  else codes "Gateway reload failed: "
                    ++ (text_of (property (codes "detail") d) ++ codes "."),
              not went_well,
            )
            ∷ [];
        reloads = false;
      }
  react high_usage discovered d =
      good (codes "“" ++ (text_of (property (codes "project") d) ++ codes "” was added.")) true
  react high_usage created d =
      good
        (codes "Snapshot ready: "
          ++ (text_of (property (codes "project") d)
              ++ (codes " (" ++ (bytes_text (property (codes "sizeBytes") d) ++ codes ")."))))
        false
  react high_usage create_failed d =
      bad (codes "Snapshot failed: " ++ (text_of (property (codes "error") d) ++ codes ".")) false
  react high_usage restored d =
      good (codes "Snapshot restored: " ++ (text_of (property (codes "project") d) ++ codes "."))
        false
  react high_usage restore_failed d =
      bad (codes "Restore failed: " ++ (text_of (property (codes "error") d) ++ codes ".")) false
  react high_usage threshold d =
      if high_usage
      then bad
          (codes "Resource signal: host "
            ++ (text_of (property (codes "resource") d)
                ++ (codes " at "
                    ++ (percent_text (property (codes "value") d)
                        ++ (codes "% (limit "
                            ++ (text_of (property (codes "threshold") d) ++ codes "%)."))))))
          false
      else quiet
  react high_usage other d = quiet

  unfoldable pub hear : Bool → BusEvent → Reaction
  unfolding signal_of react data_of
  hear high_usage ev = react high_usage (signal_of ev.kind) (data_of ev.content)

-- What `autoSync` asks the server, and the answers it can get; none is a call that throws.
pub record Discovery : Type 0 where
  pub projects : List Bool
  pub filesystem : Option (List Bool)

pub record Imported : Type 0 where
  pub imported : ℕ
  pub services_added : ℕ

-- How many are not registered, in a list of whether each is.
unregistered : List Bool → ℕ
unregistered [] = 0
unregistered (true ∷ r) = unregistered r
unregistered (false ∷ r) = 1 + unregistered r

or_none : Option (List Bool) → List Bool
or_none none = []
or_none (some l) = l

unfoldable pub pending : Discovery → ℕ
unfolding unregistered or_none
pending r = unregistered r.projects + unregistered (or_none r.filesystem)

plural : ℕ → Text
plural n = if n == 1 then [] else codes "s"

synced : Option Imported → Reaction
unfolding plural
synced none = quiet
synced (some r) =
    if ltb 0 r.imported
    then good
        (show r.imported
          ++ (codes " project"
              ++ (plural r.imported
                  ++ (codes " auto-registered with "
                      ++ (show r.services_added
                          ++ (codes " service" ++ (plural r.services_added ++ codes ".")))))))
        true
    else quiet

-- Whether the import is asked for, and what is told. `answer` is what `importAllDiscovered` brings.
unfoldable pub auto_sync : Option Discovery → Option Imported → Bool × Reaction
unfolding pending synced
auto_sync none answer = (false, quiet)
auto_sync (some r) answer = if pending r == 0 then (false, quiet) else (true, synced answer)
