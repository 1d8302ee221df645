-- ===== src/Client/Discovery.antt =====
-- client/src/features/dashboard/DiscoveryModal.tsx: the projects that a scan found, and their import.
pub mod Single
use server_hub.Prelude.{
  ℕ, Bool, true, false, List, [], ◌∷◌, ◌++◌, Option, none, some, any, ltb, ◌==◌, ◌&&◌,
  if◌then◌else◌, length, keep_if, not, ◌+◌, ◌-◌,
}
use server_hub.Text.{Text, codes, eqb}
use server_hub.Text.Decimal.{show}
use server_hub.Client.Transitions.{Note}

-- A found project or directory: its name and whether it is registered.
pub record Found : Type 0 where
  pub name : Text
  pub registered : Bool

pub record Scan : Type 0 where
  pub projects : List Found
  pub filesystem : Option (List Found)
  pub docker_available : Bool

-- The states of the modal, with the toasts, how often `onImported` ran, whether it has closed, and how many
-- calls that import have gone out and are not answered.
pub record Discovery : Type 0 where
  pub projects : Option (List Found)
  pub filesystem : Option (List Found)
  pub docker_available : Bool
  pub busy : Option Text
  pub err : Option Text
  pub notes : List Note
  pub imported : ℕ
  pub closed : Bool
  pub running : ℕ

abbrev pub opened : Discovery
opened = record {
  projects = none;
  filesystem = none;
  docker_available = true;
  busy = none;
  err = none;
  notes = [];
  imported = 0;
  closed = false;
  running = 0;
}

-- What a call brings, or how it throws: with a message, or with none where it is no error.
pub data Brought (A : Type 0) : Type 0 where
  got : A → Brought A
  threw : Option Text → Brought A

or_text : Text → Option Text → Text
or_text t none = t
or_text t (some m) = m

or_nil : Option (List Found) → List Found
or_nil none = []
or_nil (some fs) = fs

unfoldable pub show_scan : Scan → Discovery → Discovery
unfolding or_nil
show_scan r s = record s {
  projects = some r.projects;
  filesystem = some (or_nil r.filesystem);
  docker_available = r.docker_available;
}

unfoldable pub scanned : Brought Scan → Discovery → Discovery
unfolding show_scan or_text
scanned (got r) s = show_scan r s
scanned (threw m) s = record s { err = some (or_text (codes "Scan failed") m) }

plural : ℕ → Text
plural n = if n == 1 then [] else codes "s"

unregistered_in : Option (List Found) → ℕ
unfolding or_nil keep_if
unregistered_in fs = length (keep_if (λ f. not f.registered) (or_nil fs))

unfoldable pub unregistered : Discovery → ℕ
unfolding unregistered_in
unregistered s = unregistered_in s.projects + unregistered_in s.filesystem

-- The marker of `importAll` among the names.
abbrev all_marker : Text
all_marker = codes "__all"

-- The buttons are disabled while anything is imported.
unfoldable pub is_free : Option Text → Bool
is_free none = true
is_free (some name) = false

unfoldable pub begin : Text → Discovery → Discovery
begin marker s = record s { busy = some marker; running = s.running + 1 }

unfoldable pub import_failed : Option Text → Discovery → Discovery
unfolding or_text
import_failed m s = record s {
  notes = s.notes ++ (or_text (codes "Import failed") m, true) ∷ [];
  busy = none;
}

-- The answer of `importDiscovered`: the name of the project, and its services.
unfoldable pub one_imported : Brought (Text × ℕ) → Discovery → Discovery
unfolding plural import_failed
one_imported (got (name, n)) s = record s {
  notes =
      s.notes
      ++ (
        codes "“"
            ++ (name
                ++ (codes "” added to projects with "
                    ++ (show n ++ (codes " service" ++ (plural n ++ codes "."))))),
        false,
      )
        ∷ [];
  imported = s.imported + 1;
  closed = true;
  running = s.running - 1;
}
one_imported (threw m) s = import_failed m (record s { running = s.running - 1 })

all_text : ℕ → ℕ → Text
unfolding plural
all_text imported services =
    if imported == 0
    then codes "Projects already up to date."
    else show imported
      ++ (codes " project"
          ++ (plural imported
              ++ (codes " imported with "
                  ++ (show services ++ (codes " service" ++ (plural services ++ codes "."))))))

-- The answer of `importAllDiscovered`: how many projects and services; then it scans again.
unfoldable pub all_imported : Brought (ℕ × ℕ) → Discovery → Discovery
unfolding all_text import_failed
all_imported (got (projects, services)) s = record s {
  notes = s.notes ++ (all_text projects services, false) ∷ [];
  imported = s.imported + 1;
  running = s.running - 1;
}
all_imported (threw m) s = import_failed m (record s { running = s.running - 1 })

unfoldable pub scanned_again : Brought Scan → Discovery → Discovery
unfolding show_scan import_failed
scanned_again (got r) s = record (show_scan r s) { busy = none }
scanned_again (threw m) s = import_failed m s

-- What is pressed, and the answers to it. The button for all is there for more than one unregistered.
pub data DiscoveryEvent : Type 0 where
  scan_answered : Brought Scan → DiscoveryEvent
  pressed_one : Text → DiscoveryEvent
  pressed_all : DiscoveryEvent
  one_answered : Brought (Text × ℕ) → DiscoveryEvent
  all_answered : Brought (ℕ × ℕ) → DiscoveryEvent
  rescanned : Brought Scan → DiscoveryEvent

-- An answer comes to a call that is out, `running` or, for the scan of `importAll`, after it.
unfoldable pub step : DiscoveryEvent → Discovery → Discovery
unfolding scanned begin one_imported all_imported scanned_again is_free unregistered
step (scan_answered r) s = scanned r s
step (pressed_one name) s = if is_free s.busy then begin name s else s
step pressed_all s = if is_free s.busy && ltb 1 (unregistered s) then begin all_marker s else s
step (one_answered r) s = if ltb 0 s.running then one_imported r s else s
step (all_answered r) s = if ltb 0 s.running then all_imported r s else s
step (rescanned r) s = if s.running == 0 && not (is_free s.busy) then scanned_again r s else s

unfoldable pub run : List DiscoveryEvent → Discovery → Discovery
unfolding step
run [] s = s
run (e ∷ es) s = run es (step e s)
