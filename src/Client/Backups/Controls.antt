-- ===== src/Client/Backups/Controls.antt =====
-- client/src/features/dbbackups: a control of any tab, whether it is shown to a role, and what pressing it
-- does.
pub mod Allowed
pub mod Answered
use server_hub.Prelude.{
  String, Bool, true, false, List, [], ◌∷◌, ◌++◌, Option, none, some, not, ◌&&◌, ◌||◌,
  if◌then◌else◌,
}
use server_hub.Text.{Text}
use server_hub.Api.Backup.{BackupCall}
use server_hub.Client.Backups.Role.{backups_role, BackupsRole}
use server_hub.Client.Backups.Told.{Ending, Screen}
use server_hub.Client.Backups.Jobs
use server_hub.Client.Backups.Agents
use server_hub.Client.Backups.Connections
use server_hub.Client.Backups.Policies
use server_hub.Client.Backups.Storage
use server_hub.Client.Backups.Runs
use server_hub.Client.Backups.Restores

pub data Control : Type 0 where
  on_job : Jobs.Control → Control
  on_agent : Agents.Control → Control
  on_connection : Connections.Control → Control
  on_policy : Policies.Control → Control
  on_target : Storage.Control → Control
  on_run : Runs.Control → Control
  on_restore : Restores.Control → Control

unfoldable pub offered : Control → Bool
unfolding Agents.offered Runs.offered
offered (on_agent c) = Agents.offered c
offered (on_run c) = Runs.offered c
offered _ = true

unfoldable pub flag : BackupsRole → Control → Bool
unfolding Jobs.flag Agents.flag Connections.flag Policies.flag Storage.flag Runs.flag Restores.flag
flag r (on_job c) = Jobs.flag r c
flag r (on_agent c) = Agents.flag r c
flag r (on_connection c) = Connections.flag r c
flag r (on_policy c) = Policies.flag r c
flag r (on_target c) = Storage.flag r c
flag r (on_run c) = Runs.flag r c
flag r (on_restore c) = Restores.flag r c

unfoldable pub is_shown : Option Text → Control → Bool
unfolding backups_role flag offered
is_shown role c = flag (backups_role role) c && offered c

unfoldable pub is_missing : Control → Bool
unfolding Jobs.is_missing Connections.is_missing Policies.is_missing Storage.is_missing
    Restores.is_missing
is_missing (on_job c) = Jobs.is_missing c
is_missing (on_connection c) = Connections.is_missing c
is_missing (on_policy c) = Policies.is_missing c
is_missing (on_target c) = Storage.is_missing c
is_missing (on_restore c) = Restores.is_missing c
is_missing _ = false

unfoldable pub call_of : Control → BackupCall
unfolding Jobs.call_of Agents.call_of Connections.call_of Policies.call_of Storage.call_of
    Runs.call_of Restores.call_of
call_of (on_job c) = Jobs.call_of c
call_of (on_agent c) = Agents.call_of c
call_of (on_connection c) = Connections.call_of c
call_of (on_policy c) = Policies.call_of c
call_of (on_target c) = Storage.call_of c
call_of (on_run c) = Runs.call_of c
call_of (on_restore c) = Restores.call_of c

-- What happens on the tab when the control is pressed and its call ends.
unfoldable pub press : Control → Ending → Screen → Screen
unfolding Jobs.press Agents.press Connections.press Policies.press Storage.press Runs.press
    Restores.press
press (on_job c) e s = Jobs.press c e s
press (on_agent c) e s = Agents.press c e s
press (on_connection c) e s = Connections.press c e s
press (on_policy c) e s = Policies.press c e s
press (on_target c) e s = Storage.press c e s
press (on_run c) e s = Runs.press c e s
press (on_restore c) e s = Restores.press c e s
