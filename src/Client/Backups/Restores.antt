-- ===== src/Client/Backups/Restores.antt =====
-- client/src/features/dbbackups/RestoresTab.tsx: the start of a restore: its run, agent, destination and database.
pub mod Settles
use server_hub.Prelude.{if◌then◌else◌, Bool, ◌||◌, String, true, false, none, some, [], List}
use server_hub.Text.{codes, trim, is_empty, Text}
use server_hub.Api.Backup
use server_hub.Api.Backup.{BackupCall}
use server_hub.Client.Backups.Forms.{restore_input, restore_body}
use server_hub.Client.Backups.Role.{BackupsRole}
use server_hub.Client.Backups.Told.{
  Reply, Ending, succeeded, threw, Screen, set_busy, set_checking, set_testing, push, reload, close,
  stay, set_secret, show_checks, saved, found_text, test_text, is_bad, thrown,
}

-- The controls of the tab with what their calls need, and with what they are shown for.
pub data Control : Type 0 where
  start_restore : Text → Text → Text → Text → Control

-- Whether the button that goes on to the confirmation is disabled.
unfoldable pub is_missing : Control → Bool
is_missing (start_restore run_id agent_id dest db) = is_empty run_id || is_empty agent_id

-- The flag that the control is shown by.
unfoldable pub flag : BackupsRole → Control → Bool
flag r c = r.can_mutate

unfoldable pub call_of : Control → BackupCall
unfolding restore_input restore_body trim
call_of (start_restore run_id agent_id dest db) =
    Backup.create_restore (restore_body (restore_input run_id agent_id (trim dest) (trim db)))

-- `confirmStart`
confirm_start_tried : Ending → Screen → Screen
unfolding thrown
confirm_start_tried (succeeded t) s = reload (close (push (codes "Restore started") false s))
confirm_start_tried (threw m) s = push (thrown "Failed" m) true s

unfoldable pub confirm_start : Ending → Screen → Screen
unfolding confirm_start_tried
confirm_start e s = set_busy false (confirm_start_tried e (set_busy true s))

-- What happens when the control is pressed and its call ends.
unfoldable pub handle : Control → Ending → Screen → Screen
unfolding confirm_start
handle (start_restore run_id agent_id dest db) e s = confirm_start e s

-- A form that lacks something sends nothing.
unfoldable pub press : Control → Ending → Screen → Screen
unfolding is_missing handle
press c e s = if is_missing c then s else handle c e s
