-- ===== src/Client/Backups/Storage.antt =====
-- client/src/features/dbbackups/StorageTab.tsx: the form of a storage target, its test and its deletion.
pub mod Settles
use server_hub.Prelude.{if◌then◌else◌, String, true, false, none, some, [], Bool, List, ◌∷◌}
use server_hub.Text.{codes, Text}
use server_hub.Types.Backups.{VgStorageInput}
use server_hub.Api.Backup
use server_hub.Api.Backup.{BackupCall}
use server_hub.Client.Backups.Forms.{storage_body, storage_missing}
use server_hub.Client.Backups.Role.{BackupsRole}
use server_hub.Client.Backups.Told.{
  Reply, Ending, succeeded, threw, Screen, set_busy, set_checking, set_testing, push, reload, close,
  stay, set_secret, show_checks, saved, found_text, test_text, is_bad, thrown,
}

-- The controls of the tab with what their calls need, and with what they are shown for.
pub data Control : Type 0 where
  new_target : VgStorageInput → Control
  test_target delete_target : Text → Control

-- Whether the form lacks what it needs, so that it sends nothing.
unfoldable pub is_missing : Control → Bool
unfolding storage_missing
is_missing (new_target f) = storage_missing f
is_missing _ = false

-- The flag that the control is shown by.
unfoldable pub flag : BackupsRole → Control → Bool
flag r (delete_target id) = r.is_admin
flag r _ = r.can_mutate

unfoldable pub call_of : Control → BackupCall
unfolding storage_body
call_of (new_target f) = Backup.create_target (storage_body f)
call_of (test_target id) = Backup.test_target id
call_of (delete_target id) = Backup.delete_target id

-- `submit` of the form.
submit_tried : VgStorageInput → Ending → Screen → Screen
unfolding thrown
submit_tried f (succeeded t) s =
    close (reload (push (saved "Storage target" f.name "created") false s))
submit_tried f (threw m) s = push (thrown "Failed" m) true s

unfoldable pub submit : VgStorageInput → Ending → Screen → Screen
unfolding submit_tried
submit f e s = set_busy false (submit_tried f e (set_busy true s))

-- `testTarget`
test_tried : Text → Ending → Screen → Screen
unfolding test_text thrown
test_tried id (succeeded t) s = reload (push (test_text "Folder is writable" [] t) (is_bad t) s)
test_tried id (threw m) s = push (thrown "Failed" m) true s

unfoldable pub test : Text → Ending → Screen → Screen
unfolding test_tried
test id e s = set_testing none (test_tried id e (set_testing (some id) s))

-- `confirmDelete`
confirm_delete_tried : Ending → Screen → Screen
unfolding thrown
confirm_delete_tried (succeeded t) s =
    reload (close (push (codes "Storage target deleted") false s))
confirm_delete_tried (threw m) s = push (thrown "Failed" m) true s

unfoldable pub confirm_delete : Ending → Screen → Screen
unfolding confirm_delete_tried
confirm_delete e s = set_busy false (confirm_delete_tried e (set_busy true s))

-- What happens when the control is pressed and its call ends.
unfoldable pub handle : Control → Ending → Screen → Screen
unfolding submit test confirm_delete
handle (new_target f) e s = submit f e s
handle (test_target id) e s = test id e s
handle (delete_target id) e s = confirm_delete e s

-- A form that lacks something sends nothing.
unfoldable pub press : Control → Ending → Screen → Screen
unfolding is_missing handle
press c e s = if is_missing c then s else handle c e s
