-- ===== src/Client/Backups/Connections.antt =====
-- client/src/features/dbbackups/ConnectionsTab.tsx: the form of a connection, its test and its deletion.
pub mod Settles
use server_hub.Prelude.{if◌then◌else◌, String, true, false, none, some, [], Bool, List, ◌∷◌}
use server_hub.Text.{codes, Text}
use server_hub.Types.Backups.{VgConnectionInput}
use server_hub.Api.Backup
use server_hub.Api.Backup.{BackupCall}
use server_hub.Client.Backups.Forms.{with_password, connection_body, connection_missing}
use server_hub.Client.Backups.Role.{BackupsRole}
use server_hub.Client.Backups.Told.{
  Reply, Ending, succeeded, threw, Screen, set_busy, set_checking, set_testing, push, reload, close,
  stay, set_secret, show_checks, saved, found_text, test_text, is_bad, thrown,
}

-- The controls of the tab with what their calls need, and with what they are shown for.
pub data Control : Type 0 where
  new_connection : Text → VgConnectionInput → Control
  edit_connection : Text → Text → VgConnectionInput → Control
  test_connection delete_connection : Text → Control

-- Whether the form lacks what it needs, so that it sends nothing.
unfoldable pub is_missing : Control → Bool
unfolding connection_missing
is_missing (new_connection pw f) = connection_missing f
is_missing (edit_connection id pw f) = connection_missing f
is_missing _ = false

-- The flag that the control is shown by.
unfoldable pub flag : BackupsRole → Control → Bool
flag r (delete_connection id) = r.is_admin
flag r _ = r.can_mutate

unfoldable pub call_of : Control → BackupCall
unfolding with_password connection_body
call_of (new_connection pw f) = Backup.create_connection (connection_body (with_password pw f))
call_of (edit_connection id pw f) =
    Backup.update_connection id (connection_body (with_password pw f))
call_of (test_connection id) = Backup.test_connection id
call_of (delete_connection id) = Backup.delete_connection id

-- `submit` of the form; `how` is what the toast says of it.
submit_tried : VgConnectionInput → String → Ending → Screen → Screen
unfolding thrown
submit_tried f how (succeeded t) s = close (reload (push (saved "Connection" f.name how) false s))
submit_tried f how (threw m) s = push (thrown "Failed" m) true s

unfoldable pub submit : VgConnectionInput → String → Ending → Screen → Screen
unfolding submit_tried
submit f how e s = set_busy false (submit_tried f how e (set_busy true s))

-- `testConn`
test_tried : Text → Ending → Screen → Screen
unfolding test_text found_text thrown
test_tried id (succeeded t) s =
    reload (push (test_text "Reachable" (found_text t.databases) t) (is_bad t) s)
test_tried id (threw m) s = push (thrown "Failed" m) true s

unfoldable pub test : Text → Ending → Screen → Screen
unfolding test_tried
test id e s = set_testing none (test_tried id e (set_testing (some id) s))

-- `confirmDelete`
confirm_delete_tried : Ending → Screen → Screen
unfolding thrown
confirm_delete_tried (succeeded t) s = reload (close (push (codes "Connection deleted") false s))
confirm_delete_tried (threw m) s = push (thrown "Failed" m) true s

unfoldable pub confirm_delete : Ending → Screen → Screen
unfolding confirm_delete_tried
confirm_delete e s = set_busy false (confirm_delete_tried e (set_busy true s))

-- What happens when the control is pressed and its call ends.
unfoldable pub handle : Control → Ending → Screen → Screen
unfolding submit test confirm_delete
handle (new_connection pw f) e s = submit f "created" e s
handle (edit_connection id pw f) e s = submit f "updated" e s
handle (test_connection id) e s = test id e s
handle (delete_connection id) e s = confirm_delete e s

-- A form that lacks something sends nothing.
unfoldable pub press : Control → Ending → Screen → Screen
unfolding is_missing handle
press c e s = if is_missing c then s else handle c e s
