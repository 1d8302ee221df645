-- ===== src/Client/Backups/Policies.antt =====
-- client/src/features/dbbackups/PoliciesTab.tsx: the form of a policy and its deletion.
pub mod Settles
use server_hub.Prelude.{if◌then◌else◌, String, true, false, none, some, [], Bool, List, ◌&&◌}
use server_hub.Text.{codes, Text}
use server_hub.Types.Backups.{VgPolicyInput}
use server_hub.Api.Backup
use server_hub.Api.Backup.{BackupCall}
use server_hub.Client.Backups.Forms.{policy_body, policy_missing}
use server_hub.Client.Backups.Role.{BackupsRole}
use server_hub.Client.Backups.Told.{
  Reply, Ending, succeeded, threw, Screen, set_busy, set_checking, set_testing, push, reload, close,
  stay, set_secret, show_checks, saved, found_text, test_text, is_bad, thrown,
}

-- The controls of the tab with what their calls need, and with what they are shown for.
pub data Control : Type 0 where
  new_policy : VgPolicyInput → Control
  edit_policy : Text → VgPolicyInput → Control
  delete_policy : Text → Control

-- Whether the form lacks what it needs, so that it sends nothing.
unfoldable pub is_missing : Control → Bool
unfolding policy_missing
is_missing (new_policy f) = policy_missing f
is_missing (edit_policy id f) = policy_missing f
is_missing _ = false

-- The flag that the control is shown by.
unfoldable pub flag : BackupsRole → Control → Bool
flag r (delete_policy id) = r.can_mutate && r.is_admin
flag r _ = r.can_mutate

unfoldable pub call_of : Control → BackupCall
unfolding policy_body
call_of (new_policy f) = Backup.create_policy (policy_body f)
call_of (edit_policy id f) = Backup.update_policy id (policy_body f)
call_of (delete_policy id) = Backup.delete_policy id

-- `submit` of the form; `how` is what the toast says of it.
submit_tried : VgPolicyInput → String → Ending → Screen → Screen
unfolding thrown
submit_tried f how (succeeded t) s = close (reload (push (saved "Policy" f.name how) false s))
submit_tried f how (threw m) s = push (thrown "Failed" m) true s

unfoldable pub submit : VgPolicyInput → String → Ending → Screen → Screen
unfolding submit_tried
submit f how e s = set_busy false (submit_tried f how e (set_busy true s))

-- `confirmDelete`
confirm_delete_tried : Ending → Screen → Screen
unfolding thrown
confirm_delete_tried (succeeded t) s =
    reload (
      close (push (codes "Policy deleted â€” linked jobs fall back to their own settings") false s))
confirm_delete_tried (threw m) s = push (thrown "Failed" m) true s

unfoldable pub confirm_delete : Ending → Screen → Screen
unfolding confirm_delete_tried
confirm_delete e s = set_busy false (confirm_delete_tried e (set_busy true s))

-- What happens when the control is pressed and its call ends.
unfoldable pub handle : Control → Ending → Screen → Screen
unfolding submit confirm_delete
handle (new_policy f) e s = submit f "created" e s
handle (edit_policy id f) e s = submit f "updated" e s
handle (delete_policy id) e s = confirm_delete e s

-- A form that lacks something sends nothing.
unfoldable pub press : Control → Ending → Screen → Screen
unfolding is_missing handle
press c e s = if is_missing c then s else handle c e s
