-- ===== src/Client/Backups/Runs.antt =====
-- client/src/features/dbbackups/RunsTab.tsx: the card of a run.
pub mod Settles
use server_hub.Prelude.{String, true, false, none, some, [], Bool, List, ◌∷◌, any}
use server_hub.Text.{codes, Text, eqb}
use server_hub.Api.Backup
use server_hub.Api.Backup.{BackupCall}
use server_hub.Client.Backups.Role.{BackupsRole}
use server_hub.Client.Backups.Told.{
  Reply, Ending, succeeded, threw, Screen, set_busy, set_checking, set_testing, push, reload, close,
  stay, set_secret, show_checks, saved, found_text, test_text, is_bad, thrown,
}

unfoldable pub is_active : Text → Bool
is_active s = any (λ w. eqb s (codes w)) ("PENDING" ∷ "RUNNING" ∷ "UPLOADING" ∷ "VERIFYING" ∷ [])

-- The controls of the tab with what their calls need, and with what they are shown for.
pub data Control : Type 0 where
  cancel_run verify_run : Text → Text → Control

-- Whether the control is there for somebody who may use it.
unfoldable pub offered : Control → Bool
unfolding is_active
offered (cancel_run id status) = is_active status
offered (verify_run id status) = eqb status (codes "COMPLETED")

-- The flag that the control is shown by.
unfoldable pub flag : BackupsRole → Control → Bool
flag r c = r.can_mutate

unfoldable pub call_of : Control → BackupCall
call_of (cancel_run id status) = Backup.cancel_run id
call_of (verify_run id status) = Backup.verify_run id

-- `act`; `effect` is what its function does after the call.
act_tried : (Screen → Screen) → String → Ending → Screen → Screen
unfolding thrown
act_tried effect label (succeeded t) s = reload (push (codes label) false (effect s))
act_tried effect label (threw m) s = push (thrown "Failed" m) true s

unfoldable pub act : (Screen → Screen) → String → Ending → Screen → Screen
unfolding act_tried
act effect label e s = set_busy false (act_tried effect label e (set_busy true s))

-- What happens when the control is pressed and its call ends.
unfoldable pub handle : Control → Ending → Screen → Screen
unfolding act
handle (cancel_run id status) e s = act close "Run cancelled" e s
handle (verify_run id status) e s = act stay "Verification finished" e s

unfoldable pub press : Control → Ending → Screen → Screen
unfolding handle
press c e s = handle c e s
