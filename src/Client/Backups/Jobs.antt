-- ===== src/Client/Backups/Jobs.antt =====
-- client/src/features/dbbackups/JobsTab.tsx: the form of a job and its card.
pub mod Settles
use server_hub.Prelude.{String, true, false, none, some, [], Bool, List, if◌then◌else◌}
use server_hub.Text.{codes, Text}
use server_hub.Types.Backups.{VgJobInput}
use server_hub.Api.Backup
use server_hub.Api.Backup.{BackupCall}
use server_hub.Client.Backups.Forms.{job_body, job_missing}
use server_hub.Client.Backups.Role.{BackupsRole}
use server_hub.Client.Backups.Told.{
  Reply, Ending, succeeded, threw, Screen, set_busy, set_checking, set_testing, push, reload, close,
  stay, set_secret, show_checks, saved, found_text, test_text, is_bad, thrown,
}

-- The controls of the tab with what their calls need, and with what they are shown for.
pub data Control : Type 0 where
  new_job : VgJobInput → Control
  edit_job : Text → VgJobInput → Control
  toggle_job : Text → Bool → Control
  run_now delete_job check_job : Text → Control

-- Whether the form lacks what it needs, so that it sends nothing.
unfoldable pub is_missing : Control → Bool
unfolding job_missing
is_missing (new_job f) = job_missing f
is_missing (edit_job id f) = job_missing f
is_missing _ = false

-- The flag that the control is shown by.
unfoldable pub flag : BackupsRole → Control → Bool
flag r (delete_job id) = r.is_admin
flag r _ = r.can_mutate

unfoldable pub call_of : Control → BackupCall
unfolding job_body
call_of (new_job f) = Backup.create_job (job_body f)
call_of (edit_job id f) = Backup.update_job id (job_body f)
call_of (toggle_job id enabled) = if enabled then Backup.disable_job id else Backup.enable_job id
call_of (run_now id) = Backup.run_job id
call_of (delete_job id) = Backup.delete_job id
call_of (check_job id) = Backup.preflight id

-- `submit` of the form; `how` is what the toast says of it.
submit_tried : VgJobInput → String → Ending → Screen → Screen
unfolding thrown
submit_tried f how (succeeded t) s = close (reload (push (saved "Job" f.name how) false s))
submit_tried f how (threw m) s = push (thrown "Failed" m) true s

unfoldable pub submit : VgJobInput → String → Ending → Screen → Screen
unfolding submit_tried
submit f how e s = set_busy false (submit_tried f how e (set_busy true s))

-- `act`; `effect` is what its function does after the call.
act_tried : (Screen → Screen) → String → Ending → Screen → Screen
unfolding thrown
act_tried effect label (succeeded t) s = reload (push (codes label) false (effect s))
act_tried effect label (threw m) s = push (thrown "Failed" m) true s

unfoldable pub act : (Screen → Screen) → String → Ending → Screen → Screen
unfolding act_tried
act effect label e s = set_busy false (act_tried effect label e (set_busy true s))

-- `runPreflight`
run_preflight_tried : Ending → Screen → Screen
unfolding thrown
run_preflight_tried (succeeded t) s = show_checks s
run_preflight_tried (threw m) s = push (thrown "Preflight failed" m) true s

unfoldable pub run_preflight : Ending → Screen → Screen
unfolding run_preflight_tried
run_preflight e s = set_checking false (run_preflight_tried e (set_checking true s))

-- What happens when the control is pressed and its call ends.
unfoldable pub handle : Control → Ending → Screen → Screen
unfolding submit act run_preflight
handle (new_job f) e s = submit f "created" e s
handle (edit_job id f) e s = submit f "updated" e s
handle (toggle_job id enabled) e s =
    act stay (if enabled then "Schedule paused" else "Schedule resumed") e s
handle (run_now id) e s = act stay "Backup started" e s
handle (delete_job id) e s = act close "Job deleted" e s
handle (check_job id) e s = run_preflight e s

-- A form that lacks something sends nothing.
unfoldable pub press : Control → Ending → Screen → Screen
unfolding is_missing handle
press c e s = if is_missing c then s else handle c e s
