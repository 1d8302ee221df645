-- ===== src/Client/Backups/Controls/Answered.antt =====
-- What a press of a control leaves behind, on every tab.
use server_hub.Prelude.{Bool, false, ◌≡◌}
use server_hub.Client.Backups.Told.{Ending, Screen}
use server_hub.Client.Backups.Settled.{IsFree, Settles}
use server_hub.Client.Backups.Jobs.Settles as JobsTold
use server_hub.Client.Backups.Agents.Settles as AgentsTold
use server_hub.Client.Backups.Connections.Settles as ConnectionsTold
use server_hub.Client.Backups.Policies.Settles as PoliciesTold
use server_hub.Client.Backups.Storage.Settles as StorageTold
use server_hub.Client.Backups.Runs.Settles as RunsTold
use server_hub.Client.Backups.Restores.Settles as RestoresTold
use server_hub.Client.Backups.Controls.{
  Control, on_job, on_agent, on_connection, on_policy, on_target, on_run, on_restore, is_missing,
  press,
}

-- Whether a press is told of by no toast, and whether it went wrong: by tab.
abbrev pub is_silent : Control → Ending → Bool
is_silent (on_job c) e = JobsTold.is_silent c e
is_silent (on_agent c) e = AgentsTold.is_silent c e
is_silent (on_connection c) e = ConnectionsTold.is_silent c e
is_silent (on_policy c) e = PoliciesTold.is_silent c e
is_silent (on_target c) e = StorageTold.is_silent c e
is_silent (on_run c) e = RunsTold.is_silent c e
is_silent (on_restore c) e = RestoresTold.is_silent c e

abbrev pub went_wrong : Control → Ending → Bool
went_wrong (on_job c) e = JobsTold.went_wrong c e
went_wrong (on_agent c) e = AgentsTold.went_wrong c e
went_wrong (on_connection c) e = ConnectionsTold.went_wrong c e
went_wrong (on_policy c) e = PoliciesTold.went_wrong c e
went_wrong (on_target c) e = StorageTold.went_wrong c e
went_wrong (on_run c) e = RunsTold.went_wrong c e
went_wrong (on_restore c) e = RestoresTold.went_wrong c e

-- Whatever a press of a control ends with, unless its form lacks something: where the buttons were free they
-- are free again, and one toast has come, which is bad exactly when the call threw or its test found another
-- status than "ok"; only the checks of a job that do not throw come without one.
pub press-Tells :
    (c : Control) (e : Ending) (s : Screen)
    → IsFree s
    → is_missing c ≡ false
    → Settles (is_silent c e) (went_wrong c e) s (press c e s)
unfolding press is_missing
press-Tells (on_job c) e s h filled = JobsTold.press-Settles c e s h filled
press-Tells (on_agent c) e s h filled = AgentsTold.press-Settles c e s h
press-Tells (on_connection c) e s h filled = ConnectionsTold.press-Settles c e s h filled
press-Tells (on_policy c) e s h filled = PoliciesTold.press-Settles c e s h filled
press-Tells (on_target c) e s h filled = StorageTold.press-Settles c e s h filled
press-Tells (on_run c) e s h filled = RunsTold.press-Settles c e s h
press-Tells (on_restore c) e s h filled = RestoresTold.press-Settles c e s h filled
