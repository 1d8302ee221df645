-- ===== src/Client/Backups/Restores/Settles.antt =====
-- Whatever the calls of client/src/features/dbbackups/RestoresTab.tsx end with, the buttons are free and it is told.
use server_hub.Prelude.{Bool, true, false, ◌≡◌, refl, Option}
use server_hub.Text.{Text}
use server_hub.Client.Backups.Told.{Reply, Ending, succeeded, threw, Screen}
use server_hub.Client.Backups.Settled.{IsFree, Settles}
use server_hub.Client.Backups.Restores.{
  Control, start_restore, is_missing, handle, press, confirm_start,
}

confirm_start-Settles_good :
    (t : Reply) (s : Screen) → IsFree s → Settles false false s (confirm_start (succeeded t) s)
unfolding confirm_start
confirm_start-Settles_good t s h = ((refl, h.1, h.2), (_, refl, (_, refl)))

confirm_start-Settles_bad :
    (m : Option Text) (s : Screen) → IsFree s → Settles false true s (confirm_start (threw m) s)
unfolding confirm_start
confirm_start-Settles_bad m s h = ((refl, h.1, h.2), (_, refl, (_, refl)))

-- Whether a press is silent, and whether it went wrong.
abbrev pub is_silent : Control → Ending → Bool
is_silent c e = false

abbrev pub went_wrong : Control → Ending → Bool
went_wrong c (threw m) = true
went_wrong c (succeeded t) = false

handle-Settles :
    (c : Control) (e : Ending) (s : Screen)
    → IsFree s
    → Settles (is_silent c e) (went_wrong c e) s (handle c e s)
unfolding handle
handle-Settles (start_restore run_id agent_id dest db) (succeeded t) s h =
    confirm_start-Settles_good t s h
handle-Settles (start_restore run_id agent_id dest db) (threw m) s h =
    confirm_start-Settles_bad m s h

pub press-Settles :
    (c : Control) (e : Ending) (s : Screen)
    → IsFree s
    → is_missing c ≡ false
    → Settles (is_silent c e) (went_wrong c e) s (press c e s)
unfolding press
press-Settles c e s h filled = rw filled (handle-Settles c e s h)
