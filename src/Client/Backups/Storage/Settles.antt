-- ===== src/Client/Backups/Storage/Settles.antt =====
-- Whatever the calls of client/src/features/dbbackups/StorageTab.tsx end with, the buttons are free and it is told.
use server_hub.Prelude.{Bool, true, false, ◌≡◌, refl, Option}
use server_hub.Text.{Text}
use server_hub.Types.Backups.{VgStorageInput}
use server_hub.Client.Backups.Told.{Reply, Ending, succeeded, threw, Screen, is_bad}
use server_hub.Client.Backups.Settled.{IsFree, Settles}
use server_hub.Client.Backups.Storage.{
  Control, new_target, test_target, delete_target, is_missing, handle, press, submit, test,
  confirm_delete,
}

submit-Settles_good :
    (f : VgStorageInput) (t : Reply) (s : Screen)
    → IsFree s
    → Settles false false s (submit f (succeeded t) s)
unfolding submit
submit-Settles_good f t s h = ((refl, h.1, h.2), (_, refl, (_, refl)))

submit-Settles_bad :
    (f : VgStorageInput) (m : Option Text) (s : Screen)
    → IsFree s
    → Settles false true s (submit f (threw m) s)
unfolding submit
submit-Settles_bad f m s h = ((refl, h.1, h.2), (_, refl, (_, refl)))

test-Settles_good :
    (id : Text) (t : Reply) (s : Screen)
    → IsFree s
    → Settles false (is_bad t) s (test id (succeeded t) s)
unfolding test
test-Settles_good id t s h = ((h.0, h.1, refl), (_, refl, (_, refl)))

test-Settles_bad :
    (id : Text) (m : Option Text) (s : Screen)
    → IsFree s
    → Settles false true s (test id (threw m) s)
unfolding test
test-Settles_bad id m s h = ((h.0, h.1, refl), (_, refl, (_, refl)))

confirm_delete-Settles_good :
    (t : Reply) (s : Screen) → IsFree s → Settles false false s (confirm_delete (succeeded t) s)
unfolding confirm_delete
confirm_delete-Settles_good t s h = ((refl, h.1, h.2), (_, refl, (_, refl)))

confirm_delete-Settles_bad :
    (m : Option Text) (s : Screen) → IsFree s → Settles false true s (confirm_delete (threw m) s)
unfolding confirm_delete
confirm_delete-Settles_bad m s h = ((refl, h.1, h.2), (_, refl, (_, refl)))

-- Whether a press is silent, and whether it went wrong.
abbrev pub is_silent : Control → Ending → Bool
is_silent c e = false

abbrev pub went_wrong : Control → Ending → Bool
went_wrong c (threw m) = true
went_wrong (test_target id) (succeeded t) = is_bad t
went_wrong c (succeeded t) = false

handle-Settles :
    (c : Control) (e : Ending) (s : Screen)
    → IsFree s
    → Settles (is_silent c e) (went_wrong c e) s (handle c e s)
unfolding handle
handle-Settles (new_target f) (succeeded t) s h = submit-Settles_good f t s h
handle-Settles (new_target f) (threw m) s h = submit-Settles_bad f m s h
handle-Settles (test_target id) (succeeded t) s h = test-Settles_good id t s h
handle-Settles (test_target id) (threw m) s h = test-Settles_bad id m s h
handle-Settles (delete_target id) (succeeded t) s h = confirm_delete-Settles_good t s h
handle-Settles (delete_target id) (threw m) s h = confirm_delete-Settles_bad m s h

pub press-Settles :
    (c : Control) (e : Ending) (s : Screen)
    → IsFree s
    → is_missing c ≡ false
    → Settles (is_silent c e) (went_wrong c e) s (press c e s)
unfolding press
press-Settles c e s h filled = rw filled (handle-Settles c e s h)
