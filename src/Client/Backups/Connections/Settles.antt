-- ===== src/Client/Backups/Connections/Settles.antt =====
-- Whatever the calls of client/src/features/dbbackups/ConnectionsTab.tsx end with, the buttons are free and it is told.
use server_hub.Prelude.{Bool, true, false, ◌≡◌, refl, String, Option}
use server_hub.Text.{Text}
use server_hub.Types.Backups.{VgConnectionInput}
use server_hub.Client.Backups.Told.{Reply, Ending, succeeded, threw, Screen, is_bad}
use server_hub.Client.Backups.Settled.{IsFree, Settles}
use server_hub.Client.Backups.Connections.{
  Control, new_connection, edit_connection, test_connection, delete_connection, is_missing, handle,
  press, submit, test, confirm_delete,
}

submit-Settles_good :
    (f : VgConnectionInput) (how : String) (t : Reply) (s : Screen)
    → IsFree s
    → Settles false false s (submit f how (succeeded t) s)
unfolding submit
submit-Settles_good f how t s h = ((refl, h.1, h.2), (_, refl, (_, refl)))

submit-Settles_bad :
    (f : VgConnectionInput) (how : String) (m : Option Text) (s : Screen)
    → IsFree s
    → Settles false true s (submit f how (threw m) s)
unfolding submit
submit-Settles_bad f how m s h = ((refl, h.1, h.2), (_, refl, (_, refl)))

test-Settles_good :
    (id : Text) (t : Reply) (s : Screen)
    → IsFree s
    → Settles false (is_bad t) s (test id (succeeded t) s)
unfolding test
test-Settles_good id t s h = ((h.0, h.1, refl), (_, refl, (_, refl)))

test-Settles_bad :
    (id : Text) (m : Option Text) (s : Screen)
    → IsFree s
    → Settles false true s (test id (threw m) s)
unfolding test
test-Settles_bad id m s h = ((h.0, h.1, refl), (_, refl, (_, refl)))

confirm_delete-Settles_good :
    (t : Reply) (s : Screen) → IsFree s → Settles false false s (confirm_delete (succeeded t) s)
unfolding confirm_delete
confirm_delete-Settles_good t s h = ((refl, h.1, h.2), (_, refl, (_, refl)))

confirm_delete-Settles_bad :
    (m : Option Text) (s : Screen) → IsFree s → Settles false true s (confirm_delete (threw m) s)
unfolding confirm_delete
confirm_delete-Settles_bad m s h = ((refl, h.1, h.2), (_, refl, (_, refl)))

-- Whether a press is silent, and whether it went wrong.
abbrev pub is_silent : Control → Ending → Bool
is_silent c e = false

abbrev pub went_wrong : Control → Ending → Bool
went_wrong c (threw m) = true
went_wrong (test_connection id) (succeeded t) = is_bad t
went_wrong c (succeeded t) = false

handle-Settles :
    (c : Control) (e : Ending) (s : Screen)
    → IsFree s
    → Settles (is_silent c e) (went_wrong c e) s (handle c e s)
unfolding handle
handle-Settles (new_connection pw f) (succeeded t) s h = submit-Settles_good f "created" t s h
handle-Settles (new_connection pw f) (threw m) s h = submit-Settles_bad f "created" m s h
handle-Settles (edit_connection id pw f) (succeeded t) s h = submit-Settles_good f "updated" t s h
handle-Settles (edit_connection id pw f) (threw m) s h = submit-Settles_bad f "updated" m s h
handle-Settles (test_connection id) (succeeded t) s h = test-Settles_good id t s h
handle-Settles (test_connection id) (threw m) s h = test-Settles_bad id m s h
handle-Settles (delete_connection id) (succeeded t) s h = confirm_delete-Settles_good t s h
handle-Settles (delete_connection id) (threw m) s h = confirm_delete-Settles_bad m s h

pub press-Settles :
    (c : Control) (e : Ending) (s : Screen)
    → IsFree s
    → is_missing c ≡ false
    → Settles (is_silent c e) (went_wrong c e) s (press c e s)
unfolding press
press-Settles c e s h filled = rw filled (handle-Settles c e s h)
