-- ===== src/Client/Backups/Policies/Settles.antt =====
-- Whatever the calls of client/src/features/dbbackups/PoliciesTab.tsx end with, the buttons are free and it is told.
use server_hub.Prelude.{Bool, true, false, ◌≡◌, refl, String, Option}
use server_hub.Text.{Text}
use server_hub.Types.Backups.{VgPolicyInput}
use server_hub.Client.Backups.Told.{Reply, Ending, succeeded, threw, Screen}
use server_hub.Client.Backups.Settled.{IsFree, Settles}
use server_hub.Client.Backups.Policies.{
  Control, new_policy, edit_policy, delete_policy, is_missing, handle, press, submit,
  confirm_delete,
}

submit-Settles_good :
    (f : VgPolicyInput) (how : String) (t : Reply) (s : Screen)
    → IsFree s
    → Settles false false s (submit f how (succeeded t) s)
unfolding submit
submit-Settles_good f how t s h = ((refl, h.1, h.2), (_, refl, (_, refl)))

submit-Settles_bad :
    (f : VgPolicyInput) (how : String) (m : Option Text) (s : Screen)
    → IsFree s
    → Settles false true s (submit f how (threw m) s)
unfolding submit
submit-Settles_bad f how m s h = ((refl, h.1, h.2), (_, refl, (_, refl)))

confirm_delete-Settles_good :
    (t : Reply) (s : Screen) → IsFree s → Settles false false s (confirm_delete (succeeded t) s)
unfolding confirm_delete
confirm_delete-Settles_good t s h = ((refl, h.1, h.2), (_, refl, (_, refl)))

confirm_delete-Settles_bad :
    (m : Option Text) (s : Screen) → IsFree s → Settles false true s (confirm_delete (threw m) s)
unfolding confirm_delete
confirm_delete-Settles_bad m s h = ((refl, h.1, h.2), (_, refl, (_, refl)))

-- Whether a press is silent, and whether it went wrong.
abbrev pub is_silent : Control → Ending → Bool
is_silent c e = false

abbrev pub went_wrong : Control → Ending → Bool
went_wrong c (threw m) = true
went_wrong c (succeeded t) = false

handle-Settles :
    (c : Control) (e : Ending) (s : Screen)
    → IsFree s
    → Settles (is_silent c e) (went_wrong c e) s (handle c e s)
unfolding handle
handle-Settles (new_policy f) (succeeded t) s h = submit-Settles_good f "created" t s h
handle-Settles (new_policy f) (threw m) s h = submit-Settles_bad f "created" m s h
handle-Settles (edit_policy id f) (succeeded t) s h = submit-Settles_good f "updated" t s h
handle-Settles (edit_policy id f) (threw m) s h = submit-Settles_bad f "updated" m s h
handle-Settles (delete_policy id) (succeeded t) s h = confirm_delete-Settles_good t s h
handle-Settles (delete_policy id) (threw m) s h = confirm_delete-Settles_bad m s h

pub press-Settles :
    (c : Control) (e : Ending) (s : Screen)
    → IsFree s
    → is_missing c ≡ false
    → Settles (is_silent c e) (went_wrong c e) s (press c e s)
unfolding press
press-Settles c e s h filled = rw filled (handle-Settles c e s h)
