-- ===== src/Client/Backups/Runs/Settles.antt =====
-- Whatever the calls of client/src/features/dbbackups/RunsTab.tsx end with, the buttons are free and it is told.
use server_hub.Prelude.{Bool, true, false, refl, ap, ◌∙◌, String, [], ◌∷◌, ◌++◌, Option}
use server_hub.Text.{Text, codes}
use server_hub.Client.Backups.Told.{Reply, Ending, succeeded, threw, Screen, close, stay}
use server_hub.Client.Backups.Settled.{IsFree, IsNeutral, Settles}
use server_hub.Client.Backups.Runs.{Control, cancel_run, verify_run, handle, press, act}

act-Settles_good :
    (effect : Screen → Screen) (label : String) (stays : IsNeutral effect) (t : Reply) (s : Screen)
    → IsFree s
    → Settles false false s (act effect label (succeeded t) s)
unfolding act
act-Settles_good effect label stays t s h =
    let same = stays (record s { busy = true }) in
    (
      (refl, same.1 ∙ h.1, same.2 ∙ h.2),
      (
        (codes label, false) ∷ [],
        ap (λ l. l ++ (codes label, false) ∷ []) same.3,
        (codes label, refl),
      ),
    )

act-Settles_bad :
    (effect : Screen → Screen) (label : String) (m : Option Text) (s : Screen)
    → IsFree s
    → Settles false true s (act effect label (threw m) s)
unfolding act
act-Settles_bad effect label m s h = ((refl, h.1, h.2), (_, refl, (_, refl)))

-- Whether a press is silent, and whether it went wrong.
abbrev pub is_silent : Control → Ending → Bool
is_silent c e = false

abbrev pub went_wrong : Control → Ending → Bool
went_wrong c (threw m) = true
went_wrong c (succeeded t) = false

handle-Settles :
    (c : Control) (e : Ending) (s : Screen)
    → IsFree s
    → Settles (is_silent c e) (went_wrong c e) s (handle c e s)
unfolding handle
handle-Settles (cancel_run id status) (succeeded t) s h =
    act-Settles_good close "Run cancelled" (λ p. (refl, refl, refl, refl)) t s h
handle-Settles (cancel_run id status) (threw m) s h = act-Settles_bad close "Run cancelled" m s h
handle-Settles (verify_run id status) (succeeded t) s h =
    act-Settles_good stay "Verification finished" (λ p. (refl, refl, refl, refl)) t s h
handle-Settles (verify_run id status) (threw m) s h =
    act-Settles_bad stay "Verification finished" m s h

pub press-Settles :
    (c : Control) (e : Ending) (s : Screen)
    → IsFree s
    → Settles (is_silent c e) (went_wrong c e) s (press c e s)
unfolding press
press-Settles c e s h = handle-Settles c e s h
