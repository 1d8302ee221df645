-- ===== src/Client/Backups/Jobs/Settles.antt =====
-- Whatever the calls of client/src/features/dbbackups/JobsTab.tsx end with, the buttons are free and it is told.
use server_hub.Prelude.{
  Bool, true, false, if◌then◌else◌, ◌≡◌, refl, sym, ap, ◌∙◌, append-nil, String, [], ◌∷◌, ◌++◌,
  Option,
}
use server_hub.Text.{Text, codes}
use server_hub.Types.Backups.{VgJobInput}
use server_hub.Client.Backups.Told.{Reply, Ending, succeeded, threw, Screen, close, stay}
use server_hub.Client.Backups.Settled.{IsFree, IsNeutral, Settles}
use server_hub.Client.Backups.Jobs.{
  Control, new_job, edit_job, toggle_job, run_now, delete_job, check_job, is_missing, handle, press,
  submit, act, run_preflight,
}

submit-Settles_good :
    (f : VgJobInput) (how : String) (t : Reply) (s : Screen)
    → IsFree s
    → Settles false false s (submit f how (succeeded t) s)
unfolding submit
submit-Settles_good f how t s h = ((refl, h.1, h.2), (_, refl, (_, refl)))

submit-Settles_bad :
    (f : VgJobInput) (how : String) (m : Option Text) (s : Screen)
    → IsFree s
    → Settles false true s (submit f how (threw m) s)
unfolding submit
submit-Settles_bad f how m s h = ((refl, h.1, h.2), (_, refl, (_, refl)))

act-Settles_good :
    (effect : Screen → Screen) (label : String) (stays : IsNeutral effect) (t : Reply) (s : Screen)
    → IsFree s
    → Settles false false s (act effect label (succeeded t) s)
unfolding act
act-Settles_good effect label stays t s h =
    let same = stays (record s { busy = true }) in
    (
      (refl, same.1 ∙ h.1, same.2 ∙ h.2),
      (
        (codes label, false) ∷ [],
        ap (λ l. l ++ (codes label, false) ∷ []) same.3,
        (codes label, refl),
      ),
    )

act-Settles_bad :
    (effect : Screen → Screen) (label : String) (m : Option Text) (s : Screen)
    → IsFree s
    → Settles false true s (act effect label (threw m) s)
unfolding act
act-Settles_bad effect label m s h = ((refl, h.1, h.2), (_, refl, (_, refl)))

run_preflight-Settles_good :
    (t : Reply) (s : Screen) → IsFree s → Settles true false s (run_preflight (succeeded t) s)
unfolding run_preflight
run_preflight-Settles_good t s h = ((h.0, refl, h.2), ([], sym (append-nil s.notes), refl))

run_preflight-Settles_bad :
    (m : Option Text) (s : Screen) → IsFree s → Settles false true s (run_preflight (threw m) s)
unfolding run_preflight
run_preflight-Settles_bad m s h = ((h.0, refl, h.2), (_, refl, (_, refl)))

-- Whether a press is silent, and whether it went wrong.
abbrev pub is_silent : Control → Ending → Bool
is_silent (check_job id) (succeeded t) = true
is_silent c e = false

abbrev pub went_wrong : Control → Ending → Bool
went_wrong c (threw m) = true
went_wrong c (succeeded t) = false

handle-Settles :
    (c : Control) (e : Ending) (s : Screen)
    → IsFree s
    → Settles (is_silent c e) (went_wrong c e) s (handle c e s)
unfolding handle
handle-Settles (new_job f) (succeeded t) s h = submit-Settles_good f "created" t s h
handle-Settles (new_job f) (threw m) s h = submit-Settles_bad f "created" m s h
handle-Settles (edit_job id f) (succeeded t) s h = submit-Settles_good f "updated" t s h
handle-Settles (edit_job id f) (threw m) s h = submit-Settles_bad f "updated" m s h
handle-Settles (toggle_job id enabled) (succeeded t) s h =
    act-Settles_good stay (if enabled then "Schedule paused" else "Schedule resumed")
      (λ p. (refl, refl, refl, refl)) t s h
handle-Settles (toggle_job id enabled) (threw m) s h =
    act-Settles_bad stay (if enabled then "Schedule paused" else "Schedule resumed") m s h
handle-Settles (run_now id) (succeeded t) s h =
    act-Settles_good stay "Backup started" (λ p. (refl, refl, refl, refl)) t s h
handle-Settles (run_now id) (threw m) s h = act-Settles_bad stay "Backup started" m s h
handle-Settles (delete_job id) (succeeded t) s h =
    act-Settles_good close "Job deleted" (λ p. (refl, refl, refl, refl)) t s h
handle-Settles (delete_job id) (threw m) s h = act-Settles_bad close "Job deleted" m s h
handle-Settles (check_job id) (succeeded t) s h = run_preflight-Settles_good t s h
handle-Settles (check_job id) (threw m) s h = run_preflight-Settles_bad m s h

pub press-Settles :
    (c : Control) (e : Ending) (s : Screen)
    → IsFree s
    → is_missing c ≡ false
    → Settles (is_silent c e) (went_wrong c e) s (press c e s)
unfolding press
press-Settles c e s h filled = rw filled (handle-Settles c e s h)
