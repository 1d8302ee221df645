-- ===== src/Client/Backups/Agents/Settles.antt =====
-- Whatever the calls of client/src/features/dbbackups/AgentsTab.tsx end with, the buttons are free and it is told.
use server_hub.Prelude.{Bool, true, false, refl, ap, ◌∙◌, String, [], ◌∷◌, ◌++◌, Option}
use server_hub.Text.{Text, codes}
use server_hub.Client.Backups.Told.{Reply, Ending, succeeded, threw, Screen, close}
use server_hub.Client.Backups.Settled.{IsFree, IsNeutral, Settles}
use server_hub.Client.Backups.Agents.{
  Control, rotate_token, revoke_agent, mint_key, mint_token, revoke_token, handle, press, rotate,
  act, mint, revoke,
}

act-Settles_good :
    (effect : Screen → Screen) (label : String) (stays : IsNeutral effect) (t : Reply) (s : Screen)
    → IsFree s
    → Settles false false s (act effect label (succeeded t) s)
unfolding act
act-Settles_good effect label stays t s h =
    let same = stays (record s { busy = true }) in
    (
      (refl, same.1 ∙ h.1, same.2 ∙ h.2),
      (
        (codes label, false) ∷ [],
        ap (λ l. l ++ (codes label, false) ∷ []) same.3,
        (codes label, refl),
      ),
    )

act-Settles_bad :
    (effect : Screen → Screen) (label : String) (m : Option Text) (s : Screen)
    → IsFree s
    → Settles false true s (act effect label (threw m) s)
unfolding act
act-Settles_bad effect label m s h = ((refl, h.1, h.2), (_, refl, (_, refl)))

rotate-Settles_good :
    (t : Reply) (s : Screen) → IsFree s → Settles false false s (rotate (succeeded t) s)
unfolding rotate
rotate-Settles_good t s h = ((refl, h.1, h.2), (_, refl, (_, refl)))

rotate-Settles_bad :
    (m : Option Text) (s : Screen) → IsFree s → Settles false true s (rotate (threw m) s)
unfolding rotate
rotate-Settles_bad m s h = ((refl, h.1, h.2), (_, refl, (_, refl)))

mint-Settles_good :
    (label : String) (t : Reply) (s : Screen)
    → IsFree s
    → Settles false false s (mint label (succeeded t) s)
unfolding mint
mint-Settles_good label t s h = ((refl, h.1, h.2), (_, refl, (_, refl)))

mint-Settles_bad :
    (label : String) (m : Option Text) (s : Screen)
    → IsFree s
    → Settles false true s (mint label (threw m) s)
unfolding mint
mint-Settles_bad label m s h = ((refl, h.1, h.2), (_, refl, (_, refl)))

revoke-Settles_good :
    (t : Reply) (s : Screen) → IsFree s → Settles false false s (revoke (succeeded t) s)
unfolding revoke
revoke-Settles_good t s h = ((refl, h.1, h.2), (_, refl, (_, refl)))

revoke-Settles_bad :
    (m : Option Text) (s : Screen) → IsFree s → Settles false true s (revoke (threw m) s)
unfolding revoke
revoke-Settles_bad m s h = ((refl, h.1, h.2), (_, refl, (_, refl)))

-- Whether a press is silent, and whether it went wrong.
abbrev pub is_silent : Control → Ending → Bool
is_silent c e = false

abbrev pub went_wrong : Control → Ending → Bool
went_wrong c (threw m) = true
went_wrong c (succeeded t) = false

handle-Settles :
    (c : Control) (e : Ending) (s : Screen)
    → IsFree s
    → Settles (is_silent c e) (went_wrong c e) s (handle c e s)
unfolding handle
handle-Settles (rotate_token id revoked) (succeeded t) s h = rotate-Settles_good t s h
handle-Settles (rotate_token id revoked) (threw m) s h = rotate-Settles_bad m s h
handle-Settles (revoke_agent id revoked) (succeeded t) s h =
    act-Settles_good close "Agent revoked" (λ p. (refl, refl, refl, refl)) t s h
handle-Settles (revoke_agent id revoked) (threw m) s h = act-Settles_bad close "Agent revoked" m s h
handle-Settles mint_key (succeeded t) s h = mint-Settles_good "Registration key created" t s h
handle-Settles mint_key (threw m) s h = mint-Settles_bad "Registration key created" m s h
handle-Settles (mint_token name) (succeeded t) s h =
    mint-Settles_good "Enrollment token created" t s h
handle-Settles (mint_token name) (threw m) s h = mint-Settles_bad "Enrollment token created" m s h
handle-Settles (revoke_token id used revoked) (succeeded t) s h = revoke-Settles_good t s h
handle-Settles (revoke_token id used revoked) (threw m) s h = revoke-Settles_bad m s h

pub press-Settles :
    (c : Control) (e : Ending) (s : Screen)
    → IsFree s
    → Settles (is_silent c e) (went_wrong c e) s (press c e s)
unfolding press
press-Settles c e s h = handle-Settles c e s h
