-- ===== src/Client/Backups/Agents.antt =====
-- client/src/features/dbbackups/AgentsTab.tsx: the keys and tokens of agents, and the card of an agent.
pub mod Settles
use server_hub.Prelude.{
  String, true, false, none, some, [], Bool, not, List, ◌∷◌, ◌&&◌, if◌then◌else◌,
}
use server_hub.Text.{codes, Text, is_empty, trim}
use server_hub.Json.{Json, str, object}
use server_hub.Api.Backup
use server_hub.Api.Backup.{BackupCall}
use server_hub.Client.Backups.Role.{BackupsRole}
use server_hub.Client.Backups.Told.{
  Reply, Ending, succeeded, threw, Screen, set_busy, set_checking, set_testing, push, reload, close,
  stay, set_secret, show_checks, saved, found_text, test_text, is_bad, thrown,
}

name_body : Text → Json
unfolding trim
name_body name = if is_empty (trim name) then object [] else object (("name", str (trim name)) ∷ [])

-- The controls of the tab with what their calls need, and with what they are shown for.
pub data Control : Type 0 where
  rotate_token revoke_agent : Text → Bool → Control
  mint_key : Control
  mint_token : Text → Control
  revoke_token : Text → Bool → Bool → Control

-- Whether the control is there for somebody who may use it.
unfoldable pub offered : Control → Bool
offered (rotate_token id revoked) = not revoked
offered (revoke_agent id revoked) = not revoked
offered (revoke_token id used revoked) = not used && not revoked
offered _ = true

-- The flag that the control is shown by.
unfoldable pub flag : BackupsRole → Control → Bool
flag r c = r.is_admin

unfoldable pub call_of : Control → BackupCall
unfolding name_body
call_of (rotate_token id revoked) = Backup.rotate_agent_token id
call_of (revoke_agent id revoked) = Backup.revoke_agent id
call_of mint_key = Backup.mint_registration_token
call_of (mint_token name) = Backup.mint_enroll_token (some (name_body name))
call_of (revoke_token id used revoked) = Backup.revoke_enroll_token id

-- `act` of a card; `effect` is what its function does after the call.
act_tried : (Screen → Screen) → String → Ending → Screen → Screen
unfolding thrown
act_tried effect label (succeeded t) s = reload (push (codes label) false (effect s))
act_tried effect label (threw m) s = push (thrown "Failed" m) true s

unfoldable pub act : (Screen → Screen) → String → Ending → Screen → Screen
unfolding act_tried
act effect label e s = set_busy false (act_tried effect label e (set_busy true s))

-- The button that rotates a token.
rotate_tried : Ending → Screen → Screen
unfolding thrown
rotate_tried (succeeded t) s =
    reload (push (codes "New token issued; old token invalidated") false (set_secret t.secret s))
rotate_tried (threw m) s = push (thrown "Failed" m) true s

unfoldable pub rotate : Ending → Screen → Screen
unfolding rotate_tried
rotate e s = set_busy false (rotate_tried e (set_busy true s))

-- `mint`
mint_tried : String → Ending → Screen → Screen
unfolding thrown
mint_tried label (succeeded t) s = reload (push (codes label) false (set_secret t.secret s))
mint_tried label (threw m) s = push (thrown "Failed" m) true s

unfoldable pub mint : String → Ending → Screen → Screen
unfolding mint_tried
mint label e s = set_busy false (mint_tried label e (set_busy true s))

-- `revokeToken`
revoke_tried : Ending → Screen → Screen
unfolding thrown
revoke_tried (succeeded t) s = reload (push (codes "Token revoked") false s)
revoke_tried (threw m) s = push (thrown "Failed" m) true s

unfoldable pub revoke : Ending → Screen → Screen
unfolding revoke_tried
revoke e s = set_busy false (revoke_tried e (set_busy true s))

-- What happens when the control is pressed and its call ends.
unfoldable pub handle : Control → Ending → Screen → Screen
unfolding rotate act mint revoke
handle (rotate_token id revoked) e s = rotate e s
handle (revoke_agent id revoked) e s = act close "Agent revoked" e s
handle mint_key e s = mint "Registration key created" e s
handle (mint_token name) e s = mint "Enrollment token created" e s
handle (revoke_token id used revoked) e s = revoke e s

unfoldable pub press : Control → Ending → Screen → Screen
unfolding handle
press c e s = handle c e s
