-- ===== src/Client/Wizard/Once.antt =====
-- The wizard creates one server and one token, and listens as long as it says.
use server_hub.Prelude.{◌≡◌, subst}
use server_hub.Client.Wizard.{timeout, connecting, Step, connecting, timeout, Wizard}
use server_hub.Client.Wizard.Based.{IsPlaced, IsOnce}

abbrev placed_at :
    (s : Step) (w : Wizard) → w.step ≡ s → IsOnce w → IsPlaced s w.server_id w.agent_token
placed_at s w e h = subst (λ t. IsPlaced t w.server_id w.agent_token) e h.based.placed
