-- ===== src/Client/Transfers/Prompted.antt =====
-- What the prompt of the web client's file browser asks the server for.
use server_hub.Prelude.{◌≡◌, Bool, true, false, Option, none, some, arith}
use server_hub.Text.{Text, is_empty, trim}
use server_hub.Routing.{operator}
use server_hub.Api.Transfer.{TransferCall}
use server_hub.Api.Routed.Transfer.{transfer_access}
use server_hub.Client.Transfers.{Prompt, PromptKind, making, asked, submitted, submit_prompt}

asked-operator :
    (path v : Text) (kind : PromptKind) (item : Option (Text × Text)) (dest : Option Text)
    (c : TransferCall) (m : Text)
    → asked path v kind item dest ≡ some (c, m)
    → transfer_access c ≡ operator
unfolding asked
asked-operator path v making item dest c m h = ground arith
asked-operator path v _ none dest c m h = cc
asked-operator path v _ (some (p, name)) dest c m h = ground arith

-- The prompt calls the server only for somebody who may change files and has given a name, and then for
-- what the server lets operators do.
pub submit_prompt-operator :
    (can_mutate : Bool) (path : Text) (prompt : Prompt) (c : TransferCall) (m : Text)
    → submit_prompt can_mutate path (some prompt) ≡ submitted (some (c, m))
    → (can_mutate ≡ true) × (is_empty (trim prompt.given) ≡ false) × (transfer_access c ≡ operator)
unfolding submit_prompt
submit_prompt-operator can_mutate path prompt c m h =
    ground (arith, asked-operator path (trim prompt.given) prompt.kind prompt.item prompt.dest c m)
