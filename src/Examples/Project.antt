-- ===== src/Examples/Project.antt =====
-- The file browser and the actions on a project at concrete values.
use server_hub.Prelude.{◌≡◌, refl, true, [], none, some}
use server_hub.Text.{codes, trim}
use server_hub.Json.{null}
use server_hub.Client.Toasts.{fresh_ui}
use server_hub.Client.Transfers.{Prompt, making, target_of, ends_with}
use server_hub.Client.Details.{Project, Details}

-- A folder whose name ends like the item's is taken for the whole target.
target_test : target_of (codes "/") (some (codes "/olddata")) (codes "data") ≡ codes "/olddata"
unfolding target_of ends_with trim
target_test = refl

abbrev new_folder : Prompt
new_folder = record { kind = making; item = none; given = codes " music "; dest = none }

abbrev blog : Project
blog = record { id = 7; name = codes "blog" }

abbrev opened : Details
opened = record {
  services = null;
  deployments = null;
  secrets = null;
  backups = null;
  revealed = [];
  pending = none;
  pending_rollback = none;
  pending_restore = none;
  progress = none;
  busy = true;
  new_name = [];
  new_value = [];
  ui = fresh_ui;
  changes = 0;
  refreshes = 0;
}
