-- ===== src/Client/Backups/Controls/Allowed.antt =====
-- The controls of the database backups are shown to exactly the roles that the server lets make their calls.
use server_hub.Prelude.{true, false, ◌&&◌, ◌≡◌, refl, [], Option, none, some, arith, ap}
use server_hub.Text.{Text}
use server_hub.Routing.{operator, admin}
use server_hub.Server.Roles.{permits}
use server_hub.Api.Routed.Backup.{backup_access}
use server_hub.Client.Backups.Role.{backups_role}
use server_hub.Client.Backups.Jobs
use server_hub.Client.Backups.Agents
use server_hub.Client.Backups.Connections
use server_hub.Client.Backups.Policies
use server_hub.Client.Backups.Storage
use server_hub.Client.Backups.Runs
use server_hub.Client.Backups.Restores
use server_hub.Client.Backups.Controls.{
  Control, on_job, on_agent, on_connection, on_policy, on_target, on_run, on_restore, offered, flag,
  is_shown, call_of,
}

-- The role of nobody is the empty text, as the server takes it.
abbrev pub role_text : Option Text → Text
role_text none = []
role_text (some r) = r

permits-admin : (role : Option Text) → (backups_role role).is_admin ≡ permits (role_text role) admin
unfolding backups_role permits
permits-admin none = refl
permits-admin (some r) = ground arith

permits-operator :
    (role : Option Text) → (backups_role role).can_mutate ≡ permits (role_text role) operator
unfolding backups_role permits
permits-operator none = refl
permits-operator (some r) = ground arith

permits-both :
    (role : Option Text)
    → ((backups_role role).can_mutate && (backups_role role).is_admin)
      ≡ permits (role_text role) admin
unfolding backups_role permits
permits-both none = refl
permits-both (some r) = ground arith

flag-permits :
    (role : Option Text) (c : Control)
    → flag (backups_role role) c ≡ permits (role_text role) (backup_access (call_of c))
unfolding flag call_of
flag-permits role (on_job (Jobs.new_job f)) = permits-operator role
flag-permits role (on_job (Jobs.edit_job id f)) = permits-operator role
flag-permits role (on_job (Jobs.toggle_job id true)) = permits-operator role
flag-permits role (on_job (Jobs.toggle_job id false)) = permits-operator role
flag-permits role (on_job (Jobs.run_now id)) = permits-operator role
flag-permits role (on_job (Jobs.delete_job id)) = permits-admin role
flag-permits role (on_job (Jobs.check_job id)) = permits-operator role
flag-permits role (on_agent (Agents.rotate_token id revoked)) = permits-admin role
flag-permits role (on_agent (Agents.revoke_agent id revoked)) = permits-admin role
flag-permits role (on_agent Agents.mint_key) = permits-admin role
flag-permits role (on_agent (Agents.mint_token name)) = permits-admin role
flag-permits role (on_agent (Agents.revoke_token id used revoked)) = permits-admin role
flag-permits role (on_connection (Connections.new_connection pw f)) = permits-operator role
flag-permits role (on_connection (Connections.edit_connection id pw f)) = permits-operator role
flag-permits role (on_connection (Connections.test_connection id)) = permits-operator role
flag-permits role (on_connection (Connections.delete_connection id)) = permits-admin role
flag-permits role (on_policy (Policies.new_policy f)) = permits-operator role
flag-permits role (on_policy (Policies.edit_policy id f)) = permits-operator role
flag-permits role (on_policy (Policies.delete_policy id)) = permits-both role
flag-permits role (on_target (Storage.new_target f)) = permits-operator role
flag-permits role (on_target (Storage.test_target id)) = permits-operator role
flag-permits role (on_target (Storage.delete_target id)) = permits-admin role
flag-permits role (on_run (Runs.cancel_run id status)) = permits-operator role
flag-permits role (on_run (Runs.verify_run id status)) = permits-operator role
flag-permits role (on_restore (Restores.start_restore run_id agent_id dest db)) =
    permits-operator role

-- A control is shown to somebody exactly when it is offered for its object and the server lets that role
-- make its call, with the access that the call's route asks for; nobody's role is the empty text.
pub is_shown-permits :
    (role : Option Text) (c : Control)
    → is_shown role c ≡ (permits (role_text role) (backup_access (call_of c)) && offered c)
unfolding is_shown
is_shown-permits role c = ap (λ b. b && offered c) (flag-permits role c)
