-- ===== src/Client/Settings/Allowed.antt =====
-- The controls of the settings are shown to exactly the roles that the server lets make their calls.
use server_hub.Prelude.{◌&&◌, ◌≡◌, refl, [], none, some, arith, ap}
use server_hub.Text.{Text}
use server_hub.Routing.{operator, admin}
use server_hub.Server.Roles.{permits}
use server_hub.Api.Calls.{access}
use server_hub.Client.Settings.{
  User, Control, new_rule, edit_rule, toggle_rule, delete_rule, create_group, delete_group,
  add_member, remove_member, add_user, change_role, remove_user, is_admin, can_edit, offered, flag,
  is_shown, call_of,
}

-- The role of nobody is the empty text, as the server takes it.
abbrev pub role_of : User → Text
role_of none = []
role_of (some (name, r)) = r

permits-is_admin : (u : User) → is_admin u ≡ permits (role_of u) admin
unfolding is_admin permits
permits-is_admin none = refl
permits-is_admin (some (name, r)) = ground arith

permits-can_edit : (u : User) → can_edit u ≡ permits (role_of u) operator
unfolding can_edit permits
permits-can_edit none = refl
permits-can_edit (some (name, r)) = ground arith

permits-flag : (u : User) (c : Control) → flag u c ≡ permits (role_of u) (access (call_of c))
unfolding flag call_of
permits-flag u (new_rule f) = permits-can_edit u
permits-flag u (edit_rule id f) = permits-can_edit u
permits-flag u (toggle_rule id enabled) = permits-can_edit u
permits-flag u (delete_rule id) = permits-is_admin u
permits-flag u (create_group name desc) = permits-can_edit u
permits-flag u (delete_group id) = permits-is_admin u
permits-flag u (add_member g email) = permits-can_edit u
permits-flag u (remove_member id member) = permits-can_edit u
permits-flag u (add_user name password role) = permits-is_admin u
permits-flag u (change_role username role) = permits-is_admin u
permits-flag u (remove_user username) = permits-is_admin u

-- A control of the rules, the groups or the team is shown to somebody exactly when it is offered for its
-- object and the server lets that role make its call, with the access that the call's route asks for.
pub permits-is_shown :
    (u : User) (c : Control)
    → is_shown u c ≡ (permits (role_of u) (access (call_of c)) && offered u c)
unfolding is_shown
permits-is_shown u c = ap (λ b. b && offered u c) (permits-flag u c)
