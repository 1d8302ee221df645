-- ===== src/Client/Settings/Answers.antt =====
-- client/src/features/settings: what the calls of the controls leave of the groups and of the team.
use server_hub.Prelude.{
  ℕ, ◌==◌, String, Bool, true, false, List, [], ◌∷◌, ◌++◌, Option, none, some, if◌then◌else◌,
}
use server_hub.Text.{Text, codes}
use server_hub.Client.Transitions.{Note}
use server_hub.Client.Settings.{
  GroupDetail, Control, new_rule, edit_rule, toggle_rule, delete_rule, create_group, delete_group,
  add_member, remove_member, add_user, change_role, remove_user,
}

-- The states of the groups and of the team.
pub record Panel : Type 0 where
  pub group_detail : Option GroupDetail
  pub confirm_delete_group : Option ℕ
  pub new_group_name : Text
  pub new_group_desc : Text
  pub new_member_email : Text
  pub new_username : Text
  pub new_password : Text
  pub new_role : Text
  pub show_add_modal : Bool
  pub user_to_delete : Option Text
  pub notes : List Note

say : Text → Bool → Panel → Panel
say text bad p = record p { notes = p.notes ++ (text, bad) ∷ [] }

named : String → Text → String → Text
named a name b = codes a ++ (name ++ codes b)

-- `if (groupDetail?.id === doomed) setGroupDetail(null)`
without : ℕ → Option GroupDetail → Option GroupDetail
without doomed none = none
without doomed (some g) = if g.id == doomed then none else some g

-- What a call that went well sets before anything is loaded anew; the server answers the creation of a
-- group with its name.
unfoldable pub succeed : Text → Control → Panel → Panel
unfolding say named without
succeed g_name (new_rule f) p = say (codes "Rule created.") false p
succeed g_name (edit_rule id f) p = say (codes "Rule updated.") false p
succeed g_name (toggle_rule id enabled) p = p
succeed g_name (delete_rule id) p = say (codes "Rule deleted.") false p
succeed g_name (create_group name desc) p =
    say (named "Group \"" g_name "\" created.") false
      (record p { new_group_name = []; new_group_desc = [] })
succeed g_name (delete_group id) p =
    record (say (codes "Group deleted. Email falls back to the To address.") false p) {
      confirm_delete_group = none;
      group_detail = without id p.group_detail;
    }
succeed g_name (add_member g email) p =
    say (codes "Member added.") false (record p { new_member_email = [] })
succeed g_name (remove_member id member) p = say (codes "Member removed.") false p
succeed g_name (add_user name password role) p =
    record (say (named "Team member \"" name "\" added") false p) {
      new_username = [];
      new_password = [];
      new_role = codes "operator";
      show_add_modal = false;
    }
succeed g_name (change_role username role) p =
    say (codes "Role for \"" ++ (username ++ (codes "\" updated to " ++ role))) false p
succeed g_name (remove_user username) p =
    record (say (named "User \"" username "\" removed") false p) { user_to_delete = none }

fallback : Control → String
fallback (new_rule f) = "Save failed"
fallback (edit_rule id f) = "Save failed"
fallback (toggle_rule id enabled) = "Update failed"
fallback (delete_rule id) = "Delete failed"
fallback (create_group name desc) = "Create failed"
fallback (delete_group id) = "Delete failed"
fallback (add_member g email) = "Add failed"
fallback (remove_member id member) = "Remove failed"
fallback (add_user name password role) = "Failed to create user"
fallback (change_role username role) = "Failed to update role"
fallback (remove_user username) = "Failed to remove user"

message_of : Control → Option Text → Text
unfolding fallback
message_of c none = codes (fallback c)
message_of c (some m) = m

-- How a call ends: well, with the name of a created group; or with the message of an error, none where what
-- is thrown is no error.
pub data Ending : Type 0 where
  succeeded : Text → Ending
  threw : Option Text → Ending

unfoldable pub answer : Control → Ending → Panel → Panel
unfolding succeed say message_of
answer c (succeeded g_name) p = succeed g_name c p
answer c (threw m) p = say (message_of c m) true p
