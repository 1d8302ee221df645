-- ===== src/Client/Settings.antt =====
-- client/src/features/settings: the controls of the notification rules (NotificationRulesSection.tsx), of
-- the recipient groups (tabs/NotificationsTab.tsx) and of the team (tabs/TeamTab.tsx), by who sees them,
-- what they call and what is told of it.
pub mod Allowed
pub mod Answers
use server_hub.Prelude.{
  ℕ, ◌==◌, Bool, true, false, not, List, [], ◌∷◌, ◌++◌, Option, none, some, map, length, ltb, ◌&&◌,
  ◌||◌, if◌then◌else◌, String,
}
use server_hub.Text.{Text, codes, eqb, is_empty, trim}
use server_hub.Json.{Json, str, num, bool, array, object}
use server_hub.Api.Calls.{Call, notify_call, user_call}
use server_hub.Api.Notify.{
  create_notification_group, delete_notification_group, add_group_member, remove_group_member,
  create_notification_rule, update_notification_rule, delete_notification_rule,
}
use server_hub.Api.User.{create_user, set_user_role, delete_user}
use server_hub.Client.Transitions.{Note}
use server_hub.Client.Rules.{FormState, channels_of, complaint, to_seconds, whole_part}
use server_hub.Client.Rules.Saving.{build_condition_json}

-- The user of the session: name and role, or nobody.
abbrev pub User : Type 0
User = Option (Text × Text)

pub record GroupDetail : Type 0 where
  pub id : ℕ
  pub members : List Text

-- A control with what it works on: a form, the rule or group, or the member of the team.
pub data Control : Type 0 where
  new_rule : FormState → Control
  edit_rule : ℕ → FormState → Control
  toggle_rule : ℕ → Bool → Control
  delete_rule : ℕ → Control
  create_group : Text → Text → Control
  delete_group : ℕ → Control
  add_member : GroupDetail → Text → Control
  remove_member : ℕ → ℕ → Control
  add_user : Text → Text → Text → Control
  change_role : Text → Text → Control
  remove_user : Text → Control

has_role : String → User → Bool
has_role w none = false
has_role w (some (name, r)) = eqb r (codes w)

-- `isAdmin` and `canEdit`
unfoldable pub is_admin : User → Bool
unfolding has_role
is_admin u = has_role "admin" u

unfoldable pub can_edit : User → Bool
unfolding has_role is_admin
can_edit u = has_role "operator" u || is_admin u

unfoldable pub is_self : User → Text → Bool
is_self none username = false
is_self (some (name, r)) username = eqb username name

-- Whether the control is there for somebody with the right to use it.
unfoldable pub offered : User → Control → Bool
unfolding is_self
offered u (add_member g email) = ltb (length g.members) 10
offered u (change_role username role) = not (is_self u username)
offered u (remove_user username) = not (is_self u username)
offered u _ = true

unfoldable pub flag : User → Control → Bool
unfolding is_admin can_edit
flag u (delete_rule id) = is_admin u
flag u (delete_group id) = is_admin u
flag u (add_user name password role) = is_admin u
flag u (change_role username role) = is_admin u
flag u (remove_user username) = is_admin u
flag u _ = can_edit u

unfoldable pub is_shown : User → Control → Bool
unfolding offered flag
is_shown u c = flag u c && offered u c

text_field : String → Option Text → List (String × Json)
text_field k none = []
text_field k (some t) = (k, str t) ∷ []

-- The body of `submit`, as `JSON.stringify` gets it.
unfoldable pub rule_json : FormState → Json
unfolding build_condition_json channels_of to_seconds trim whole_part text_field
rule_json f = object (
    ("name", str (trim f.name))
    ∷ ("description", str (trim f.description))
    ∷ ("enabled", bool f.enabled)
    ∷ ("eventType", str f.event_type)
    ∷ (text_field "severity" (if is_empty f.severity then none else some f.severity)
        ++ (text_field "conditionJson" (build_condition_json f)
            ++ ("notificationGroupId", num (whole_part 0 f.group_id))
              ∷ ("channels", array (map str (channels_of f)))
              ∷ ("cooldownSeconds", num (to_seconds f.cooldown f.cooldown_unit))
              ∷ ("notifyOnRecovery", bool f.notify_on_recovery)
              ∷ [])))

unfoldable pub call_of : Control → Call
unfolding rule_json trim
call_of (new_rule f) = notify_call (create_notification_rule (rule_json f))
call_of (edit_rule id f) = notify_call (update_notification_rule id (rule_json f))
call_of (toggle_rule id enabled) =
    notify_call (update_notification_rule id (object (("enabled", bool (not enabled)) ∷ [])))
call_of (delete_rule id) = notify_call (delete_notification_rule id)
call_of (create_group name desc) =
    notify_call (create_notification_group (trim name) (some (trim desc)))
call_of (delete_group id) = notify_call (delete_notification_group id)
call_of (add_member g email) = notify_call (add_group_member g.id (trim email))
call_of (remove_member id member) = notify_call (remove_group_member id member)
call_of (add_user name password role) = user_call (create_user (trim name) password role)
call_of (change_role username role) = user_call (set_user_role username role)
call_of (remove_user username) = user_call (delete_user username)

-- Whether its handler sends nothing, as a form lacks something.
unfoldable pub is_missing : Control → Bool
unfolding complaint trim
is_missing (new_rule f) = elim (complaint f) [ none ↦ false | some text ↦ true ]
is_missing (edit_rule id f) = elim (complaint f) [ none ↦ false | some text ↦ true ]
is_missing (create_group name desc) = is_empty (trim name)
is_missing (add_member g email) = is_empty (trim email)
is_missing (add_user name password role) = is_empty (trim name) || is_empty password
is_missing _ = false
