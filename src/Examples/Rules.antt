-- ===== src/Examples/Rules.antt =====
-- The form of a notification rule and the controls of the settings at concrete values.
use server_hub.Prelude.{◌≡◌, ◌&&◌, refl, true, false, [], ◌∷◌, none, some}
use server_hub.Text.{codes, trim, join}
use server_hub.Text.Decimal.{show}
use server_hub.Json.{real, null, num, array}
use server_hub.Client.Rules.{
  NotificationRule, FormState, empty_form, to_seconds, start_edit, channels_of, complaint, hours,
}
use server_hub.Client.Rules.Kept.{start_edit-kept}
use server_hub.Client.Rules.Saving.{number_of, payload, build_condition_json}
use server_hub.Client.Rules.Lost.{payload-lost}
use server_hub.Server.Rules.{RuleRow, merged}
use server_hub.Server.Roles.{permits}
use server_hub.Api.Calls.{access}
use server_hub.Client.Settings.{
  User, remove_user, add_user, delete_group, is_shown, offered, call_of,
}
use server_hub.Client.Settings.Answers.{Panel, succeeded, answer}
use server_hub.Client.Settings.Allowed.{role_of, permits-is_shown}

abbrev load_rule : NotificationRule
load_rule = record {
  id = 4;
  name = codes "Load";
  event_type = codes "ALERT_OPENED";
  severity = [];
  condition = some (record {
    field = codes "value";
    operator = codes "in";
    target = array (num 1 ∷ num 2 ∷ []);
  });
  notification_group_id = 2;
  channels = codes "EMAIL,IN_APP";
  cooldown_seconds = 7200;
  notify_on_recovery = true;
  enabled = true;
}

abbrev both : FormState
both = record empty_form { in_app = true }

start_edit-kept_example :
    (to_seconds (start_edit load_rule).cooldown (start_edit load_rule).cooldown_unit ≡ 7200)
    × (channels_of (start_edit load_rule) ≡ channels_of both)
unfolding channels_of join
start_edit-kept_example = start_edit-kept load_rule both refl

-- An edited rule shows its condition and the hours of its cooldown, but not its description.
load_rule-shown :
    ((start_edit load_rule).cond_value ≡ codes "1, 2")
    × ((start_edit load_rule).cooldown ≡ codes "2")
    × ((start_edit load_rule).cooldown_unit ≡ hours)
    × ((start_edit load_rule).description ≡ [])
unfolding start_edit show
load_rule-shown = (refl, refl, refl, refl)

complaint_test : complaint empty_form ≡ some (codes "Name and recipient group are required")
unfolding complaint trim
complaint_test = refl

abbrev stored_rule : RuleRow
stored_rule = record {
  name = codes "Load";
  description = codes "Wakes the night shift";
  enabled = true;
  event_type = codes "SERVER_ALERT";
  severity = codes "CRITICAL";
  condition_json = codes "{\"field\":\"value\"}";
  notification_group_id = 2;
  channels = codes "EMAIL" ∷ [];
  cooldown_seconds = 7200;
  notify_on_recovery = true;
  repeat_interval_sec = 0;
  max_repeats = 0;
  digest_mode = codes "immediate";
  digest_interval_min = 60;
  group_by = [];
}

payload-lost_example :
    ((merged (payload empty_form) stored_rule).condition_json ≡ stored_rule.condition_json)
    × ((merged (payload empty_form) stored_rule).severity ≡ codes "CRITICAL")
    × ((merged (payload (start_edit load_rule)) stored_rule).description ≡ [])
payload-lost_example = payload-lost load_rule empty_form stored_rule refl refl

-- The condition of an opened rule is sent as it was.
load_rule-sent :
    build_condition_json (start_edit load_rule)
    ≡ some (codes "{\"field\":\"value\",\"operator\":\"in\",\"value\":[1,2]}")
unfolding build_condition_json start_edit trim show
load_rule-sent = refl

abbrev boss : User
boss = some (codes "boss", codes "admin")

permits-is_shown_example : is_shown boss (remove_user (codes "boss")) ≡ (
    permits (role_of boss) (access (call_of (remove_user (codes "boss"))))
    && offered boss (remove_user (codes "boss")))
permits-is_shown_example = permits-is_shown boss (remove_user (codes "boss"))

not_oneself : is_shown boss (remove_user (codes "boss")) ≡ false
unfolding is_shown
not_oneself = refl

abbrev panel : Panel
panel = record {
  group_detail = some (record { id = 3; members = [] });
  confirm_delete_group = some 3;
  new_group_name = [];
  new_group_desc = [];
  new_member_email = [];
  new_username = codes " ann ";
  new_password = codes "secret";
  new_role = codes "viewer";
  show_add_modal = true;
  user_to_delete = none;
  notes = [];
}

-- The toast has the name as it was typed, and the form is cleared.
added :
    (answer (add_user (codes " ann ") (codes "secret") (codes "viewer")) (succeeded []) panel).notes
    ≡ (codes "Team member \" ann \" added", false) ∷ []
unfolding answer
added = refl

deleted : (answer (delete_group 3) (succeeded []) panel).group_detail ≡ none
unfolding answer
deleted = refl

number_of_tests :
    (number_of (codes "1.50") ≡ real (codes "1.5"))
    × (number_of (codes "-2") ≡ real (codes "-2"))
    × (number_of (codes "-.5") ≡ real (codes "-0.5"))
    × (number_of (codes "007") ≡ num 7)
    × (number_of (codes "1.2.3") ≡ null)
unfolding number_of show
number_of_tests = (refl, refl, refl, refl, refl)
