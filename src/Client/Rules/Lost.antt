-- ===== src/Client/Rules/Lost.antt =====
-- What saving an edited rule can not change, and what it loses.
use server_hub.Prelude.{true, false, ◌≡◌, refl, [], Option, none, some}
use server_hub.Text.{is_empty, trim}
use server_hub.Server.Rules.{RuleRow, merged, str_or, severity_or}
use server_hub.Client.Rules.{
  FormState, NotificationRule, Condition, ConditionField, start_edit, condition_field,
  with_condition, with_field,
}
use server_hub.Client.Rules.Saving.{build_condition_json, payload}

-- The condition of a rule leaves the description of the form.
with_condition-description :
    (c : Option Condition) (f : FormState) → (with_condition c f).description ≡ f.description
unfolding with_condition with_field
with_condition-description none f = refl
with_condition-description (some c) f = with_field-description (condition_field c.field)
  where
    with_field-description :
        (k : Option ConditionField) → (with_field k c f).description ≡ f.description
    with_field-description none = refl
    with_field-description (some k) = refl

-- Saving a form whose condition is switched off and that asks for no severity keeps the condition and the
-- severity of the rule that it is saved over, although the form stands for a rule without them; and saving
-- a rule as its form opens, without any edit, empties its description.
pub payload-lost :
    (r : NotificationRule) (f : FormState) (cur : RuleRow)
    → f.use_condition ≡ false
    → is_empty f.severity ≡ true
    → ((merged (payload f) cur).condition_json ≡ cur.condition_json)
      × ((merged (payload f) cur).severity ≡ cur.severity)
      × ((merged (payload (start_edit r)) cur).description ≡ [])
unfolding merged payload build_condition_json start_edit str_or severity_or trim
payload-lost r f cur off any =
    (rw (off) refl, rw (any) refl, rw (with_condition-description r.condition _) refl)
