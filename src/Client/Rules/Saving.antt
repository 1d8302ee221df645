-- ===== src/Client/Rules/Saving.antt =====
-- client/src/features/settings/NotificationRulesSection.tsx: what `submit` sends of the form, and what it
-- leaves of it.
use server_hub.Prelude.{
  ◌==◌, ℕ, Bool, true, false, not, List, [], ◌∷◌, ◌++◌, Option, none, some, all, map, keep_if, leb,
  ◌&&◌, ◌||◌, if◌then◌else◌,
}
use server_hub.Text.{Text, codes, eqb, is_empty, trim}
use server_hub.Json.{Json, real, str, num, null, array, object}
use server_hub.Text.Decimal.{show}
use server_hub.Json.Print.{stringify}
use server_hub.Server.Rules.{RuleBody}
use server_hub.Client.Transitions.{Note}
use server_hub.Client.Rules.{
  ConditionField, on_severity, on_condition, on_value, on_server_id, FormState, empty_form,
  whole_part, to_seconds, split_commas, channels_of, complaint,
}

field_name : ConditionField → Text
field_name on_severity = codes "severity"
field_name on_condition = codes "condition"
field_name on_value = codes "value"
field_name on_server_id = codes "serverId"

is_numeric : ConditionField → Bool
is_numeric on_value = true
is_numeric on_server_id = true
is_numeric _ = false

-- A decimal number: the digits before the point, and those after it, none without a point.
split_point : Text → Text × Option Text
split_point [] = ([], none)
split_point (c ∷ s) =
    let (whole_digits, rest) = split_point s in
    if c == 46 then ([], some s) else (c ∷ whole_digits, rest)

all_digits : Text → Bool
all_digits s = all (λ c. leb 48 c && leb c 57) s

-- Without the zeros at its end.
trim_zeros : Text → Text
trim_zeros [] = []
trim_zeros (c ∷ s) = let rest = trim_zeros s in if c == 48 && is_empty rest then [] else c ∷ rest

-- The number as `JSON.stringify` prints it, after a sign; minus zero is 0.
printed : Bool → ℕ → Text → Json
unfolding trim_zeros
printed negative n frac =
    if is_empty (trim_zeros frac)
    then (if negative && not (n == 0) then real (45 ∷ show n) else num n)
    else real ((if negative then 45 ∷ [] else []) ++ (show n ++ 46 ∷ trim_zeros frac))

unsigned : Bool → Text × Option Text → Json
unfolding printed all_digits whole_part
unsigned negative (digits, none) =
    if all_digits digits && not (is_empty digits)
    then printed negative (whole_part 0 digits) []
    else null
unsigned negative (digits, some frac) =
    if all_digits digits && (all_digits frac && not (is_empty digits && is_empty frac))
    then printed negative (whole_part 0 digits) frac
    else null

-- `Number(s)` of a text that is not empty, as `JSON.stringify` prints it: NaN is null. Exponents, other bases
-- and `Infinity` are left out, and decimals are those that a double holds and prints without an exponent.
unfoldable pub number_of : Text → Json
unfolding unsigned split_point
number_of [] = num 0
number_of (c ∷ s) =
    if c == 45
    then unsigned true (split_point s)
    else if c == 43
    then unsigned false (split_point s)
    else unsigned false (split_point (c ∷ s))

parts_of : Text → List Text
unfolding split_commas trim keep_if
parts_of s = keep_if (λ p. not (is_empty p)) (map trim (split_commas s))

condition_value : FormState → Json
unfolding is_numeric number_of parts_of trim
condition_value f =
    if eqb f.cond_op (codes "in")
    then array (map (if is_numeric f.cond_field then number_of else str) (parts_of f.cond_value))
    else if is_numeric f.cond_field
    then number_of (trim f.cond_value)
    else str (trim f.cond_value)

-- `buildConditionJson`
unfoldable pub build_condition_json : FormState → Option Text
unfolding condition_value field_name stringify trim
build_condition_json f =
    if not f.use_condition || is_empty (trim f.cond_value)
    then none
    else some (
        stringify (
          object (
            ("field", str (field_name f.cond_field))
            ∷ ("operator", str f.cond_op)
            ∷ ("value", condition_value f)
            ∷ [])))

-- The payload as the server reads it: what is undefined is left out. The id of the group is a number.
unfoldable pub payload : FormState → RuleBody
unfolding build_condition_json channels_of to_seconds trim whole_part
payload f = record {
  name = some (trim f.name);
  description = some (trim f.description);
  enabled = some f.enabled;
  event_type = some f.event_type;
  severity = if is_empty f.severity then none else some f.severity;
  condition_json = build_condition_json f;
  notification_group_id = some (whole_part 0 f.group_id);
  channels = some (channels_of f);
  cooldown_seconds = some (to_seconds f.cooldown f.cooldown_unit);
  notify_on_recovery = some f.notify_on_recovery;
  repeat_interval_sec = none;
  max_repeats = none;
  digest_mode = none;
  digest_interval_min = none;
  group_by = none;
}

-- The states that `submit` uses, with the calls that it has made, by the id of the rule.
pub record Section : Type 0 where
  pub form : FormState
  pub editing : Bool
  pub busy : Bool
  pub notes : List Note
  pub saves : List (Option ℕ × RuleBody)
  pub refreshes : Bool

-- How the call ends: none is success, otherwise the error's message, none where it is no error.
abbrev pub Saved : Type 0
Saved = Option (Option Text)

done_text : Option ℕ → Text
done_text none = codes "Rule created."
done_text (some id) = codes "Rule updated."

saved_text : Option Text → Text
saved_text none = codes "Save failed"
saved_text (some message) = message

settled : Saved → Section → Section
unfolding done_text saved_text
settled none s = record s {
  form = empty_form;
  editing = false;
  busy = false;
  notes = s.notes ++ (done_text s.form.id, false) ∷ [];
  refreshes = true;
}
settled (some message) s = record s {
  busy = false;
  notes = s.notes ++ (saved_text message, true) ∷ [];
}

sent : Section → Section
unfolding payload
sent s = record s { busy = true; saves = s.saves ++ (s.form.id, payload s.form) ∷ [] }

unfoldable pub submit : Saved → Section → Section
unfolding complaint sent settled
submit answer s = elim (complaint s.form) [
  | some text ↦ record s { notes = s.notes ++ (text, true) ∷ [] }
  | none ↦ settled answer (sent s)
]
