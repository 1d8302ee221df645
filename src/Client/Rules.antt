-- ===== src/Client/Rules.antt =====
-- client/src/features/settings/NotificationRulesSection.tsx: the form of a notification rule.
pub mod Kept
pub mod Saving
pub mod Lost
use server_hub.Prelude.{
  ℕ, zero, suc, Bool, true, false, not, ◌&&◌, ◌||◌, [], ◌∷◌, ◌++◌, List, Option, none, some, ◌+◌,
  ◌-◌, ◌*◌, ◌/◌, ◌%◌, leb, ◌==◌, if◌then◌else◌, map, any,
}
use server_hub.Text.{Text, codes, eqb, is_empty, trim, join}
use server_hub.Text.Decimal.{show}
use server_hub.Json.{Json, Items, arr, nil, cons, null, element, js_string}

pub data ConditionField : Type 0 where
  on_severity on_condition on_value on_server_id : ConditionField

abbrev text_operators : List Text
text_operators = codes "eq" ∷ codes "neq" ∷ codes "contains" ∷ codes "in" ∷ []

abbrev number_operators : List Text
number_operators =
    codes "eq" ∷ codes "neq" ∷ codes "gt" ∷ codes "gte" ∷ codes "lt" ∷ codes "lte" ∷ codes "in" ∷ []

-- `OPERATORS_BY_FIELD`
abbrev pub operators_by_field : ConditionField → List Text
operators_by_field on_severity = text_operators
operators_by_field on_condition = text_operators
operators_by_field on_value = number_operators
operators_by_field on_server_id = number_operators

-- `includes` of an array of strings.
abbrev pub has : Text → List Text → Bool
has s ts = any (eqb s) ts

-- `CONDITION_FIELDS.includes(s)`, with the field.
condition_field : Text → Option ConditionField
condition_field s =
    if eqb s (codes "severity")
    then some on_severity
    else if eqb s (codes "condition")
    then some on_condition
    else if eqb s (codes "value")
    then some on_value
    else if eqb s (codes "serverId")
    then some on_server_id
    else none

pub data CooldownUnit : Type 0 where
  seconds minutes hours : CooldownUnit

pub record FormState : Type 0 where
  pub id : Option ℕ
  pub name : Text
  pub description : Text
  pub event_type : Text
  pub severity : Text
  pub use_condition : Bool
  pub cond_field : ConditionField
  pub cond_op : Text
  pub cond_value : Text
  pub group_id : Text
  pub email : Bool
  pub in_app : Bool
  pub cooldown : Text
  pub cooldown_unit : CooldownUnit
  pub notify_on_recovery : Bool
  pub enabled : Bool

abbrev pub empty_form : FormState
empty_form = record {
  id = none;
  name = [];
  description = [];
  event_type = codes "AGENT_OFFLINE";
  severity = [];
  use_condition = false;
  cond_field = on_severity;
  cond_op = codes "eq";
  cond_value = [];
  group_id = [];
  email = true;
  in_app = false;
  cooldown = codes "15";
  cooldown_unit = minutes;
  notify_on_recovery = true;
  enabled = true;
}

-- `Math.max(0, Math.floor(Number(amount) || 0))` of the value of a number input: it is empty or a
-- decimal number, perhaps with a sign and a fraction. Exponents are left out.
unfoldable pub whole_part : ℕ → Text → ℕ
whole_part n [] = n
whole_part n (c ∷ s) =
    let rest = whole_part (10 * n + (c - 48)) s in if leb 48 c && leb c 57 then rest else n

unfoldable pub to_seconds : Text → CooldownUnit → ℕ
unfolding whole_part
to_seconds amount hours = whole_part 0 amount * 3600
to_seconds amount minutes = whole_part 0 amount * 60
to_seconds amount seconds = whole_part 0 amount

-- The keys of the form that its inputs set.
pub data Edit : Type 0 where
  to_name to_description to_event_type to_severity to_cond_op to_cond_value to_group_id
        to_cooldown :
      Text → Edit
  to_use_condition to_email to_in_app to_notify_on_recovery to_enabled : Bool → Edit
  to_cond_field : ConditionField → Edit
  to_cooldown_unit : CooldownUnit → Edit

-- `ops[0]`
first : List Text → Text
first [] = []
first (s ∷ ts) = s

unfoldable pub set : Edit → FormState → FormState
unfolding first
set (to_name v) f = record f { name = v }
set (to_description v) f = record f { description = v }
set (to_event_type v) f = record f { event_type = v }
set (to_severity v) f = record f { severity = v }
set (to_cond_op v) f = record f { cond_op = v }
set (to_cond_value v) f = record f { cond_value = v }
set (to_group_id v) f = record f { group_id = v }
set (to_cooldown v) f = record f { cooldown = v }
set (to_use_condition v) f = record f { use_condition = v }
set (to_email v) f = record f { email = v }
set (to_in_app v) f = record f { in_app = v }
set (to_notify_on_recovery v) f = record f { notify_on_recovery = v }
set (to_enabled v) f = record f { enabled = v }
set (to_cooldown_unit v) f = record f { cooldown_unit = v }
set (to_cond_field v) f = record f {
  cond_field = v;
  cond_op =
      if has f.cond_op (operators_by_field v) then f.cond_op else first (operators_by_field v);
}

-- A sequence of edits, the first one first.
unfoldable pub edit : List Edit → FormState → FormState
unfolding set
edit [] f = f
edit (e ∷ es) f = edit es (set e f)

-- `startCreate`, by the ids of the groups.
unfoldable pub start_create : List ℕ → FormState
start_create [] = empty_form
start_create (id ∷ ids) = record empty_form { group_id = show id }

-- What `JSON.parse` reads from a rule's `conditionJson`.
pub record Condition : Type 0 where
  pub field : Text
  pub operator : Text
  pub target : Json

-- A rule of the server. `condition` is none where its text is empty or cannot be parsed.
pub record NotificationRule : Type 0 where
  pub id : ℕ
  pub name : Text
  pub event_type : Text
  pub severity : Text
  pub condition : Option Condition
  pub notification_group_id : ℕ
  pub channels : Text
  pub cooldown_seconds : ℕ
  pub notify_on_recovery : Bool
  pub enabled : Bool

element_texts : Items → List Text
unfolding element
element_texts nil = []
element_texts (cons v vs) = element v ∷ element_texts vs

-- `Array.isArray(v) ? v.join(", ") : String(v ?? "")`
value_text : Json → Text
unfolding element_texts join js_string
value_text null = []
value_text (arr vs) = join (codes ", ") (element_texts vs)
value_text v = js_string v

with_field : Option ConditionField → Condition → FormState → FormState
unfolding value_text
with_field none c f = f
with_field (some k) c f = record f {
  use_condition = true;
  cond_field = k;
  cond_op = c.operator;
  cond_value = value_text c.target;
}

with_condition : Option Condition → FormState → FormState
unfolding with_field condition_field
with_condition none f = f
with_condition (some c) f = with_field (condition_field c.field) c f

-- A text onto the first piece.
onto : ℕ → List Text → List Text
onto c [] = (c ∷ []) ∷ []
onto c (p ∷ ps) = (c ∷ p) ∷ ps

-- `split(",")`
unfoldable pub split_commas : Text → List Text
unfolding onto
split_commas [] = [] ∷ []
split_commas (c ∷ s) = let rest = split_commas s in if c == 44 then [] ∷ rest else onto c rest

abbrev is_multiple : ℕ → ℕ → Bool
is_multiple d cd = leb d cd && (cd % d == 0)

cooldown_of : ℕ → ℕ
cooldown_of cd =
    if is_multiple 3600 cd then cd / 3600 else if is_multiple 60 cd then cd / 60 else cd

cooldown_unit_of : ℕ → CooldownUnit
cooldown_unit_of cd =
    if is_multiple 3600 cd then hours else if is_multiple 60 cd then minutes else seconds

-- `startEdit`
unfoldable pub start_edit : NotificationRule → FormState
unfolding with_condition split_commas trim cooldown_of cooldown_unit_of
start_edit r = with_condition r.condition record {
  id = some r.id;
  name = r.name;
  description = [];
  event_type = r.event_type;
  severity = r.severity;
  use_condition = false;
  cond_field = on_severity;
  cond_op = codes "eq";
  cond_value = [];
  group_id = show r.notification_group_id;
  email = has (codes "EMAIL") (map trim (split_commas r.channels));
  in_app = has (codes "IN_APP") (map trim (split_commas r.channels));
  cooldown = show (cooldown_of r.cooldown_seconds);
  cooldown_unit = cooldown_unit_of r.cooldown_seconds;
  notify_on_recovery = r.notify_on_recovery;
  enabled = r.enabled;
}

-- The channels that `submit` sends.
unfoldable pub channels_of : FormState → List Text
channels_of f =
    (if f.email then codes "EMAIL" ∷ [] else []) ++ (if f.in_app then codes "IN_APP" ∷ [] else [])

-- What `submit` complains of, if it does.
unfoldable pub complaint : FormState → Option Text
unfolding channels_of trim
complaint f =
    if is_empty (trim f.name) || is_empty f.group_id
    then some (codes "Name and recipient group are required")
    else elim (channels_of f) [ [] ↦ some (codes "Select at least one channel") | c ∷ cs ↦ none ]
