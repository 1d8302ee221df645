-- ===== src/Server/Rules.antt =====
-- server/internal/handlers/notification_rules.go and server/internal/rules/validate.go: what an update of a
-- notification rule makes of the stored one, before it is checked and written. `strings.TrimSpace` is
-- `trim`, from which it differs in U+0085 and U+FEFF; numbers below zero are left out.
use server_hub.Prelude.{
  ℕ, Bool, List, [], ◌∷◌, ◌++◌, Option, none, some, any, length, map, leb, ltb, ◌&&◌, not,
  if◌then◌else◌, ◌-◌,
}
use server_hub.Text.{Text, codes, eqb, is_empty, trim, to_lower, join}

-- `ruleBody`; none is nil.
pub record RuleBody : Type 0 where
  pub name : Option Text
  pub description : Option Text
  pub enabled : Option Bool
  pub event_type : Option Text
  pub severity : Option Text
  pub condition_json : Option Text
  pub notification_group_id : Option ℕ
  pub channels : Option (List Text)
  pub cooldown_seconds : Option ℕ
  pub notify_on_recovery : Option Bool
  pub repeat_interval_sec : Option ℕ
  pub max_repeats : Option ℕ
  pub digest_mode : Option Text
  pub digest_interval_min : Option ℕ
  pub group_by : Option (List Text)

-- A rule with its channels as a list.
pub record RuleRow : Type 0 where
  pub name : Text
  pub description : Text
  pub enabled : Bool
  pub event_type : Text
  pub severity : Text
  pub condition_json : Text
  pub notification_group_id : ℕ
  pub channels : List Text
  pub cooldown_seconds : ℕ
  pub notify_on_recovery : Bool
  pub repeat_interval_sec : ℕ
  pub max_repeats : ℕ
  pub digest_mode : Text
  pub digest_interval_min : ℕ
  pub group_by : Text

abbrev pub or_kept : {A : Type 0} → Option A → A → A
or_kept none a = a
or_kept (some b) a = b

-- `strOr`
unfoldable pub str_or : Option Text → Text → Text
unfolding trim
str_or none t = t
str_or (some s) t = trim s

-- `strings.ToUpper` of the letters of ASCII; others stay as they are.
upper : Text → Text
upper = map (λ c. if leb 97 c && leb c 122 then c - 32 else c)

unfoldable pub event_or : Option Text → Text → Text
unfolding upper trim
event_or none t = t
event_or (some s) t = upper (trim s)

unfoldable pub severity_or : Option Text → Text → Text
unfolding upper trim
severity_or none t = t
severity_or (some s) t = upper (trim s)

unfoldable pub mode_or : Option Text → Text → Text
unfolding trim to_lower
mode_or none t = t
mode_or (some s) t = if is_empty (trim s) then t else to_lower (trim s)

abbrev group_by_keys : List Text
group_by_keys =
    codes "severity"
    ∷ codes "alertname"
    ∷ codes "condition"
    ∷ codes "server"
    ∷ codes "service"
    ∷ codes "environment"
    ∷ []

has : Text → List Text → Bool
has s ts = any (eqb s) ts

chosen_keys : List Text → List Text → List Text
unfolding trim to_lower has
chosen_keys out [] = out
chosen_keys out (k ∷ ks) =
    let key = to_lower (trim k) in
    chosen_keys
      (if has key group_by_keys && (not (has key out) && ltb (length out) 3)
        then out ++ key ∷ []
        else out)
      ks

-- `NormalizeGroupBy`
unfoldable pub normalize_group_by : List Text → Text
unfolding chosen_keys join
normalize_group_by ks = join (codes ",") (chosen_keys [] ks)

unfoldable pub group_or : Option (List Text) → Text → Text
unfolding normalize_group_by
group_or none t = t
group_or (some ks) t = normalize_group_by ks

-- The values that `Update` writes, if they are valid.
unfoldable pub merged : RuleBody → RuleRow → RuleRow
unfolding str_or event_or severity_or mode_or group_or
merged body cur = record {
  name = str_or body.name cur.name;
  description = str_or body.description cur.description;
  enabled = or_kept body.enabled cur.enabled;
  event_type = event_or body.event_type cur.event_type;
  severity = severity_or body.severity cur.severity;
  condition_json = str_or body.condition_json cur.condition_json;
  notification_group_id = or_kept body.notification_group_id cur.notification_group_id;
  channels = or_kept body.channels cur.channels;
  cooldown_seconds = or_kept body.cooldown_seconds cur.cooldown_seconds;
  notify_on_recovery = or_kept body.notify_on_recovery cur.notify_on_recovery;
  repeat_interval_sec = or_kept body.repeat_interval_sec cur.repeat_interval_sec;
  max_repeats = or_kept body.max_repeats cur.max_repeats;
  digest_mode = mode_or body.digest_mode cur.digest_mode;
  digest_interval_min = or_kept body.digest_interval_min cur.digest_interval_min;
  group_by = group_or body.group_by cur.group_by;
}
