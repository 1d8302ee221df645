-- ===== src/Client/Backups/Forms.antt =====
-- The forms of client/src/features/dbbackups: what they open with, when they may be sent, and the body
-- that goes to the server. JSON.stringify leaves out what is undefined.
use server_hub.Prelude.{
  ℕ, String, Bool, true, false, List, [], ◌∷◌, ◌++◌, Option, none, some, ◌||◌, if◌then◌else◌,
}
use server_hub.Text.{Text, codes, is_empty, trim}
use server_hub.Json.{Json, str, num, bool, object}
use server_hub.Types.Backups.{
  VgBackupJob, VgJobInput, VgBackupSchedule, VgBackupPolicy, VgPolicyInput, VgConnection,
  VgConnectionInput, VgStorageInput, VgRestoreInput,
}

or_empty : Option Text → Text
or_empty none = []
or_empty (some t) = t

abbrev cron_of : Option VgBackupSchedule → Text
cron_of none = []
cron_of (some s) = s.cron_expr

abbrev timezone_of : Option VgBackupSchedule → Text
timezone_of none = codes "UTC"
timezone_of (some s) = s.timezone

unfoldable pub empty_job : VgJobInput
empty_job = record {
  name = [];
  agent_id = [];
  storage_target_id = [];
  source_type = codes "FILESYSTEM";
  connection_id = none;
  source_path = none;
  source_database = none;
  include_patterns = none;
  exclude_patterns = none;
  mode = some (codes "NORMAL");
  encrypted = none;
  retention_days = some 30;
  export_format = none;
  cron_expr = none;
  timezone = some (codes "UTC");
  policy_id = none;
  sla_target_minutes = none;
  rpo_target_minutes = none;
  rto_target_minutes = none;
}

-- What the form of `JobModal` opens with.
unfoldable pub job_form : Option VgBackupJob → VgJobInput
unfolding empty_job or_empty
job_form none = empty_job
job_form (some j) = record {
  name = j.name;
  agent_id = j.agent_id;
  storage_target_id = j.storage_target_id;
  source_type = j.source_type;
  connection_id = some (or_empty j.connection_id);
  source_path = some j.source_path;
  source_database = some j.source_database;
  include_patterns = some j.include_patterns;
  exclude_patterns = some j.exclude_patterns;
  mode = some j.mode;
  encrypted = some j.encrypted;
  retention_days = some j.retention_days;
  export_format = some j.export_format;
  cron_expr = some (cron_of j.schedule);
  timezone = some (timezone_of j.schedule);
  policy_id = some (or_empty j.policy_id);
  sla_target_minutes = some j.sla_target_minutes;
  rpo_target_minutes = some j.rpo_target_minutes;
  rto_target_minutes = some j.rto_target_minutes;
}

text_field : String → Option Text → List (String × Json)
text_field k none = []
text_field k (some t) = (k, str t) ∷ []

num_field : String → Option ℕ → List (String × Json)
num_field k none = []
num_field k (some n) = (k, num n) ∷ []

bool_field : String → Option Bool → List (String × Json)
bool_field k none = []
bool_field k (some b) = (k, bool b) ∷ []

unfoldable pub job_body : VgJobInput → Json
unfolding text_field num_field bool_field
job_body f = object (
    ("name", str f.name)
    ∷ ("agent_id", str f.agent_id)
    ∷ ("storage_target_id", str f.storage_target_id)
    ∷ ("source_type", str f.source_type)
    ∷ (text_field "connection_id" f.connection_id
        ++ (text_field "source_path" f.source_path
            ++ (text_field "source_database" f.source_database
                ++ (text_field "include_patterns" f.include_patterns
                    ++ (text_field "exclude_patterns" f.exclude_patterns
                        ++ (text_field "mode" f.mode
                            ++ (bool_field "encrypted" f.encrypted
                                ++ (num_field "retention_days" f.retention_days
                                    ++ (text_field "export_format" f.export_format
                                        ++ (text_field "cron_expr" f.cron_expr
                                            ++ (text_field "timezone" f.timezone
                                                ++ (text_field "policy_id" f.policy_id
                                                    ++ (num_field "sla_target_minutes"
                                                          f.sla_target_minutes
                                                        ++ (num_field "rpo_target_minutes"
                                                            f.rpo_target_minutes
                                                            ++ num_field "rto_target_minutes"
                                                            f.rto_target_minutes)))))))))))))))

-- `!form.name.trim() || !form.agent_id || !form.storage_target_id` sends nothing.
unfoldable pub job_missing : VgJobInput → Bool
unfolding trim
job_missing f = is_empty (trim f.name) || (is_empty f.agent_id || is_empty f.storage_target_id)

unfoldable pub policy_form : Option VgBackupPolicy → VgPolicyInput
policy_form none = record {
  name = [];
  strategy = codes "FULL";
  cron_expr = [];
  timezone = codes "UTC";
  enabled = true;
  mode = codes "NORMAL";
  encrypted = false;
  retention_days = 30;
  verification_enabled = true;
  max_retries = 0;
  retry_delay_seconds = 300;
  sla_target_minutes = 0;
  rpo_target_minutes = 0;
  rto_target_minutes = 0;
}
policy_form (some p) = record {
  name = p.name;
  strategy = p.strategy;
  cron_expr = p.cron_expr;
  timezone = p.timezone;
  enabled = p.enabled;
  mode = p.mode;
  encrypted = p.encrypted;
  retention_days = p.retention_days;
  verification_enabled = p.verification_enabled;
  max_retries = p.max_retries;
  retry_delay_seconds = p.retry_delay_seconds;
  sla_target_minutes = p.sla_target_minutes;
  rpo_target_minutes = p.rpo_target_minutes;
  rto_target_minutes = p.rto_target_minutes;
}

unfoldable pub policy_body : VgPolicyInput → Json
policy_body p = object (
    ("name", str p.name)
    ∷ ("strategy", str p.strategy)
    ∷ ("cron_expr", str p.cron_expr)
    ∷ ("timezone", str p.timezone)
    ∷ ("enabled", bool p.enabled)
    ∷ ("mode", str p.mode)
    ∷ ("encrypted", bool p.encrypted)
    ∷ ("retention_days", num p.retention_days)
    ∷ ("verification_enabled", bool p.verification_enabled)
    ∷ ("max_retries", num p.max_retries)
    ∷ ("retry_delay_seconds", num p.retry_delay_seconds)
    ∷ ("sla_target_minutes", num p.sla_target_minutes)
    ∷ ("rpo_target_minutes", num p.rpo_target_minutes)
    ∷ ("rto_target_minutes", num p.rto_target_minutes)
    ∷ [])

unfoldable pub policy_missing : VgPolicyInput → Bool
unfolding trim
policy_missing f = is_empty (trim f.name)

-- The form of `ConnModal`, whose password is a state of its own.
unfoldable pub connection_form : Option VgConnection → VgConnectionInput
connection_form none = record {
  name = [];
  kind = codes "POSTGRES";
  agent_id = [];
  host = [];
  port = some 5432;
  username = some [];
  password = none;
}
connection_form (some c) = record {
  name = c.name;
  kind = c.kind;
  agent_id = c.agent_id;
  host = c.host;
  port = some c.port;
  username = some c.username;
  password = none;
}

-- `password ? { ...form, password } : form`
unfoldable pub with_password : Text → VgConnectionInput → VgConnectionInput
with_password password f = if is_empty password then f else record f { password = some password }

unfoldable pub connection_body : VgConnectionInput → Json
unfolding text_field num_field
connection_body f = object (
    ("name", str f.name)
    ∷ ("type", str f.kind)
    ∷ ("agent_id", str f.agent_id)
    ∷ ("host", str f.host)
    ∷ (num_field "port" f.port
        ++ (text_field "username" f.username ++ text_field "password" f.password)))

unfoldable pub connection_missing : VgConnectionInput → Bool
unfolding trim
connection_missing f = is_empty (trim f.name) || (is_empty f.agent_id || is_empty (trim f.host))

unfoldable pub storage_body : VgStorageInput → Json
unfolding text_field
storage_body f = object (("name", str f.name) ∷ ("type", str f.kind) ∷ text_field "path" f.path)

unfoldable pub storage_missing : VgStorageInput → Bool
unfolding trim or_empty
storage_missing f = is_empty (trim f.name) || is_empty (trim (or_empty f.path))

-- `pending.dest || undefined`
given : Text → Option Text
given t = if is_empty t then none else some t

-- The dialog that confirms a restore: run, agent, destination, database.
unfoldable pub restore_input : Text → Text → Text → Text → VgRestoreInput
unfolding given
restore_input run_id agent_id dest db = record {
  backup_run_id = run_id;
  agent_id = agent_id;
  destination_path = given dest;
  target_database = given db;
  confirmed = true;
}

unfoldable pub restore_body : VgRestoreInput → Json
unfolding text_field
restore_body r = object (
    ("backup_run_id", str r.backup_run_id)
    ∷ ("agent_id", str r.agent_id)
    ∷ (text_field "destination_path" r.destination_path
        ++ (text_field "target_database" r.target_database
            ++ ("confirmed", bool r.confirmed) ∷ [])))
