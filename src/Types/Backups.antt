-- ===== src/Types/Backups.antt =====
-- packages/shared/src/api-types.ts: the objects of the database backups, less those nested in them. A
-- number that is left out or null is none; numbers below zero are left out.
use server_hub.Prelude.{ℕ, Bool, Option}
use server_hub.Text.{Text}

pub record VgAgent : Type 0 where
  pub id : Text
  pub name : Text
  pub platform : Text
  pub architecture : Text
  pub machine_name : Text
  pub status : Text
  pub lifecycle : Text
  pub version : Text
  pub last_seen_at : Option Text
  pub installed_at : Option Text
  pub revoked_at : Option Text
  pub created_at : Text

pub record VgConnection : Type 0 where
  pub id : Text
  pub agent_id : Text
  pub name : Text
  pub kind : Text
  pub host : Text
  pub port : ℕ
  pub username : Text
  pub status : Text
  pub last_checked_at : Option Text
  pub database_count : ℕ
  pub created_at : Text
  pub updated_at : Text

pub record VgBackupSchedule : Type 0 where
  pub backup_job_id : Text
  pub cron_expr : Text
  pub timezone : Text

pub record VgBackupPolicy : Type 0 where
  pub id : Text
  pub name : Text
  pub strategy : Text
  pub cron_expr : Text
  pub timezone : Text
  pub enabled : Bool
  pub mode : Text
  pub encrypted : Bool
  pub retention_days : ℕ
  pub verification_enabled : Bool
  pub max_retries : ℕ
  pub retry_delay_seconds : ℕ
  pub sla_target_minutes : ℕ
  pub rpo_target_minutes : ℕ
  pub rto_target_minutes : ℕ

pub record VgBackupJob : Type 0 where
  pub id : Text
  pub agent_id : Text
  pub storage_target_id : Text
  pub policy_id : Option Text
  pub name : Text
  pub source_type : Text
  pub connection_id : Option Text
  pub source_path : Text
  pub source_database : Text
  pub include_patterns : Text
  pub exclude_patterns : Text
  pub export_format : Text
  pub mode : Text
  pub encrypted : Bool
  pub retention_days : ℕ
  pub enabled : Bool
  pub sla_target_minutes : ℕ
  pub rpo_target_minutes : ℕ
  pub rto_target_minutes : ℕ
  pub schedule : Option VgBackupSchedule

pub record VgJobInput : Type 0 where
  pub name : Text
  pub agent_id : Text
  pub storage_target_id : Text
  pub source_type : Text
  pub connection_id : Option Text
  pub source_path : Option Text
  pub source_database : Option Text
  pub include_patterns : Option Text
  pub exclude_patterns : Option Text
  pub mode : Option Text
  pub encrypted : Option Bool
  pub retention_days : Option ℕ
  pub export_format : Option Text
  pub cron_expr : Option Text
  pub timezone : Option Text
  pub policy_id : Option Text
  pub sla_target_minutes : Option ℕ
  pub rpo_target_minutes : Option ℕ
  pub rto_target_minutes : Option ℕ

pub record VgPolicyInput : Type 0 where
  pub name : Text
  pub strategy : Text
  pub cron_expr : Text
  pub timezone : Text
  pub enabled : Bool
  pub mode : Text
  pub encrypted : Bool
  pub retention_days : ℕ
  pub verification_enabled : Bool
  pub max_retries : ℕ
  pub retry_delay_seconds : ℕ
  pub sla_target_minutes : ℕ
  pub rpo_target_minutes : ℕ
  pub rto_target_minutes : ℕ

pub record VgConnectionInput : Type 0 where
  pub name : Text
  pub kind : Text
  pub agent_id : Text
  pub host : Text
  pub port : Option ℕ
  pub username : Option Text
  pub password : Option Text

pub record VgStorageInput : Type 0 where
  pub name : Text
  pub kind : Text
  pub path : Option Text

pub record VgRestoreInput : Type 0 where
  pub backup_run_id : Text
  pub agent_id : Text
  pub destination_path : Option Text
  pub target_database : Option Text
  pub confirmed : Bool
