-- ===== src/Types.antt =====
-- packages/shared/src/api-types.ts: the objects of the server's replies that the pages read. A union of
-- string literals is a text, as nothing checks the JSON that comes. Percentages are in hundredths.
pub mod Monitoring
pub mod Backups
pub mod Databases
use server_hub.Prelude.{ℕ, Bool, List, Option}
use server_hub.Text.{Text}

pub record Project : Type 0 where
  pub id : ℕ
  pub name : Text
  pub description : Option Text
  pub repository : Option Text
  pub branch : Option Text
  pub environment : Option Text
  pub deployment_path : Option Text
  pub compose_file : Option Text
  pub gateway_prefix : Option Text
  pub health_url : Option Text
  pub status : Text
  pub auto_deploy : Bool
  pub created_at : Text
  pub updated_at : Text

pub record Deployment : Type 0 where
  pub id : ℕ
  pub project_id : ℕ
  pub commit_sha : Option Text
  pub branch : Option Text
  pub trigger : Option Text
  pub status : Text
  pub started_at : Text
  pub completed_at : Option Text
  pub duration_sec : Option ℕ
  pub logs : Option Text

pub record ServerLoad : Type 0 where
  pub cpu_percent : ℕ
  pub mem_total_mb : ℕ
  pub mem_used_mb : ℕ
  pub mem_percent : ℕ
  pub disk_total_gb : ℕ
  pub disk_used_gb : ℕ
  pub disk_percent : ℕ
  pub uptime_sec : ℕ

pub record Counts : Type 0 where
  pub projects : ℕ
  pub services : ℕ
  pub deployments : ℕ
  pub healthy : ℕ
  pub degraded : ℕ
  pub down : ℕ

pub record DashboardData : Type 0 where
  pub server : ServerLoad
  pub counts : Counts
  pub projects : List Project
  pub recent_deployments : List Deployment
  pub docker_available : Bool

pub record ManagedServer : Type 0 where
  pub id : ℕ
  pub name : Text
  pub hostname : Text
  pub ip_address : Text
  pub os : Text
  pub os_version : Text
  pub arch : Text
  pub cpu_info : Text
  pub cpu_cores : ℕ
  pub ram_total : ℕ
  pub disk_total : ℕ
  pub status : Text
  pub agent_status : Text
  pub last_heartbeat : Option Text
  pub group_id : Option ℕ
  pub created_at : Text
  pub updated_at : Text

pub record Alert : Type 0 where
  pub id : ℕ
  pub server_id : Option ℕ
  pub condition : Text
  pub threshold : ℕ
  pub severity : Text
  pub status : Text
  pub message : Text
  pub triggered_at : Text
  pub resolved_at : Option Text
  pub fingerprint : Text
  pub source : Text

pub record HealthCheck : Type 0 where
  pub id : ℕ
  pub name : Text
  pub kind : Text
  pub target : Text
  pub interval : ℕ
  pub timeout : ℕ
  pub expected_status : ℕ
  pub enabled : Bool
  pub status : Text
  pub response_time_ms : Option ℕ
  pub last_checked_at : Option Text
  pub server_id : Option ℕ
  pub created_at : Text
  pub updated_at : Text

pub record TelemetryPoint : Type 0 where
  pub ts : ℕ
  pub cpu : ℕ
  pub mem_pct : ℕ
  pub mem_mb : ℕ
  pub disk_pct : ℕ
  pub net_rx : ℕ
  pub net_tx : ℕ
  pub disk_read : ℕ
  pub disk_write : ℕ
