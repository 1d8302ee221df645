-- ===== src/Examples/Shared.antt =====
-- Statuses, alerts and formatters at concrete values.
use server_hub.Prelude.{◌≤◌, ◌≡◌, refl, none, some, length}
use server_hub.Text.{codes, trim, to_lower}
use server_hub.Text.Decimal.{show}
use server_hub.Status.{working, unknown, to_business_status}
use server_hub.Status.Alerts.{Alert}
use server_hub.Format.{fmt_duration, short_sha, short_id, fmt_bytes}
use server_hub.Format.Shown.{short_sha_lem}

up_test : (to_business_status (some (codes " UP "))).tone ≡ working
unfolding to_business_status to_lower trim
up_test = refl

-- A word of the fleet's vocabulary that the other one does not know.
running_partial_test : (to_business_status (some (codes "running_partial"))).tone ≡ unknown
unfolding to_business_status to_lower trim
running_partial_test = refl

abbrev cpu_alert : Alert
cpu_alert = record {
  condition = some (codes "cpu_high");
  message = none;
  source = none;
  threshold = some 85;
}

duration_test : fmt_duration (some 125) ≡ codes "2m 05s"
unfolding fmt_duration show
duration_test = refl

short_sha_lem_example :
    (length (short_sha (some (codes "0123456789abcdef"))) ≤ 8)
    × (length (short_id (some (codes "0123456789abcdef"))) ≤ 12)
short_sha_lem_example = short_sha_lem (codes "0123456789abcdef")

bytes_test : fmt_bytes 1536 ≡ codes "1.5 KB"
unfolding fmt_bytes show
bytes_test = refl
