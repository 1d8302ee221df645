-- ===== src/Status/Alerts.antt =====
-- packages/shared/src/api-types.ts: `describeAlert`.
pub mod Described
use server_hub.Prelude.{
  ℕ, String, Bool, ◌||◌, List, [], ◌∷◌, ◌++◌, Option, none, some, zero, suc, any, if◌then◌else◌,
}
use server_hub.Text.{Text, codes, eqb, is_empty, includes, to_lower}
use server_hub.Text.Decimal.{show}
use server_hub.Endpoints.Parts.{default, is_truthy}

pub record Alert : Type 0 where
  pub condition : Option Text
  pub message : Option Text
  pub source : Option Text
  pub threshold : Option ℕ

pub record AlertDescription : Type 0 where
  pub what : Text
  pub next : Text

-- `/(a|b)/.test(hay)` where the alternatives are plain words.
unfoldable pub mentions : List String → Text → Bool
unfolding includes
mentions ws hay = any (λ w. includes hay (codes w)) ws

unfoldable pub limit_note : Option ℕ → Text
limit_note none = []
limit_note (some zero) = []
limit_note (some (suc n)) = codes " (alert limit " ++ show (suc n) ++ codes ")"

abbrev pub resolve_note : Text
resolve_note =
    codes "Resolving marks it handled, but doesn't fix the cause — act first, then resolve."

abbrev pub offline_words : List String
offline_words = "offline" ∷ "disconnected" ∷ "heartbeat" ∷ "agent" ∷ []

abbrev pub load_words : List String
load_words = "cpu" ∷ "processor" ∷ "load" ∷ []

abbrev pub memory_words : List String
memory_words = "mem" ∷ "ram" ∷ []

abbrev pub disk_words : List String
disk_words = "disk" ∷ "storage" ∷ "space" ∷ []

-- `health ?check` is two words here.
abbrev pub check_words : List String
check_words =
    "http" ∷ "tcp" ∷ "ping" ∷ "health check" ∷ "healthcheck" ∷ "website" ∷ "url" ∷ "endpoint" ∷ []

-- What the words are looked for in.
abbrev pub haystack : Alert → Text
haystack alert = to_lower (default [] alert.condition ++ 32 ∷ default [] alert.message)

-- `alert.message || "…"`
abbrev fallback_what : Option Text → Text
fallback_what message =
    if is_truthy message then default [] message else codes "Something crossed an alert limit."

offline_card : AlertDescription
offline_card = record {
  what = codes "This server stopped reporting in.";
  next =
      codes
        "Check that the machine is powered on and connected to the network, then make sure its monitoring agent is running. The alert clears on the next successful check-in. "
      ++ resolve_note;
}

load_card : Text → AlertDescription
load_card limit = record {
  what =
      codes "This machine is working very hard — processor use is above its normal range"
      ++ limit
      ++ codes ".";
  next =
      codes
        "Find the busiest app and restart it from its project page. If this happens during normal use, the machine may need more capacity. "
      ++ resolve_note;
}

memory_card : Text → AlertDescription
memory_card limit = record {
  what = codes "This machine is running low on memory" ++ limit ++ codes ".";
  next =
      codes
        "Restart the busiest app to free memory. If it keeps happening, the machine may need more memory. "
      ++ resolve_note;
}

disk_card : Text → AlertDescription
disk_card limit = record {
  what = codes "This machine is running low on disk space" ++ limit ++ codes ".";
  next =
      codes
        "Delete or move unneeded files, old backups, or old uploads, then watch for the all-clear. "
      ++ resolve_note;
}

check_card : AlertDescription
check_card = record {
  what = codes "A website or service check failed — it didn't respond in time.";
  next =
      codes
        "Open the site in a browser. If it's down, restart the related project, then re-run the check from Website checks. "
      ++ resolve_note;
}

external_card : AlertDescription
external_card = record {
  what = codes "An external monitor raised this alert.";
  next =
      codes "Open Monitoring for the full details and fix the underlying issue there. "
      ++ resolve_note;
}

other_card : Option Text → AlertDescription
other_card message = record {
  what = fallback_what message;
  next = codes "Open the related page to investigate. " ++ resolve_note;
}

describe_words : Text → Text → Alert → AlertDescription
unfolding mentions to_lower offline_card load_card memory_card disk_card check_card external_card
    other_card
describe_words hay limit alert =
    if mentions offline_words hay
    then offline_card
    else if mentions load_words hay
    then load_card limit
    else if mentions memory_words hay
    then memory_card limit
    else if mentions disk_words hay
    then disk_card limit
    else if mentions check_words hay
    then check_card
    else if eqb (to_lower (default [] alert.source)) (codes "alertmanager")
    then external_card
    else other_card alert.message

unfoldable pub describe_alert : Alert → AlertDescription
unfolding limit_note describe_words
describe_alert alert = describe_words (haystack alert) (limit_note alert.threshold) alert
