-- ===== src/Types/Monitoring.antt =====
-- packages/shared/src/api-types.ts: what the server passes on from Prometheus and Alertmanager. An object
-- of texts is the list of its entries.
use server_hub.Prelude.{ℕ, String, Bool, List, [], ◌∷◌, Option, none, some, if◌then◌else◌}
use server_hub.Text.{Text, codes, eqb}

abbrev pub Labels : Type 0
Labels = List (Text × Text)

-- A property of such an object; none is undefined.
unfoldable pub label : String → Labels → Option Text
label k [] = none
label k ((j, v) ∷ r) = if eqb j (codes k) then some v else label k r

pub record AmAlert : Type 0 where
  pub fingerprint : Text
  pub state : Text
  pub silenced_by : List Text
  pub inhibited_by : List Text
  pub labels : Labels
  pub annotations : Labels
  pub starts_at : Text
  pub ends_at : Text
  pub generator_url : Text
  pub receivers : List Text

pub record Matcher : Type 0 where
  pub name : Text
  pub value : Text
  pub is_regex : Bool
  pub is_equal : Bool

pub record AmSilence : Type 0 where
  pub id : Text
  pub state : Text
  pub updated_at : Text
  pub comment : Text
  pub created_by : Text
  pub starts_at : Text
  pub ends_at : Text
  pub matchers : List Matcher

pub record PromTarget : Type 0 where
  pub discovered_labels : Labels
  pub labels : Labels
  pub scrape_pool : Text
  pub scrape_url : Text
  pub global_url : Text
  pub last_error : Text
  pub last_scrape : Text
  pub last_scrape_duration : ℕ
  pub health : Text

-- The body of the call that creates a silence.
pub record SilenceRequest : Type 0 where
  pub matchers : List Matcher
  pub starts_at : ℕ
  pub ends_at : ℕ
  pub created_by : Text
  pub comment : Text
