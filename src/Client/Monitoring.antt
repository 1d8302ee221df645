-- ===== src/Client/Monitoring.antt =====
-- client/src/features/dashboard/MonitoringPage.tsx: the tabs of alerts, targets, silences and metrics.
-- Percentages are in hundredths; none is null or a number below zero.
pub mod Stuck
pub mod Silenced
use server_hub.Prelude.{
  ℕ, String, Bool, true, false, List, [], ◌∷◌, ◌++◌, Option, none, some, map, length, leb, ltb,
  ◌==◌, ◌+◌, ◌*◌, ◌/◌, if◌then◌else◌,
}
use server_hub.Text.{Text, codes, eqb, is_empty, to_lower}
use server_hub.Text.Decimal.{show}
use server_hub.Types.Monitoring.{AmAlert, AmSilence, PromTarget, Labels, Matcher, SilenceRequest}

pub data Severity : Type 0 where
  critical warning other_severity : Severity

-- `switch ((sev ?? "").toLowerCase())`
unfoldable pub severity_of : Option Text → Severity
unfolding to_lower
severity_of none = other_severity
severity_of (some s) =
    if eqb (to_lower s) (codes "critical")
    then critical
    else if eqb (to_lower s) (codes "warning")
    then warning
    else other_severity

abbrev pub severity_color : Severity → String
severity_color critical = "text-brick"
severity_color warning = "text-status-amber"
severity_color other_severity = "text-muted dark:text-fog"

-- `Math.max(0, Math.min(100, value))`
abbrev pub capped : ℕ → ℕ
capped v = if leb v 10000 then v else 10000

abbrev pub bar_tone : ℕ → String
bar_tone pct =
    if leb 9000 pct
    then "bg-brick"
    else if leb 7000 pct
    then "bg-status-amber"
    else "bg-ink dark:bg-bone"

-- `MetricBar`: its colour and its width in percent, `Math.round(pct / 5) * 5`.
unfoldable pub metric_bar : Option ℕ → Option (String × ℕ)
metric_bar none = none
metric_bar (some v) = let pct = capped v in some (bar_tone pct, (pct + 250) / 500 * 5)

-- `fmtDuration`, for the milliseconds since the start.
unfoldable pub fmt_duration : ℕ → Text
fmt_duration ms =
    let s = ms / 1000 in
    if ltb s 60
    then show s ++ codes "s"
    else if ltb s 3600
    then show (s / 60) ++ codes "m"
    else show (s / 3600) ++ codes "h"

-- How many items are in a state.
unfoldable pub count_in : {A : Type 0} → (A → Text) → String → List A → ℕ
count_in f w [] = 0
count_in f w (a ∷ as') = if eqb (f a) (codes w) then 1 + count_in f w as' else count_in f w as'

-- `AlertsTab` and `SilencesTab` share the way they load. A load that ends well leaves `error` as it was.
pub record ListTab (A : Type 0) : Type 0 where
  pub items : List A
  pub loading : Bool
  pub error : Text

abbrev pub opened_tab : {A : Type 0} → ListTab A
opened_tab = record { items = []; loading = true; error = [] }

-- What a call brings: the items, or the message of its error.
pub data Answer (A : Type 0) : Type 0 where
  brought : List A → Answer A
  failed : Text → Answer A

unfoldable pub load : {A : Type 0} → Bool → ListTab A → ListTab A
load show_spinner s = if show_spinner then record s { loading = true } else s

unfoldable pub loaded : {A : Type 0} → Answer A → ListTab A → ListTab A
loaded (brought items) s = record s { items = items; loading = false }
loaded (failed message) s = record s { error = message; loading = false }

-- `TargetsTab`, whose answer clears the error.
unfoldable pub loaded_targets : Answer PromTarget → ListTab PromTarget → ListTab PromTarget
loaded_targets (brought items) s = record s { items = items; error = []; loading = false }
loaded_targets (failed message) s = record s { error = message; loading = false }

-- What a tab shows.
pub data View (A : Type 0) : Type 0 where
  spinner : View A
  unavailable : Text → View A
  listed : List A → View A

unfoldable pub shown : {A : Type 0} → ListTab A → View A
shown s =
    if s.loading then spinner else if is_empty s.error then listed s.items else unavailable s.error

-- What a tab of alerts or silences meets: the button "Refresh" or a live event, and answers.
pub data TabEvent (A : Type 0) : Type 0 where
  refreshed : Bool → TabEvent A
  answered : Answer A → TabEvent A

unfoldable pub run_tab : {A : Type 0} → List (TabEvent A) → ListTab A → ListTab A
unfolding load loaded
run_tab [] s = s
run_tab (refreshed spin ∷ es) s = run_tab es (load spin s)
run_tab (answered a ∷ es) s = run_tab es (loaded a s)

-- The dialog of `AlertsTab` that silences an alert.
pub record Silencing : Type 0 where
  pub alert : Option AmAlert
  pub duration : Text
  pub comment : Text
  pub busy : Bool

-- `durs[silenceDur] ?? 60`
unfoldable pub minutes_of : Text → ℕ
minutes_of d =
    if eqb d (codes "30m")
    then 30
    else if eqb d (codes "1h")
    then 60
    else if eqb d (codes "4h")
    then 240
    else 60

unfoldable pub matchers_of : Labels → List Matcher
matchers_of [] = []
matchers_of ((n, v) ∷ r) =
    record { name = n; value = v; is_regex = false; is_equal = true } ∷ matchers_of r

unfoldable pub request_for : ℕ → Silencing → AmAlert → SilenceRequest
unfolding matchers_of minutes_of
request_for now s a = record {
  matchers = matchers_of a.labels;
  starts_at = now;
  ends_at = now + minutes_of s.duration * 60000;
  created_by = codes "serverhub";
  comment =
      if is_empty s.comment then codes "Silenced via ServerHub for " ++ s.duration else s.comment;
}

-- The request of `doSilence`, at a time in milliseconds.
unfoldable pub silence_request : ℕ → Silencing → Option SilenceRequest
unfolding request_for
silence_request now s = elim s.alert [ none ↦ none | some a ↦ some (request_for now s a) ]

-- The state after the call, and the text of `alert`; none is a call that succeeds.
unfoldable pub silenced : Option Text → Silencing → Silencing × Option Text
silenced none s = (record s { alert = none; comment = []; busy = false }, none)
silenced (some message) s = (record s { busy = false }, some message)

-- `doDelete` of `SilencesTab`, once its call is answered: whether it loads anew, and the text of `alert`.
unfoldable pub deleted : Option Text → Bool × Option Text
deleted none = (true, none)
deleted (some message) = (false, some message)

pub data Metric : Type 0 where
  cpu memory disk network_rx network_tx : Metric

abbrev pub metric_id : Metric → String
metric_id cpu = "cpu"
metric_id memory = "memory"
metric_id disk = "disk"
metric_id network_rx = "networkRx"
metric_id network_tx = "networkTx"

pub data Span : Type 0 where
  one_hour six_hours one_day one_week : Span

abbrev pub span_word : Span → String
span_word one_hour = "1h"
span_word six_hours = "6h"
span_word one_day = "24h"
span_word one_week = "7d"

-- `MetricsTab`; `content` is an answer, known by what was asked for. No request is given up.
pub record MetricsTab : Type 0 where
  pub metric : Metric
  pub span : Span
  pub content : Option (Metric × Span)
  pub loading : Bool
  pub error : Text

-- The effect of a choice of metric and range: its timer sets the two states, then its call is answered.
pub data MetricsEvent : Type 0 where
  chosen : Metric → Span → MetricsEvent
  started : MetricsEvent
  came : Metric → Span → MetricsEvent
  refused : Text → MetricsEvent

unfoldable pub step_metrics : MetricsEvent → MetricsTab → MetricsTab
step_metrics (chosen m r) s = record s { metric = m; span = r }
step_metrics started s = record s { loading = true; error = [] }
step_metrics (came m r) s = record s { content = some (m, r); loading = false }
step_metrics (refused message) s = record s { content = none; error = message; loading = false }

unfoldable pub run_metrics : List MetricsEvent → MetricsTab → MetricsTab
unfolding step_metrics
run_metrics [] s = s
run_metrics (e ∷ es) s = run_metrics es (step_metrics e s)
