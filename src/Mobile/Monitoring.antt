-- ===== src/Mobile/Monitoring.antt =====
-- mobile/app/(app)/monitoring.tsx: what the phone shows of the monitored machines and alerts. Values are
-- hundredths; none is null, no finite number, or a number below zero.
pub mod Strip
pub mod Visible
use server_hub.Prelude.{
  ℕ, zero, suc, String, Bool, true, false, not, List, [], ◌∷◌, ◌++◌, Option, none, some, length,
  leb, ltb, ◌==◌, ◌+◌, ◌-◌, ◌*◌, ◌/◌, ◌&&◌, ◌||◌, keep_if, sort_by, if◌then◌else◌,
}
use server_hub.Text.{Text, codes, eqb, is_empty, to_lower, trim, includes}
use server_hub.Text.Decimal.{show}
use server_hub.Types.Monitoring.{AmAlert, Labels, label, SilenceRequest}
use server_hub.Client.Monitoring.{
  Severity, critical, warning, other_severity, severity_of, capped, matchers_of,
}

abbrev pub severity_color : Severity → String
severity_color critical = "#f87171"
severity_color warning = "#facc15"
severity_color other_severity = "colors.fog"

abbrev pub severity_rank : Severity → ℕ
severity_rank critical = 0
severity_rank warning = 1
severity_rank other_severity = 2

-- The values at the places i = 0, stride, 2 * stride, …; `skip` values are left out first.
unfoldable pub every : {A : Type 0} → ℕ → ℕ → List A → List A
every stride skip [] = []
every stride zero (v ∷ vs) = v ∷ every stride (stride - 1) vs
every stride (suc skip) (v ∷ vs) = every stride skip vs

-- `Math.max(1, Math.floor(series.length / 48))`
unfoldable pub stride_of : ℕ → ℕ
stride_of n = if leb 1 (n / 48) then n / 48 else 1

-- `cpuValues`
unfoldable pub downsample : {A : Type 0} → List A → List A
unfolding stride_of every
downsample vs = every (stride_of (length vs)) 0 vs

-- `Math.max(...nums, 1)`
unfoldable pub strip_max : List (Option ℕ) → ℕ
strip_max [] = 100
strip_max (none ∷ vs) = strip_max vs
strip_max (some v ∷ vs) = if leb v (strip_max vs) then strip_max vs else v

-- `Math.max(2, Math.round((v / max) * 64))`, and the colour.
unfoldable pub bar_height : ℕ → Option ℕ → ℕ
bar_height m none = 2
bar_height m (some v) = let h = (128 * v + m) / (2 * m) in if leb 2 h then h else 2

abbrev pub bar_color : Option ℕ → String
bar_color none = "colors.emboss"
bar_color (some v) =
    if leb 9000 v then "#ef4444" else if leb 7000 v then "#eab308" else "colors.moss"

bars_of : ℕ → List (Option ℕ) → List (ℕ × String)
unfolding bar_height
bars_of m [] = []
bars_of m (v ∷ vs) = (bar_height m v, bar_color v) ∷ bars_of m vs

-- `HistoryStrip`
unfoldable pub history_strip : List (Option ℕ) → List (ℕ × String)
unfolding bars_of strip_max
history_strip vs = bars_of (strip_max vs) vs

-- `MetricBar`: its colour and its width, `Math.round(pct)`.
unfoldable pub metric_bar : Option ℕ → Option (String × ℕ)
metric_bar none = none
metric_bar (some v) =
    let pct = capped v in
    some (
      if leb 9000 pct then "#ef4444" else if leb 7000 pct then "#eab308" else "#22c55e",
      (pct + 50) / 100,
    )

pub data SeverityFilter : Type 0 where
  any_severity only_critical only_warning only_other : SeverityFilter

-- The test of the filter, on `(a.labels.severity ?? "").toLowerCase()`.
unfoldable pub severity_fits : SeverityFilter → Severity → Bool
severity_fits any_severity s = true
severity_fits only_critical critical = true
severity_fits only_warning warning = true
severity_fits only_other other_severity = true
severity_fits _ _ = false

or_empty : Option Text → Text
or_empty none = []
or_empty (some t) = t

-- The text that is searched.
unfoldable pub haystack : AmAlert → Text
unfolding or_empty label to_lower
haystack a = to_lower (
    or_empty (label "alertname" a.labels)
    ++ (32 ∷ or_empty (label "instance" a.labels)
        ++ (32 ∷ or_empty (label "job" a.labels)
            ++ (32 ∷ or_empty (label "summary" a.annotations)))))

unfoldable pub matches : SeverityFilter → Text → AmAlert → Bool
unfolding severity_fits haystack severity_of label to_lower trim
matches f query a =
    let q = to_lower (trim query) in
    severity_fits f (severity_of (label "severity" a.labels))
    && (is_empty q || includes (haystack a) q)

-- `+new Date(iso)`, of dates that are valid.
module _ (time_of : Text → ℕ) where
  -- Whether the comparison of two alerts is not above zero.
  abbrev pub not_after : Bool → AmAlert → AmAlert → Bool
  not_after true x y = leb (time_of y.starts_at) (time_of x.starts_at)
  not_after false x y =
      let r = severity_rank (severity_of (label "severity" x.labels)) in
      let s = severity_rank (severity_of (label "severity" y.labels)) in
      if r == s then leb (time_of y.starts_at) (time_of x.starts_at) else ltb r s

  -- `visible` of `AlertsTab`.
  unfoldable pub visible : SeverityFilter → Text → Bool → List AmAlert → List AmAlert
  unfolding matches keep_if sort_by
  visible f query newest alerts = sort_by (not_after newest) (keep_if (matches f query) alerts)

-- The dialog that silences an alert.
pub record Silencing : Type 0 where
  pub alert : Option AmAlert
  pub minutes : ℕ
  pub comment : Text
  pub busy : Bool

unfoldable pub request_for : ℕ → Silencing → AmAlert → SilenceRequest
unfolding matchers_of
request_for now s a = record {
  matchers = matchers_of a.labels;
  starts_at = now;
  ends_at = now + s.minutes * 60000;
  created_by = codes "serverhub-mobile";
  comment =
      if is_empty s.comment
      then codes "Silenced via ServerHub mobile for " ++ (show s.minutes ++ codes "m")
      else s.comment;
}

-- After the call: the state, and the keys of the queries that are loaded anew. An error is told nowhere.
unfoldable pub silenced : Bool → Silencing → Silencing × List String
silenced true s =
    (record s { alert = none; comment = []; busy = false }, "am-alerts" ∷ "am-silences" ∷ [])
silenced false s = (record s { busy = false }, [])
