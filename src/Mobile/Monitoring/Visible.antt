-- ===== src/Mobile/Monitoring/Visible.antt =====
-- The phone's list of alerts: nothing that fits is left out, nothing else is in, and the order is kept.
use server_hub.Prelude.{ℕ, Bool, true, false, List, [], ◌∷◌, ◌++◌, ◌≡◌, ◌≤◌, ◌<◌, ◌⊎◌, All}
use server_hub.Text.{Text, trim, to_lower}
use server_hub.Types.Monitoring.{AmAlert, label}
use server_hub.Client.Monitoring.{critical, warning, other_severity, severity_of}
use server_hub.Mobile.Monitoring.{
  SeverityFilter, any_severity, only_critical, only_warning, only_other, severity_rank, haystack,
}

abbrev pub rank_of : AmAlert → ℕ
rank_of a = severity_rank (severity_of (label "severity" a.labels))

-- The first alert may stand above the second: it starts at the same time or later, or it is more severe.
abbrev pub IsAbove : (Text → ℕ) → Bool → AmAlert → AmAlert → Type 0
IsAbove time_of true a b = time_of b.starts_at ≤ time_of a.starts_at
IsAbove time_of false a b =
    (rank_of a < rank_of b)
    ⊎ ((rank_of a ≡ rank_of b) × (time_of b.starts_at ≤ time_of a.starts_at))

abbrev pub IsInOrder : (Text → ℕ) → Bool → List AmAlert → Type 0
IsInOrder time_of newest [] = Unit
IsInOrder time_of newest (a ∷ bs) = All (IsAbove time_of newest a) bs × IsInOrder time_of newest bs

-- The severity is the one that the filter names.
abbrev pub IsOf : SeverityFilter → AmAlert → Type 0
IsOf any_severity a = Unit
IsOf only_critical a = severity_of (label "severity" a.labels) ≡ critical
IsOf only_warning a = severity_of (label "severity" a.labels) ≡ warning
IsOf only_other a = severity_of (label "severity" a.labels) ≡ other_severity

-- The searched text of the alert has the query in it.
abbrev pub IsFound : Text → AmAlert → Type 0
IsFound query a = (p : Text) × (s : Text) × (haystack a ≡ p ++ (to_lower (trim query) ++ s))
