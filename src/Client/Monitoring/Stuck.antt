-- ===== src/Client/Monitoring/Stuck.antt =====
-- What the tabs of the monitoring page do not recover from.
use server_hub.Prelude.{true, false, List, [], ◌∷◌, some, ◌≡◌, refl, if-elim, All}
use server_hub.Text.{Text, is_empty}
use server_hub.Client.Monitoring.{
  ListTab, brought, failed, load, loaded, View, spinner, unavailable, listed, shown, TabEvent,
  refreshed, answered, run_tab, Metric, Span, MetricsTab, chosen, started, came, run_metrics,
}

-- What is no list.
abbrev pub HidesList : {A : Type 0} → View A → Type 0
HidesList spinner = Unit
HidesList (unavailable message) = Unit
HidesList (listed items) = ⊥

-- The error is there; and it is not the empty text, as no message is.
abbrev HasError : {A : Type 0} → ListTab A → Type 0
HasError s = is_empty s.error ≡ false

-- Whether an event, if it is an error, has a message.
abbrev pub HasMessage : {A : Type 0} → TabEvent A → Type 0
HasMessage (answered (failed message)) = is_empty message ≡ false
HasMessage e = Unit

run_tab-HasError :
    {A : Type 0} (es : List (TabEvent A)) (s : ListTab A)
    → All HasMessage es
    → HasError s
    → HasError (run_tab es s)
unfolding run_tab load loaded
run_tab-HasError [] s m h = h
run_tab-HasError (refreshed true ∷ es) s m h =
    run_tab-HasError es (record s { loading = true }) m.1 h
run_tab-HasError (refreshed false ∷ es) s m h = run_tab-HasError es s m.1 h
run_tab-HasError (answered (brought items) ∷ es) s m h =
    run_tab-HasError es (record s { items = items; loading = false }) m.1 h
run_tab-HasError (answered (failed t) ∷ es) s m h =
    run_tab-HasError es (record s { error = t; loading = false }) m.1 m.0

HasError-HidesList : {A : Type 0} (s : ListTab A) → HasError s → HidesList (shown s)
unfolding shown
HasError-HidesList s h = if-elim HidesList s.loading (λ _. tt) (λ _. rw h tt)

-- Once a load of the alerts or silences has failed, the tab never shows its list again, whatever loads
-- succeed later.
pub run_tab-HidesList :
    {A : Type 0} (message : Text) (es : List (TabEvent A)) (s : ListTab A)
    → is_empty message ≡ false
    → All HasMessage es
    → HidesList (shown (run_tab (answered (failed message) ∷ es) s))
unfolding run_tab loaded
run_tab-HidesList message es s e m =
    HasError-HidesList (run_tab (answered (failed message) ∷ es) s)
      (run_tab-HasError es (record s { error = message; loading = false }) m e)

-- On the tab of metrics the last answer wins, not the last choice: when the answer to an earlier choice
-- comes after that to a later one, the tab shows the earlier one's numbers under the later one's name.
run_metrics-late :
    (s : MetricsTab) (m n : Metric) (r q : Span)
    → let late =
        run_metrics (chosen m r ∷ started ∷ chosen n q ∷ started ∷ came n q ∷ came m r ∷ []) s in
      (late.metric ≡ n) × (late.span ≡ q) × (late.content ≡ some (m, r)) × (late.loading ≡ false)
unfolding run_metrics
run_metrics-late s m n r q = (refl, refl, refl, refl)
