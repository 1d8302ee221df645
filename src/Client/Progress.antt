-- ===== src/Client/Progress.antt =====
-- client/src/features/dashboard/DeployProgress.tsx: the dialog that follows a running operation.
pub mod Followed
use server_hub.Prelude.{
  ℕ, zero, suc, Bool, true, false, not, ◌&&◌, ◌||◌, List, [], ◌∷◌, Option, none, some,
  if◌then◌else◌,
}
use server_hub.Text.{Text, codes, eqb}
use server_hub.Client.Toasts.{Ui, push_toast}

-- The part of an `Operation` that steers the dialog.
pub record Operation : Type 0 where
  pub status : Text
  pub error : Option Text

-- The effect of the current operation: a request is out, a timer runs, it has ended with the operation,
-- or with the component.
pub data Phase : Type 0 where
  asking resting ended gone : Phase

-- `was_done` is what `done` was when the effect began; `finished` counts the calls of `onDone`.
pub record Progress : Type 0 where
  pub op : Option Operation
  pub done : Bool
  pub was_done : Bool
  pub phase : Phase
  pub finished : ℕ

abbrev pub opened : Progress
opened = record { op = none; done = false; was_done = false; phase = asking; finished = 0 }

-- The test that ends the polling.
unfoldable pub is_over : Text → Bool
is_over s = eqb s (codes "SUCCESS") || eqb s (codes "FAILED") || eqb s (codes "CANCELLED")

answer : Operation → Progress → Progress
unfolding is_over
answer cur p =
    if is_over cur.status
    then record p {
      op = some cur;
      done = true;
      phase = ended;
      finished = if p.was_done then p.finished else suc p.finished;
    }
    else record p { op = some cur; phase = resting }

-- What happens: the request is answered or lost, the timer ends, the dialog is given another operation,
-- or it is taken away. Only what the current effect waits for can happen.
pub data ProgressEvent : Type 0 where
  answered : Operation → ProgressEvent
  transient : ProgressEvent
  timed_out : ProgressEvent
  another : ProgressEvent
  unmounted : ProgressEvent

waits : Phase → ProgressEvent → Progress → Progress
unfolding answer
waits asking (answered cur) p = answer cur p
waits asking transient p = record p { phase = resting }
waits resting timed_out p = record p { phase = asking }
waits _ _ p = p

-- A new operation starts the effect again; the state of the component stays.
restart : Phase → Progress → Progress
restart gone p = p
restart _ p = record p { was_done = p.done; phase = asking }

unfoldable pub step : ProgressEvent → Progress → Progress
unfolding waits restart
step another p = restart p.phase p
step unmounted p = record p { phase = gone }
step e p = waits p.phase e p

unfoldable pub run : List ProgressEvent → Progress → Progress
unfolding step
run [] p = p
run (e ∷ es) p = run es (step e p)

-- What the dialog shows: an operation that is neither queued nor running counts as terminal.
unfoldable pub is_terminal : Option Operation → Bool
is_terminal none = false
is_terminal (some o) = not (eqb o.status (codes "QUEUED")) && not (eqb o.status (codes "RUNNING"))

unfoldable pub has_failed : Option Operation → Bool
has_failed none = false
has_failed (some o) = eqb o.status (codes "FAILED")

-- `Complete — ship is sailing.`
unfoldable pub shows_complete : Option Operation → Bool
unfolding is_terminal has_failed
shows_complete o = is_terminal o && not (has_failed o)

-- The button of the dialog.
unfoldable pub close : Progress → Ui → Ui
unfolding is_terminal push_toast
close p ui =
    if is_terminal p.op
    then ui
    else push_toast (codes "Dispatch continues in the background.") false ui
