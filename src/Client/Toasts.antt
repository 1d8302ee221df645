-- ===== src/Client/Toasts.antt =====
-- client/src/stores/store.ts: `useUi`, the toasts and the palette. Every toast has a timer, and as all
-- timers run equally long, they end in the order in which they were set.
pub mod Kept
use server_hub.Prelude.{ℕ, suc, Bool, false, List, [], ◌∷◌, ◌++◌, ◌==◌, if◌then◌else◌}
use server_hub.Text.{Text}

pub record Toast : Type 0 where
  pub id : ℕ
  pub text : Text
  pub bad : Bool

-- The store, the counter `toastId`, and the timers that run, by the toast that each ends.
pub record Ui : Type 0 where
  pub toasts : List Toast
  pub palette_open : Bool
  pub toast_id : ℕ
  pub timers : List ℕ

abbrev pub fresh_ui : Ui
fresh_ui = record { toasts = []; palette_open = false; toast_id = 0; timers = [] }

-- `toasts.filter((t) => t.id !== id)`
unfoldable pub without : ℕ → List Toast → List Toast
without id [] = []
without id (t ∷ ts) = let rest = without id ts in if t.id == id then rest else t ∷ rest

unfoldable pub push_toast : Text → Bool → Ui → Ui
push_toast text bad ui = record ui {
  toasts = ui.toasts ++ record { id = suc ui.toast_id; text = text; bad = bad } ∷ [];
  toast_id = suc ui.toast_id;
  timers = ui.timers ++ suc ui.toast_id ∷ [];
}

unfoldable dismiss_toast : ℕ → Ui → Ui
unfolding without
dismiss_toast id ui = record ui { toasts = without id ui.toasts }

unfoldable set_palette_open : Bool → Ui → Ui
set_palette_open open_now ui = record ui { palette_open = open_now }

-- The oldest timer ends.
elapse_first : List ℕ → Ui → Ui
unfolding without
elapse_first [] ui = ui
elapse_first (id ∷ rest) ui = record ui { toasts = without id ui.toasts; timers = rest }

unfoldable pub elapse : Ui → Ui
unfolding elapse_first
elapse ui = elapse_first ui.timers ui

pub data UiEvent : Type 0 where
  pushed : Text → Bool → UiEvent
  dismissed : ℕ → UiEvent
  palette : Bool → UiEvent
  elapsed : UiEvent

unfoldable pub step : UiEvent → Ui → Ui
unfolding push_toast dismiss_toast set_palette_open elapse
step (pushed text bad) ui = push_toast text bad ui
step (dismissed id) ui = dismiss_toast id ui
step (palette open_now) ui = set_palette_open open_now ui
step elapsed ui = elapse ui

unfoldable pub run : List UiEvent → Ui → Ui
unfolding step
run [] ui = ui
run (e ∷ es) ui = run es (step e ui)
