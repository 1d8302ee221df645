-- ===== src/Client/Toasts/Kept.antt =====
-- Every toast of the web client goes away, and no two have one id.
use server_hub.Prelude.{
  ℕ, zero, suc, ◌≤◌, ◌<◌, ◌≡◌, refl, Bool, true, ◌||◌, List, [], ◌∷◌, ◌++◌, ◌==◌, any, All,
  All-append, arith, length, if-elim, subst,
}
use server_hub.Client.Toasts.{
  Toast, Ui, fresh_ui, without, elapse, elapse_first, UiEvent, pushed, dismissed, palette, elapsed,
  step, run,
}

abbrev runs : ℕ → List ℕ → Bool
runs id timers = any (λ j. j == id) timers

-- A timer runs for every toast.
abbrev IsTimed : List ℕ → List Toast → Type 0
IsTimed timers = All (λ t. runs t.id timers ≡ true)

-- Ids rise along the list, from above `low` to `high` at most.
abbrev pub IsRising : ℕ → ℕ → List Toast → Type 0
IsRising low high [] = low ≤ high
IsRising low high (t ∷ ts) = (low < t.id) × IsRising t.id high ts

pub record IsTidy (ui : Ui) : Type 0 where
  pub timed : IsTimed ui.timers ui.toasts
  pub rising : IsRising 0 ui.toast_id ui.toasts

runs-append : (id : ℕ) (xs ys : List ℕ) → runs id (xs ++ ys) ≡ runs id xs || runs id ys
runs-append id [] ys = refl
runs-append id (x ∷ xs) ys = ground (arith, runs-append id xs ys)

IsTimed-later : (xs ys : List ℕ) (ts : List Toast) → IsTimed xs ts → IsTimed (xs ++ ys) ts
IsTimed-later xs ys [] h = tt
IsTimed-later xs ys (t ∷ ts) h =
    (ground (arith, h.0, runs-append t.id xs ys), IsTimed-later xs ys ts h.1)

IsRising-push :
    (low high : ℕ) (t : Toast) (ts : List Toast)
    → IsRising low high ts
    → high < t.id
    → IsRising low t.id (ts ++ t ∷ [])
IsRising-push low high t [] h k = (omega arith, omega arith)
IsRising-push low high t (u ∷ ts) h k = (h.0, IsRising-push u.id high t ts h.1 k)

IsRising-lower :
    (low low' high : ℕ) (ts : List Toast)
    → low' ≤ low
    → IsRising low high ts
    → IsRising low' high ts
IsRising-lower low low' high [] h k = omega arith
IsRising-lower low low' high (t ∷ ts) h k = (omega (arith, k.0), k.1)

without-IsRising :
    (id low high : ℕ) (ts : List Toast) → IsRising low high ts → IsRising low high (without id ts)
unfolding without
without-IsRising id low high [] h = h
without-IsRising id low high (t ∷ ts) h =
    if-elim (IsRising low high) (t.id == id)
      (λ e.
        IsRising-lower t.id low high (without id ts) (omega (arith, h.0))
          (without-IsRising id t.id high ts h.1))
      (λ e. (h.0, without-IsRising id t.id high ts h.1))

without-IsTimed :
    (id : ℕ) (timers : List ℕ) (ts : List Toast)
    → IsTimed timers ts
    → IsTimed timers (without id ts)
unfolding without
without-IsTimed id timers [] h = tt
without-IsTimed id timers (t ∷ ts) h =
    if-elim (IsTimed timers) (t.id == id) (λ e. without-IsTimed id timers ts h.1)
      (λ e. (h.0, without-IsTimed id timers ts h.1))

without-elapsed :
    (id : ℕ) (timers : List ℕ) (ts : List Toast)
    → IsTimed (id ∷ timers) ts
    → IsTimed timers (without id ts)
unfolding without
without-elapsed id timers [] h = tt
without-elapsed id timers (t ∷ ts) h =
    if-elim (IsTimed timers) (t.id == id) (λ e. without-elapsed id timers ts h.1)
      (λ e. (ground (arith, h.0, e), without-elapsed id timers ts h.1))

elapse_first-IsTidy :
    (timers : List ℕ) (ui : Ui) → ui.timers ≡ timers → IsTidy ui → IsTidy (elapse_first timers ui)
unfolding elapse_first
elapse_first-IsTidy [] ui e h = h
elapse_first-IsTidy (id ∷ rest) ui e h = record {
  timed = without-elapsed id rest ui.toasts (subst (λ l. IsTimed l ui.toasts) e h.timed);
  rising = without-IsRising id 0 ui.toast_id ui.toasts h.rising;
}

step-IsTidy : (e : UiEvent) (ui : Ui) → IsTidy ui → IsTidy (step e ui)
unfolding step
step-IsTidy (pushed text bad) ui h = record {
  timed =
      All-append (λ t. runs t.id (ui.timers ++ suc ui.toast_id ∷ []) ≡ true) ui.toasts _
        (IsTimed-later ui.timers (suc ui.toast_id ∷ []) ui.toasts h.timed)
        (ground (arith, runs-append (suc ui.toast_id) ui.timers (suc ui.toast_id ∷ [])), tt);
  rising =
      IsRising-push 0 ui.toast_id (record { id = suc ui.toast_id; text = text; bad = bad })
        ui.toasts h.rising (omega arith);
}
step-IsTidy (dismissed id) ui h = record {
  timed = without-IsTimed id ui.timers ui.toasts h.timed;
  rising = without-IsRising id 0 ui.toast_id ui.toasts h.rising;
}
step-IsTidy (palette open_now) ui h = record { timed = h.timed; rising = h.rising }
step-IsTidy elapsed ui h = elapse_first-IsTidy ui.timers ui refl h

fresh_ui-IsTidy : IsTidy fresh_ui
fresh_ui-IsTidy = record { timed = tt; rising = omega arith }

run-IsTidy_from : (es : List UiEvent) (ui : Ui) → IsTidy ui → IsTidy (run es ui)
unfolding run
run-IsTidy_from [] ui h = h
run-IsTidy_from (e ∷ es) ui h = run-IsTidy_from es (step e ui) (step-IsTidy e ui h)

-- Whatever happens, the ids of the toasts rise, so that no two are equal, none is above the counter,
-- and a timer runs for each toast.
pub run-IsTidy : (es : List UiEvent) → IsTidy (run es fresh_ui)
run-IsTidy es = run-IsTidy_from es fresh_ui fresh_ui-IsTidy

-- The timers end, n of them.
abbrev pub elapses : ℕ → List UiEvent
elapses zero = []
elapses (suc n) = elapsed ∷ elapses n

elapse_first-timers :
    (timers : List ℕ) (ui : Ui) (n : ℕ)
    → ui.timers ≡ timers
    → length timers ≤ suc n
    → length (elapse_first timers ui).timers ≤ n
unfolding elapse_first
elapse_first-timers [] ui n e h = ground (arith, e)
elapse_first-timers (id ∷ rest) ui n e h = omega (arith, h)

untimed : (ts : List Toast) → IsTimed [] ts → ts ≡ []
untimed [] h = refl
untimed (t ∷ ts) h = cc (h.0)

no_timers : (timers : List ℕ) → length timers ≤ 0 → timers ≡ []
no_timers [] h = refl
no_timers (id ∷ rest) h = absurd (omega (arith, h))

drained : (n : ℕ) (ui : Ui) → IsTidy ui → length ui.timers ≤ n → (run (elapses n) ui).toasts ≡ []
unfolding run step elapse
drained zero ui h k =
    untimed ui.toasts (subst (λ l. IsTimed l ui.toasts) (no_timers ui.timers k) h.timed)
drained (suc n) ui h k =
    drained n (elapse ui) (elapse_first-IsTidy ui.timers ui refl h)
      (elapse_first-timers ui.timers ui n refl k)

-- No toast stays: whatever happened, once the timers that run have ended, no toast is left.
pub run-drained :
    (es : List UiEvent)
    → (run (elapses (length (run es fresh_ui).timers)) (run es fresh_ui)).toasts ≡ []
run-drained es =
    drained (length (run es fresh_ui).timers) (run es fresh_ui) (run-IsTidy es) (omega arith)
