-- ===== src/Client/Telemetry/Current.antt =====
-- The telemetry page never shows the answer to a range that is no longer chosen.
use server_hub.Prelude.{
  ℕ, zero, suc, true, false, List, [], ◌∷◌, ◌++◌, Option, none, some, length, if◌then◌else◌,
  if-elim, ◌≡◌, refl, arith, ap, ◌⊎◌, inl, inr,
}
use server_hub.Types.{TelemetryPoint}
use server_hub.Client.Telemetry.{
  Range, hour, same_range, Telemetry, ask, opened, TelemetryEvent, picked, answered, left, or_nil,
  is_alive, step, run,
}

-- The range of a request, by its number.
abbrev pub nth : List Range → ℕ → Option Range
nth [] i = none
nth (r ∷ rs) zero = some r
nth (r ∷ rs) (suc i) = nth rs i

nth-append : (rs : List Range) (r : Range) → nth (rs ++ r ∷ []) (length rs) ≡ some r
nth-append [] r = refl
nth-append (q ∷ rs) r = nth-append rs r

-- While the page is open, the request that is alive is one for the chosen range, and the page is loading
-- or shows the answer to it.
abbrev pub Shows : (ℕ → Option (List TelemetryPoint)) → Telemetry → Option ℕ → Type 0
Shows answer s none = Unit
Shows answer s (some i) =
    (nth s.requests i ≡ some s.range) × ((s.loading ≡ true) ⊎ (s.points ≡ or_nil (answer i)))

abbrev pub IsCurrent : (ℕ → Option (List TelemetryPoint)) → Telemetry → Type 0
IsCurrent answer s = Shows answer s s.alive

ask-IsCurrent :
    (answer : ℕ → Option (List TelemetryPoint)) (s : Telemetry) → IsCurrent answer (ask s)
unfolding ask
ask-IsCurrent answer s = (nth-append s.requests s.range, inl refl)

step-IsCurrent :
    (answer : ℕ → Option (List TelemetryPoint)) (e : TelemetryEvent) (s : Telemetry)
    → IsCurrent answer s
    → IsCurrent answer (step answer e s)
unfolding step is_alive
step-IsCurrent answer (picked r) s h = pick s.alive
  where
    pick :
        (o : Option ℕ)
        → IsCurrent answer (elim o [
          | none ↦ s
          | some i ↦ if same_range r s.range then s else ask (record s { range = r })
        ])
    pick none = h
    pick (some i) =
        if-elim (IsCurrent answer) (same_range r s.range) (λ _. h)
          (λ _. ask-IsCurrent answer (record s { range = r }))
step-IsCurrent answer (answered i) s h =
    if-elim (IsCurrent answer) (is_alive i s.alive) (λ e. settle s.alive e h) (λ _. h)
  where
    settle :
        (o : Option ℕ)
        → is_alive i o ≡ true
        → Shows answer s o
        → Shows answer (record s { points = or_nil (answer i); loading = false }) o
    settle none e k = tt
    settle (some j) e k =
        let same : i ≡ j = ground (arith, e) in (k.0, inr (ap (λ n. or_nil (answer n)) same))
step-IsCurrent answer left s h = tt

run-IsCurrent :
    (answer : ℕ → Option (List TelemetryPoint)) (es : List TelemetryEvent) (s : Telemetry)
    → IsCurrent answer s
    → IsCurrent answer (run answer es s)
unfolding run
run-IsCurrent answer [] s h = h
run-IsCurrent answer (e ∷ es) s h =
    run-IsCurrent answer es (step answer e s) (step-IsCurrent answer e s h)

-- In whatever order ranges are picked and answers come, while the page is open its latest request is one
-- for the chosen range, and the page is loading or shows the answer to that request: no points where it
-- failed.
pub run-opened-IsCurrent :
    (answer : ℕ → Option (List TelemetryPoint)) (es : List TelemetryEvent)
    → IsCurrent answer (run answer es opened)
unfolding opened
run-opened-IsCurrent answer es = run-IsCurrent answer es opened (
    ask-IsCurrent answer
      (record { range = hour; points = []; loading = true; requests = []; alive = none }))
