-- ===== src/Client/Telemetry/Rates.antt =====
-- The rates of a counter that only grows add up to what it has grown by, and a restart counts as nothing.
use server_hub.Prelude.{ℕ, List, [], ◌∷◌, ◌+◌, ◌≤◌, ◌<◌, ◌≡◌, refl, ap, arith, length, suc, All}
use server_hub.Types.{TelemetryPoint}
use server_hub.Client.Telemetry.{Counter, counter_of, Rate, rate_since, rates_after, rates}

-- All that the rates say was transferred.
abbrev pub total : List Rate → ℕ
total [] = 0
total (r ∷ rs) = r.bytes + total rs

abbrev pub last_of : Counter → TelemetryPoint → List TelemetryPoint → ℕ
last_of k p [] = counter_of k p
last_of k p (q ∷ qs) = last_of k q qs

-- No point has a lower counter than the one before.
abbrev pub Grows : Counter → TelemetryPoint → List TelemetryPoint → Type 0
Grows k p [] = Unit
Grows k p (q ∷ qs) = (counter_of k p ≤ counter_of k q) × Grows k q qs

total-rates_after :
    (k : Counter) (p : TelemetryPoint) (ps : List TelemetryPoint)
    → Grows k p ps
    → total (rates_after k p ps) + counter_of k p ≡ last_of k p ps
unfolding rates_after rate_since
total-rates_after k p [] h = omega arith
total-rates_after k p (q ∷ qs) h = omega (arith, h.0, total-rates_after k q qs h.1)

rates_after-seconds :
    (k : Counter) (p : TelemetryPoint) (ps : List TelemetryPoint)
    → All (λ r. 0 < r.seconds) (rates_after k p ps)
unfolding rates_after rate_since
rates_after-seconds k p [] = tt
rates_after-seconds k p (q ∷ qs) = (ground arith, rates_after-seconds k q qs)

length-rates_after :
    (k : Counter) (p : TelemetryPoint) (ps : List TelemetryPoint)
    → length (rates_after k p ps) ≡ length ps
unfolding rates_after
length-rates_after k p [] = refl
length-rates_after k p (q ∷ qs) = ap suc (length-rates_after k q qs)

-- There is one rate for each point and none divides by zero; and where the counter never falls, the
-- bytes of the rates add up to what it has grown by from the first point to the last.
pub rates_lem :
    (k : Counter) (p : TelemetryPoint) (ps : List TelemetryPoint)
    → Grows k p ps
    → (length (rates k (p ∷ ps)) ≡ suc (length ps))
      × All (λ r. 0 < r.seconds) (rates k (p ∷ ps))
      × (total (rates k (p ∷ ps)) + counter_of k p ≡ last_of k p ps)
unfolding rates
rates_lem k p ps h = (
  ap suc (length-rates_after k p ps),
  (omega arith, rates_after-seconds k p ps),
  omega (arith, total-rates_after k p ps h),
)
